-- ===== src/Descriptor/Single.antt =====
-- `to_single_descriptors` splits the descriptor and shares its keys.
use bdk_ffi.Prelude.{List, [], ◌∷◌, map, ok, ◌≡◌, refl, ap, sym, All, Result-cases, inl, inr, arith}
use bdk_ffi.Extern.{Primitives}
use bdk_ffi.Keys.Library.{KeyLibrary}
use bdk_ffi.Descriptor.{DescriptorLibrary, Descriptor, of_parts, to_single_descriptors}

module _ (P : Primitives) (K : KeyLibrary) (D : DescriptorLibrary P K) where
  with_keys : D.KeyMap → List D.ExtendedDescriptor → List (Descriptor P K D)
  with_keys keys = map (λ desc. of_parts P K D (desc, keys))

  with_keys_parts :
      (keys : D.KeyMap) (descs : List D.ExtendedDescriptor)
      → (map (λ (d : Descriptor P K D). d.extended_descriptor) (with_keys keys descs) ≡ descs)
        × All (λ (d : Descriptor P K D). d.key_map ≡ keys) (with_keys keys descs)
  unfolding with_keys
  with_keys_parts keys [] = (refl, tt)
  with_keys_parts keys (desc ∷ descs) =
      (ap (◌∷◌ desc) (with_keys_parts keys descs).0, (refl, (with_keys_parts keys descs).1))

  -- If `to_single_descriptors` succeeds, the descriptors that come back are those that the library
  -- splits into, in its order, and every one of them has the keys of the descriptor that was split.
  to_single_descriptors-eq-ok :
      (d : Descriptor P K D) (ds : List (Descriptor P K D))
      → to_single_descriptors P K D d ≡ ok ds
      → (D.into_single_descriptors d.extended_descriptor
          ≡ ok (map (λ (x : Descriptor P K D). x.extended_descriptor) ds))
        × All (λ (x : Descriptor P K D). x.key_map ≡ d.key_map) ds
  unfolding to_single_descriptors with_keys
  to_single_descriptors-eq-ok d ds e =
      elim (Result-cases (D.into_single_descriptors d.extended_descriptor)) [
        | inl (descs, h) ↦
            let same : with_keys d.key_map descs ≡ ds = ground arith in
            rw (← same) (
              rw h (ap ok (sym (with_keys_parts d.key_map descs).0)),
              (with_keys_parts d.key_map descs).1,
            )
        | inr (error, h) ↦ ground arith
      ]
