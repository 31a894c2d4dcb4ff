-- ===== src/Views/Policy.antt =====
-- `Policy`, `SatisfiableItem` and `PkOrF` of bdk-ffi/src/types.rs. A policy of the library is a tree; the bindings wrap
-- it and show one level at a time.
pub mod Walk
use bdk_ffi.Prelude.{ℕ, Bool, String, List, [], ◌∷◌, map, cast, Outcome, Result, unwrap}
use bdk_ffi.Extern.{Primitives}
use bdk_ffi.Types.LockTime.{LockTime, BdkLockTime, from_bdk}
use bdk_ffi.Views.Satisfaction.{Satisfaction, BdkSatisfaction, from_satisfaction}

pub data PkOrF : Type 0 where
  pubkey x_only_pubkey fingerprint : String → PkOrF

module _ (P : Primitives) where
  -- `bdk_wallet::descriptor::policy::PkOrF`
  pub data BdkPkOrF : Type 0 where
    pubkey x_only_pubkey fingerprint : P.Payload → BdkPkOrF

  -- `bdk_wallet::descriptor::Policy` and its items. A relative timelock is its consensus encoding.
  mutual
    pub data BdkPolicy : Type 0 where
      policy : String → BdkSatisfiableItem → BdkSatisfaction P → BdkSatisfaction P → BdkPolicy

    pub data BdkSatisfiableItem : Type 0 where
      ecdsa_signature schnorr_signature : BdkPkOrF → BdkSatisfiableItem
      sha256_preimage hash256_preimage ripemd160_preimage hash160_preimage :
          P.Payload → BdkSatisfiableItem
      absolute_timelock : BdkLockTime P → BdkSatisfiableItem
      relative_timelock : ℕ → BdkSatisfiableItem
      multisig : List BdkPkOrF → ℕ → BdkSatisfiableItem
      thresh : BdkPolicies → ℕ → BdkSatisfiableItem

    pub data BdkPolicies : Type 0 where
      nil : BdkPolicies
      cons : BdkPolicy → BdkPolicies → BdkPolicies

  -- The vector of policies as a list.
  unfoldable pub policies : BdkPolicies → List BdkPolicy
  policies nil = []
  policies (cons p ps) = p ∷ policies ps

  -- `Policy`, which wraps the library's.
  abbrev pub Policy : Type 0
  Policy = BdkPolicy

  pub data SatisfiableItem : Type 0 where
    ecdsa_signature schnorr_signature : PkOrF → SatisfiableItem
    sha256_preimage hash256_preimage ripemd160_preimage hash160_preimage : String → SatisfiableItem
    absolute_timelock : LockTime → SatisfiableItem
    relative_timelock : ℕ → SatisfiableItem
    multisig : List PkOrF → ℕ → SatisfiableItem
    thresh : List Policy → ℕ → SatisfiableItem

  unfoldable pub from_pk_or_f : BdkPkOrF → PkOrF
  from_pk_or_f (BdkPkOrF.pubkey public_key) = PkOrF.pubkey (P.to_string public_key)
  from_pk_or_f (BdkPkOrF.x_only_pubkey xonly_public_key) =
      PkOrF.x_only_pubkey (P.to_string xonly_public_key)
  from_pk_or_f (BdkPkOrF.fingerprint prefix) = PkOrF.fingerprint (P.to_string prefix)

  unfoldable pub from_item : BdkSatisfiableItem → SatisfiableItem
  unfolding from_pk_or_f from_bdk policies
  from_item (BdkSatisfiableItem.ecdsa_signature pk_or_f) =
      SatisfiableItem.ecdsa_signature (from_pk_or_f pk_or_f)
  from_item (BdkSatisfiableItem.schnorr_signature pk_or_f) =
      SatisfiableItem.schnorr_signature (from_pk_or_f pk_or_f)
  from_item (BdkSatisfiableItem.sha256_preimage hash) =
      SatisfiableItem.sha256_preimage (P.to_string hash)
  from_item (BdkSatisfiableItem.hash256_preimage hash) =
      SatisfiableItem.hash256_preimage (P.to_string hash)
  from_item (BdkSatisfiableItem.ripemd160_preimage hash) =
      SatisfiableItem.ripemd160_preimage (P.to_string hash)
  from_item (BdkSatisfiableItem.hash160_preimage hash) =
      SatisfiableItem.hash160_preimage (P.to_string hash)
  from_item (BdkSatisfiableItem.absolute_timelock value) =
      SatisfiableItem.absolute_timelock (from_bdk P value)
  from_item (BdkSatisfiableItem.relative_timelock value) = SatisfiableItem.relative_timelock value
  from_item (BdkSatisfiableItem.multisig keys threshold) =
      SatisfiableItem.multisig (map from_pk_or_f keys) (cast 64 threshold)
  from_item (BdkSatisfiableItem.thresh items threshold) =
      SatisfiableItem.thresh (policies items) (cast 64 threshold)

  unfoldable pub id : Policy → String
  id (policy own root met given) = own

  unfoldable pub item : Policy → SatisfiableItem
  unfolding from_item
  item (policy own root met given) = from_item root

  unfoldable pub satisfaction : Policy → Satisfaction
  unfolding from_satisfaction
  satisfaction (policy own root met given) = from_satisfaction P met

  unfoldable pub contribution : Policy → Satisfaction
  unfolding from_satisfaction
  contribution (policy own root met given) = from_satisfaction P given

  -- What the library says of a policy itself.
  pub record PolicyLibrary : Type 1 where
    pub JsonError : Type 0
    pub to_json : BdkPolicy → Result String JsonError
    pub requires_path : BdkPolicy → Bool

  unfoldable pub as_string : PolicyLibrary → Policy → Outcome String
  as_string L p = unwrap (L.to_json p)

  unfoldable pub requires_path : PolicyLibrary → Policy → Bool
  requires_path L p = L.requires_path p
