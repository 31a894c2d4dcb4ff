-- ===== src/Bitcoin/Address/Validity.antt =====
-- For which networks an address is good.
use bdk_ffi.Prelude.{true, false, ok, err, Bool-cases, inl, inr, ◌≡◌, ◌↔◌, arith}
use bdk_ffi.Extern.{Primitives}
use bdk_ffi.Errors.Address.{BdkParseError}
use bdk_ffi.Bitcoin.Library.{BitcoinLibrary}
use bdk_ffi.Bitcoin.Address.{new, is_valid_for_network, parsed_is_valid, to_string}

-- What the library promises of addresses: an address that is printed parses to itself, with its network unchecked; and
-- the check lets an address pass exactly for the networks that it is valid for.
pub record IsChecked (P : Primitives) (L : BitcoinLibrary P) : Type 0 where
  pub as_unchecked : L.Address → L.Unchecked
  pub parse_printed :
      (address : L.Address)
      → L.parse_address (L.address_to_string address) ≡ ok (as_unchecked address)
  pub require_valid :
      (address : L.Address) (network : L.Network)
      → L.is_valid_for_network (as_unchecked address) network ≡ true
      → L.require_network (as_unchecked address) network ≡ ok address
  pub require_invalid :
      (address : L.Address) (network : L.Network)
      → L.is_valid_for_network (as_unchecked address) network ≡ false
      → (e : BdkParseError P.Payload) × (L.require_network (as_unchecked address) network ≡ err e)

module _ (P : Primitives) (L : BitcoinLibrary P) (law : IsChecked P L) where
  -- If a printed address parses to itself and the library's check lets it pass exactly for the networks
  -- it is valid for, then the printed address can be read back for a network, as the same address, if
  -- and only if `is_valid_for_network` accepts that network.
  new-is_valid :
      (address : L.Address) (network : L.Network)
      → (new P L (to_string P L address) network ≡ ok address)
        ↔ (is_valid_for_network P L address network ≡ true)
  unfolding new to_string is_valid_for_network parsed_is_valid
  new-is_valid address network =
      rw (law.parse_printed address, new, is_valid_for_network)
        (elim (Bool-cases (L.is_valid_for_network (law.as_unchecked address) network)) [
          | inl valid ↦ (λ _. valid, λ _. rw (law.require_valid address network valid))
          | inr invalid ↦
              let (e, refused) = law.require_invalid address network invalid in
              (λ same. ground arith, λ valid. ground arith)
        ])
