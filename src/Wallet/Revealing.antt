-- ===== src/Wallet/Revealing.antt =====
-- Revealing addresses one at a time and all at once.
use mathlib.Core.List.{map-map}
use bdk_ffi.Prelude.{
  ℕ, zero, suc, ◌+◌, ◌≤◌, ◌<◌, ◌^◌, List, [], ◌∷◌, map, ◌≡◌, refl, ap, ◌∙◌, fun_ext, arith,
}
use bdk_ffi.Extern.{Primitives, KeychainKind}
use bdk_ffi.Bitcoin.Library.{BitcoinLibrary}
use bdk_ffi.Views.Library.{HashLibrary}
use bdk_ffi.Views.Records.{AddressInfo, from_address_info}
use bdk_ffi.Requests.Library.{ScanLibrary}
use bdk_ffi.Wallet.Library.{WalletLibrary}
use bdk_ffi.Wallet.Methods.{
  reveal_next_address, reveal_addresses_to, peek_address, next_derivation_index,
}

-- So many numbers from the first one on.
abbrev pub range : ℕ → ℕ → List ℕ
range start zero = []
range start (suc n) = start ∷ range (suc start) n

-- What the library promises of revealing, below the last derivation index that is not hardened, for a keychain whose
-- descriptor has a wildcard: one address is the next one, and many are those up to the last index, with none left out.
-- What is revealed is what `peek_address` shows, which revealing does not change. The wallet is left as if it had been
-- told how far to reveal. A keychain whose descriptor has no wildcard reveals the same address again.
pub record IsRevealing (P : Primitives) (L : BitcoinLibrary P) (H : HashLibrary) (S : ScanLibrary P)
    (W : WalletLibrary P L H S) : Type 1 where
  pub HasWildcard : P.Wallet → KeychainKind → Type 0
  pub revealed : P.Wallet → KeychainKind → ℕ → P.Wallet
  pub revealed_wildcard :
      (wallet : P.Wallet) (keychain : KeychainKind) (n : ℕ)
      → HasWildcard wallet keychain
      → HasWildcard (revealed wallet keychain n) keychain
  pub reveal_next :
      (wallet : P.Wallet) (keychain : KeychainKind)
      → HasWildcard wallet keychain
      → suc (W.next_derivation_index wallet keychain) < 2 ^ 31
      → W.reveal_next_address wallet keychain ≡ (
        W.peek_address wallet keychain (W.next_derivation_index wallet keychain),
        revealed wallet keychain (W.next_derivation_index wallet keychain),
      )
  pub reveal_to :
      (wallet : P.Wallet) (keychain : KeychainKind) (n : ℕ)
      → HasWildcard wallet keychain
      → suc (W.next_derivation_index wallet keychain + n) < 2 ^ 31
      → W.reveal_addresses_to wallet keychain (W.next_derivation_index wallet keychain + n) ≡ (
        map
            (W.peek_address wallet keychain)
            (range (W.next_derivation_index wallet keychain) (suc n)),
        revealed wallet keychain (W.next_derivation_index wallet keychain + n),
      )
  pub next_revealed :
      (wallet : P.Wallet) (keychain : KeychainKind) (n : ℕ)
      → HasWildcard wallet keychain
      → W.next_derivation_index wallet keychain ≤ n
      → suc n < 2 ^ 31
      → W.next_derivation_index (revealed wallet keychain n) keychain ≡ suc n
  pub peek_revealed :
      (wallet : P.Wallet) (keychain : KeychainKind) (n i : ℕ)
      → W.peek_address (revealed wallet keychain n) keychain i ≡ W.peek_address wallet keychain i
  pub peek_index :
      (wallet : P.Wallet) (keychain : KeychainKind) (i : ℕ)
      → HasWildcard wallet keychain
      → (W.peek_address wallet keychain i).index ≡ i
  pub revealed_further :
      (wallet : P.Wallet) (keychain : KeychainKind) (n m : ℕ)
      → revealed (revealed wallet keychain n) keychain (n + m) ≡ revealed wallet keychain (n + m)

module _ (P : Primitives) (L : BitcoinLibrary P) (H : HashLibrary) (S : ScanLibrary P)
    (W : WalletLibrary P L H S) where
  -- Foreign code that asks for one more address so many times.
  unfoldable pub reveal_each : ℕ → P.Wallet → KeychainKind → List (AddressInfo P L) × P.Wallet
  unfolding reveal_next_address
  reveal_each zero wallet keychain = ([], wallet)
  reveal_each (suc n) wallet keychain =
      let (address_info, wallet') = reveal_next_address P L H S W wallet keychain in
      let (rest, last) = reveal_each n wallet' keychain in (address_info ∷ rest, last)

  reveal_each_none :
      (wallet : P.Wallet) (keychain : KeychainKind)
      → reveal_each zero wallet keychain ≡ ([], wallet)
  unfolding reveal_each
  reveal_each_none wallet keychain = refl

  module _ (law : IsRevealing P L H S W) where
    reveal_each_step :
        (n : ℕ) (wallet : P.Wallet) (keychain : KeychainKind)
        → law.HasWildcard wallet keychain
        → suc (W.next_derivation_index wallet keychain) < 2 ^ 31
        → reveal_each (suc n) wallet keychain ≡ (
          peek_address P L H S W wallet keychain (W.next_derivation_index wallet keychain)
              ∷ (reveal_each n
                  (law.revealed wallet keychain (W.next_derivation_index wallet keychain))
                  keychain).0,
          (reveal_each n
              (law.revealed wallet keychain (W.next_derivation_index wallet keychain))
              keychain).1,
        )
    unfolding reveal_each reveal_next_address peek_address
    reveal_each_step n wallet keychain wild lt = rw (law.reveal_next wallet keychain wild lt) refl

    peek-revealed :
        (wallet : P.Wallet) (keychain : KeychainKind) (n : ℕ)
        → peek_address P L H S W (law.revealed wallet keychain n) keychain
          ≡ peek_address P L H S W wallet keychain
    unfolding peek_address
    peek-revealed wallet keychain n =
        fun_ext λ i. ap (from_address_info P L) (law.peek_revealed wallet keychain n i)

    pub reveal_each-range :
        (n : ℕ) (wallet : P.Wallet) (keychain : KeychainKind)
        → law.HasWildcard wallet keychain
        → suc (W.next_derivation_index wallet keychain + n) < 2 ^ 31
        → reveal_each (suc n) wallet keychain ≡ (
          map
              (peek_address P L H S W wallet keychain)
              (range (W.next_derivation_index wallet keychain) (suc n)),
          law.revealed wallet keychain (W.next_derivation_index wallet keychain + n),
        )
    reveal_each-range zero wallet keychain wild lt =
        let same : W.next_derivation_index wallet keychain + 0
            ≡ W.next_derivation_index wallet keychain =
          omega arith in
        rw
          (
            reveal_each_step zero wallet keychain wild (omega arith),
            same,
            reveal_each_none
                (law.revealed wallet keychain (W.next_derivation_index wallet keychain)) keychain,
          )
          refl
    reveal_each-range (suc n) wallet keychain wild lt =
        let next = W.next_derivation_index wallet keychain in
        let moved : W.next_derivation_index (law.revealed wallet keychain next) keychain
            ≡ suc next =
          law.next_revealed wallet keychain next wild (omega arith) (omega arith) in
        let further : suc next + n ≡ next + suc n = omega arith in
        let left : law.revealed (law.revealed wallet keychain next) keychain
              (W.next_derivation_index (law.revealed wallet keychain next) keychain + n)
            ≡ law.revealed wallet keychain (next + suc n) =
          rw (moved, further, law.revealed_further wallet keychain next (suc n)) refl in
        let rest =
          reveal_each-range n (law.revealed wallet keychain next) keychain
            (law.revealed_wildcard wallet keychain next wild) (omega (arith, moved))
          ∙ λ i. (map (peek-revealed wallet keychain next i) (range (moved i) (suc n)), left i) in
        rw (reveal_each_step (suc n) wallet keychain wild (omega arith), rest) refl

    -- If revealing works in the library as it is documented, then for a keychain whose descriptor
    -- has a wildcard, and below the last derivation index, `Wallet::reveal_addresses_to` an index
    -- that is not yet revealed shows the same addresses as calling `Wallet::reveal_next_address`
    -- once for each index up to it, in the same order, and leaves the same wallet.
    pub reveal_addresses_to-eq-each :
        (n : ℕ) (wallet : P.Wallet) (keychain : KeychainKind)
        → law.HasWildcard wallet keychain
        → suc (next_derivation_index P L H S W wallet keychain + n) < 2 ^ 31
        → reveal_addresses_to P L H S W wallet keychain
            (next_derivation_index P L H S W wallet keychain + n)
          ≡ reveal_each (suc n) wallet keychain
    unfolding reveal_addresses_to next_derivation_index peek_address
    reveal_addresses_to-eq-each n wallet keychain wild lt =
        rw
          (
            law.reveal_to wallet keychain n wild lt,
            reveal_each-range n wallet keychain wild lt,
            map-map,
          )
          refl
