-- ===== src/Types/Roundtrip.antt =====
-- The two conversions of a lock time are inverse to each other.
use bdk_ffi.Prelude.{ℕ, ◌<◌, ◌≤◌, ◌^◌, some, ok, err, ◌≡◌, ap, Option-cases, inl, inr, arith}
use bdk_ffi.Extern.{Primitives}
use bdk_ffi.Errors.CreateTx.{lock_time_conversion_error}
use bdk_ffi.Types.LockTime.{LockTime, BdkLockTime, from_bdk, try_from}

-- `from_consensus` and `to_consensus_u32`, as `rust-bitcoin` documents them: a height is below the threshold of
-- BIP 65 and a time is a `u32` from there on.
pub record IsConsensus (P : Primitives) : Type 0 where
  pub height_from_to : (t : P.Height) → P.height_from (P.height_to t) ≡ some t
  pub height_to_from : (n : ℕ) (t : P.Height) → P.height_from n ≡ some t → P.height_to t ≡ n
  pub time_from_to : (t : P.Time) → P.time_from (P.time_to t) ≡ some t
  pub time_to_from : (n : ℕ) (t : P.Time) → P.time_from n ≡ some t → P.time_to t ≡ n
  pub height_below : (t : P.Height) → P.height_to t < 500000000
  pub height_total : (n : ℕ) → n < 500000000 → (t : P.Height) × (P.height_from n ≡ some t)
  pub time_above : (t : P.Time) → 500000000 ≤ P.time_to t
  pub time_total : (n : ℕ) → 500000000 ≤ n → n < 2 ^ 32 → (t : P.Time) × (P.time_from n ≡ some t)

module _ (P : Primitives) (C : IsConsensus P) where
  -- A lock time of the library that is converted to one of the bindings converts back to itself, if
  -- the library reads back the numbers that it writes: the bindings accept every lock time that
  -- they hand out.
  pub try_from-from_bdk : (t : BdkLockTime P) → try_from P (from_bdk P t) ≡ ok t
  unfolding try_from from_bdk
  try_from-from_bdk (BdkLockTime.blocks t) = rw (C.height_from_to t)
  try_from-from_bdk (BdkLockTime.seconds t) = rw (C.time_from_to t)

  -- A lock time of the bindings that is accepted converts back to itself, if the library reads
  -- numbers as what it writes.
  pub from_bdk-try_from :
      (l : LockTime) (t : BdkLockTime P) → try_from P l ≡ ok t → from_bdk P t ≡ l
  unfolding try_from from_bdk
  from_bdk-try_from (LockTime.blocks n) t e = elim (Option-cases (P.height_from n)) [
    | inl h ↦ ground arith
    | inr (t', h) ↦
        let same : t ≡ BdkLockTime.blocks t' = ground arith in
        rw same (ap LockTime.blocks (C.height_to_from n t' h))
  ]
  from_bdk-try_from (LockTime.seconds n) t e = elim (Option-cases (P.time_from n)) [
    | inl h ↦ ground arith
    | inr (t', h) ↦
        let same : t ≡ BdkLockTime.seconds t' = ground arith in
        rw same (ap LockTime.seconds (C.time_to_from n t' h))
  ]

  -- With the library's threshold, a number below 500000000 is accepted as a block height, and
  -- refused as a time with the conversion error.
  pub try_from_below :
      (n : ℕ)
      → n < 500000000
      → ((t : P.Height) × (try_from P (LockTime.blocks n) ≡ ok (BdkLockTime.blocks t)))
        × (try_from P (LockTime.seconds n) ≡ err lock_time_conversion_error)
  unfolding try_from
  try_from_below n below = (
    (let (t, h) = C.height_total n below in (t, rw h)),
    elim (Option-cases (P.time_from n)) [
      | inl h ↦ rw h
      | inr (t, h) ↦ let is_n = C.time_to_from n t h in let above = C.time_above t in ground arith
    ],
  )

  -- With the library's threshold, a 32-bit number from 500000000 on is accepted as a time, and
  -- refused as a block height with the conversion error.
  pub try_from_above :
      (n : ℕ)
      → 500000000 ≤ n
      → n < 2 ^ 32
      → ((t : P.Time) × (try_from P (LockTime.seconds n) ≡ ok (BdkLockTime.seconds t)))
        × (try_from P (LockTime.blocks n) ≡ err lock_time_conversion_error)
  unfolding try_from
  try_from_above n above fits = (
    (let (t, h) = C.time_total n above fits in (t, rw h)),
    elim (Option-cases (P.height_from n)) [
      | inl h ↦ rw h
      | inr (t, h) ↦
          let is_n = C.height_to_from n t h in let below = C.height_below t in ground arith
    ],
  )
