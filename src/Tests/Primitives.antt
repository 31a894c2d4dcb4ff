-- ===== src/Tests/Primitives.antt =====
-- Numbers in place of the Bitcoin types, the lock times at the threshold of BIP 65, and the theorems on lock times and
-- errors at them.
use mathlib.Core.Path.{ap, sym}
use mathlib.Core.Option.{some-injective}
use native.Mathlib.Decide.{ℕ_discrete, dec_lt}
use native.Mathlib.Bridge.{le_prop}
use native.Mathlib.Omega.{arith}
use bdk_ffi.Prelude.{ℕ, ◌+◌, ◌-◌, ◌<◌, ◌≤◌, String, Option, none, some, List, ◌≡◌, refl, ok, err}
use bdk_ffi.Extern.{Primitives}
use bdk_ffi.Errors.CreateTx.{lock_time_conversion_error}
use bdk_ffi.Types.LockTime.{LockTime, BdkLockTime, from_bdk, try_from}
use bdk_ffi.Types.Roundtrip.{
  IsConsensus, try_from-from_bdk, from_bdk-try_from, try_from_below, try_from_above,
}

abbrev threshold : ℕ
threshold = 500000000

abbrev SmallHeight : Type 0
SmallHeight = (n : ℕ) × (n < threshold)

abbrev read_height : (n : ℕ) → Dec (n < threshold) → Option SmallHeight
read_height n (yes below) = some (n, below)
read_height n (no _) = none

abbrev read_time : (n : ℕ) → Dec (n < threshold) → Option ℕ
read_time n (yes below) = none
read_time n (no _) = some (n - threshold)

abbrev pub numbers : Primitives
numbers = record {
  usize_bits = 64;
  Script = ℕ;
  Amount = ℕ;
  FeeRate = ℕ;
  OutPoint = ℕ;
  outpoint_discrete = ℕ_discrete;
  Txid = String;
  parse_txid = λ text. some text;
  Height = SmallHeight;
  Time = ℕ;
  height_from = λ n. read_height n (dec_lt n threshold);
  time_from = λ n. read_time n (dec_lt n threshold);
  height_to = λ t. t.0;
  time_to = λ t. t + threshold;
  PushBytes = List ℕ;
  push_bytes = λ bytes. some bytes;
  Payload = String;
  to_string = λ e. e;
  debug = λ e. e;
  lower_hex = λ e. e;
  outpoint_string = λ x. "outpoint";
  txid_string = λ t. t;
  Wallet = ℕ;
  Psbt = String;
}

-- Lock times without the bounds of BIP 65, and wallets that are how many addresses of each keychain are revealed.
abbrev pub plain : Primitives
plain = record numbers {
  Height = ℕ;
  Time = ℕ;
  height_from = λ n. some n;
  time_from = λ n. some n;
  height_to = λ n. n;
  time_to = λ n. n;
  Wallet = ℕ × ℕ;
}

read_height_at :
    (n : ℕ) (below : n < threshold) (d : Dec (n < threshold)) → read_height n d ≡ some (n, below)
read_height_at n below (yes h) = ap (λ p. some (n, p)) (le_prop h below)
read_height_at n below (no above) = elim (above below) [ ]

read_height-eq-some :
    (n : ℕ) (d : Dec (n < threshold)) (t : SmallHeight) → read_height n d ≡ some t → t.0 ≡ n
read_height-eq-some n (yes h) t e = ap (λ (p : SmallHeight). p.0) (sym (some-injective (n, h) t e))
read_height-eq-some n (no h) t e = ground arith

read_time_at : (t : ℕ) (d : Dec (t + threshold < threshold)) → read_time (t + threshold) d ≡ some t
read_time_at t (yes below) = ground arith
read_time_at t (no above) = ap some (omega arith)

read_time-eq-some :
    (n : ℕ) (d : Dec (n < threshold)) (t : ℕ) → read_time n d ≡ some t → t + threshold ≡ n
read_time-eq-some n (yes below) t e = ground arith
read_time-eq-some n (no above) t e = ground arith

read_time_above :
    (n : ℕ) (d : Dec (n < threshold)) → threshold ≤ n → (t : ℕ) × (read_time n d ≡ some t)
read_time_above n (yes below) above = ground arith
read_time_above n (no _) above = (n - threshold, refl)

pub numbers-IsConsensus : IsConsensus numbers
numbers-IsConsensus = record {
  height_from_to = λ (n, below). read_height_at n below (dec_lt n threshold);
  height_to_from = λ n t e. read_height-eq-some n (dec_lt n threshold) t e;
  time_from_to = λ t. read_time_at t (dec_lt (t + threshold) threshold);
  time_to_from = λ n t e. read_time-eq-some n (dec_lt n threshold) t e;
  height_below = λ t. t.1;
  height_total = λ n below. ((n, below), read_height_at n below (dec_lt n threshold));
  time_above = λ t. omega arith;
  time_total = λ n above fits. read_time_above n (dec_lt n threshold) above;
}

-- A height and a time of recent blocks.
some_height : SmallHeight
some_height = (800000, omega arith)

try_from-from_bdk_example :
    try_from numbers (from_bdk numbers (BdkLockTime.blocks some_height))
    ≡ ok (BdkLockTime.blocks some_height)
try_from-from_bdk_example =
    try_from-from_bdk numbers numbers-IsConsensus (BdkLockTime.blocks some_height)

accepted_time : try_from numbers (LockTime.seconds 1700000000) ≡ ok (BdkLockTime.seconds 1200000000)
unfolding try_from dec_lt
accepted_time = refl

from_bdk-try_from_example :
    from_bdk numbers (BdkLockTime.seconds 1200000000) ≡ LockTime.seconds 1700000000
from_bdk-try_from_example =
    from_bdk-try_from numbers numbers-IsConsensus (LockTime.seconds 1700000000)
      (BdkLockTime.seconds 1200000000) accepted_time

try_from_below_example :
    ((t : SmallHeight) × (try_from numbers (LockTime.blocks 800000) ≡ ok (BdkLockTime.blocks t)))
    × (try_from numbers (LockTime.seconds 800000) ≡ err lock_time_conversion_error)
try_from_below_example = try_from_below numbers numbers-IsConsensus 800000 (omega arith)

try_from_above_example :
    ((t : ℕ) × (try_from numbers (LockTime.seconds 1700000000) ≡ ok (BdkLockTime.seconds t)))
    × (try_from numbers (LockTime.blocks 1700000000) ≡ err lock_time_conversion_error)
try_from_above_example =
    try_from_above numbers numbers-IsConsensus 1700000000 (omega arith) (omega arith)
