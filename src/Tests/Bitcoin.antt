-- ===== src/Tests/Bitcoin.antt =====
-- Transactions that are encoded by lists of numbers and addresses of two networks, with the theorems on both.
use bdk_ffi.Prelude.{
  ℕ, zero, suc, String, Bool, true, false, List, [], ◌∷◌, ◌++◌, none, some, Result, ok, err, ◌≡◌,
  ◌↔◌, refl, ap, not, if◌then◌else◌, arith,
}
use text.Mathlib.Text.{starts_with}
use bdk_ffi.Errors.Address.{BdkParseError}
use bdk_ffi.Types.LockTime.{BdkLockTime}
use bdk_ffi.Errors.Transaction.{BdkEncodeError}
use bdk_ffi.Bitcoin.Library.{BitcoinLibrary, BdkTxIn, BdkTxOut, BdkTransaction}
use bdk_ffi.Bitcoin.Transaction
use bdk_ffi.Bitcoin.Transaction.Decoding.{IsEncoding, new-eq-ok}
use bdk_ffi.Tests.Primitives.{plain}
use bdk_ffi.Tests.Codec.{Codec, Read, number, pair, list, via}

abbrev encode_lock : BdkLockTime plain → List ℕ
encode_lock (BdkLockTime.blocks h) = 0 ∷ h ∷ []
encode_lock (BdkLockTime.seconds t) = 1 ∷ t ∷ []

abbrev decode_lock : List ℕ → Read (BdkLockTime plain)
decode_lock (zero ∷ h ∷ rest) = some (BdkLockTime.blocks h, rest)
decode_lock (suc zero ∷ t ∷ rest) = some (BdkLockTime.seconds t, rest)
decode_lock _ = none

lock_decode-encode :
    (t : BdkLockTime plain) (rest : List ℕ) → decode_lock (encode_lock t ++ rest) ≡ some (t, rest)
lock_decode-encode (BdkLockTime.blocks h) rest = refl
lock_decode-encode (BdkLockTime.seconds t) rest = refl

lock_encode-decode :
    (bytes rest : List ℕ) (t : BdkLockTime plain)
    → decode_lock bytes ≡ some (t, rest)
    → bytes ≡ encode_lock t ++ rest
lock_encode-decode (zero ∷ h ∷ found) rest t e =
    let same : BdkLockTime.blocks h ≡ t = ground arith in
    let same_rest : found ≡ rest = ground arith in rw (← same, ← same_rest) refl
lock_encode-decode (suc zero ∷ h ∷ found) rest t e =
    let same : BdkLockTime.seconds h ≡ t = ground arith in
    let same_rest : found ≡ rest = ground arith in rw (← same, ← same_rest) refl
lock_encode-decode _ rest t e = ground arith

lock : Codec (BdkLockTime plain)
lock = record {
  encode = encode_lock;
  decode = decode_lock;
  decode-encode = lock_decode-encode;
  encode-decode = lock_encode-decode;
}

tx_in : Codec (BdkTxIn plain)
tx_in =
    via (pair (pair number number) (pair number (list (list number))))
      (λ (((o, s), (n, w)) : (ℕ × ℕ) × (ℕ × List (List ℕ))). record {
        previous_output = o;
        script_sig = s;
        sequence = n;
        witness = w;
      })
      (λ i. ((i.previous_output, i.script_sig), (i.sequence, i.witness))) (λ i. refl) (λ p. refl)

tx_out : Codec (BdkTxOut plain)
tx_out =
    via (pair number number) (λ ((v, s) : ℕ × ℕ). record { value = v; script_pubkey = s })
      (λ o. (o.value, o.script_pubkey)) (λ o. refl) (λ p. refl)

pub transaction : Codec (BdkTransaction plain)
transaction =
    via (pair (pair number lock) (pair (list tx_in) (list tx_out)))
      (λ (((v, t), (is, os)) : (ℕ × BdkLockTime plain)
          × (List (BdkTxIn plain) × List (BdkTxOut plain))).
        record { version = v; lock_time = t; input = is; output = os })
      (λ tx. ((tx.version, tx.lock_time), (tx.input, tx.output))) (λ tx. refl) (λ p. refl)

abbrev read_transaction :
    Read (BdkTransaction plain) → Result (BdkTransaction plain × List ℕ) (BdkEncodeError String)
read_transaction none = err (BdkEncodeError.io "end of file")
read_transaction (some read) = ok read

-- Two kinds of networks: the main one is `true`.
abbrev on_network : String → Bool → Bool
on_network address network = if starts_with address "bc1" then network else not network

abbrev checked : Bool → String → Result String (BdkParseError String)
checked true address = ok address
checked false address = err (BdkParseError.network_validation "wrong network")

-- An identifier for the transactions of version 1, and one for the others.
abbrev named : ℕ → String
named (suc zero) = "first"
named _ = "second"

abbrev pub coins : BitcoinLibrary plain
coins = record {
  to_sat = λ n. n;
  lock_time_to_consensus_u32 = λ _. 0;
  Network = Bool;
  Address = String;
  Unchecked = String;
  parse_address = λ text. ok text;
  require_network = λ address network. checked (on_network address network) address;
  is_valid_for_network = on_network;
  address_to_string = λ address. address;
  address_from_script = λ script network. ok "bc1";
  address_script_pubkey = λ address. 0;
  to_qr_uri = λ address. address;
  consensus_decode = λ bytes. read_transaction (transaction.decode bytes);
  serialize = λ tx. transaction.encode tx;
  compute_txid = λ tx. named tx.version;
  weight = λ tx. 0;
  total_size = λ tx. 0;
  vsize = λ tx. 0;
  is_coinbase = λ tx. false;
  is_explicitly_rbf = λ tx. false;
  is_lock_time_enabled = λ tx. false;
}

read-ok :
    (r : Read (BdkTransaction plain)) (tx : BdkTransaction plain) (rest : List ℕ)
    → read_transaction r ≡ ok (tx, rest)
    → r ≡ some (tx, rest)
read-ok none tx rest e = ground arith
read-ok (some (found, left)) tx rest e =
    let same : (found, left) ≡ (tx, rest) = ground arith in ap some same

coins-IsEncoding : IsEncoding plain coins
coins-IsEncoding = record {
  decode-serialize = λ tx rest. rw (transaction.decode-encode tx rest) refl;
  serialize-decode = λ bytes rest tx e.
      transaction.encode-decode bytes rest tx (read-ok (transaction.decode bytes) tx rest e);
}

abbrev pub payment : BdkTransaction plain
payment = record {
  version = 1;
  lock_time = BdkLockTime.blocks 800000;
  input = [];
  output = record { value = 5000; script_pubkey = 7 } ∷ [];
}

new-eq-ok_example :
    (Transaction.new plain coins (Transaction.serialize plain coins payment ++ (9 ∷ []))
      ≡ ok payment)
    ↔ ((rest : List ℕ) × (Transaction.serialize plain coins payment ++ (9 ∷ [])
          ≡ Transaction.serialize plain coins payment ++ rest))
new-eq-ok_example =
    new-eq-ok plain coins coins-IsEncoding (Transaction.serialize plain coins payment ++ (9 ∷ []))
      payment
