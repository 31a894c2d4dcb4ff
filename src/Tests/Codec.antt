-- ===== src/Tests/Codec.antt =====
-- Encodings by lists of numbers that can be read from the front, for the stand-in of the Bitcoin library.
use mathlib.Core.List.{append_assoc}
use bdk_ffi.Prelude.{
  ℕ, zero, suc, List, [], ◌∷◌, ◌++◌, length, Option, none, some, Option-cases, inl, inr, ◌≡◌, refl,
  sym, ap, arith,
}

-- What is read, and what is left.
abbrev pub Read : Type 0 → Type 0
Read A = Option (A × List ℕ)

abbrev pub and_read : {A B : Type 0} → Read A → (A → List ℕ → Read B) → Read B
and_read none f = none
and_read (some (a, rest)) f = f a rest

pub record Codec (A : Type 0) : Type 0 where
  pub encode : A → List ℕ
  pub decode : List ℕ → Read A
  pub decode-encode : (a : A) (rest : List ℕ) → decode (encode a ++ rest) ≡ some (a, rest)
  pub encode-decode :
      (bytes rest : List ℕ) (a : A) → decode bytes ≡ some (a, rest) → bytes ≡ encode a ++ rest

abbrev first : List ℕ → Read ℕ
first [] = none
first (n ∷ rest) = some (n, rest)

first-encode : (bytes rest : List ℕ) (n : ℕ) → first bytes ≡ some (n, rest) → bytes ≡ n ∷ rest
first-encode [] rest n e = ground arith
first-encode (m ∷ bytes) rest n e =
    let same_head : m ≡ n = ground arith in
    let same_tail : bytes ≡ rest = ground arith in λ i. same_head i ∷ same_tail i

-- One number.
pub number : Codec ℕ
number = record {
  encode = λ n. n ∷ [];
  decode = first;
  decode-encode = λ n rest. refl;
  encode-decode = first-encode;
}

module _ {A B : Type 0} (CA : Codec A) (CB : Codec B) where
  abbrev encode_pair : A × B → List ℕ
  encode_pair (a, b) = CA.encode a ++ CB.encode b

  abbrev decode_pair : List ℕ → Read (A × B)
  decode_pair bytes =
      and_read (CA.decode bytes) λ a rest. and_read (CB.decode rest) λ b rest'. some ((a, b), rest')

  pair_decode-encode :
      (p : A × B) (rest : List ℕ) → decode_pair (encode_pair p ++ rest) ≡ some (p, rest)
  pair_decode-encode (a, b) rest =
      rw
        (
          append_assoc (CA.encode a) (CB.encode b) rest,
          CA.decode-encode a (CB.encode b ++ rest),
          CB.decode-encode b rest,
        )
        refl

  pair_encode-decode :
      (bytes rest : List ℕ) (p : A × B)
      → decode_pair bytes ≡ some (p, rest)
      → bytes ≡ encode_pair p ++ rest
  pair_encode-decode bytes rest (a, b) e = elim (Option-cases (CA.decode bytes)) [
    | inl nothing ↦ ground arith
    | inr ((a', middle), read_a) ↦ elim (Option-cases (CB.decode middle)) [
      | inl nothing ↦ ground arith
      | inr ((b', rest'), read_b) ↦
          let same_a : a' ≡ a = ground arith in
          let same_b : b' ≡ b = ground arith in
          let same_rest : rest' ≡ rest = ground arith in
          rw
            (
              CA.encode-decode bytes middle a' read_a,
              CB.encode-decode middle rest' b' read_b,
              same_a,
              same_b,
              same_rest,
            )
            (sym (append_assoc (CA.encode a) (CB.encode b) rest))
    ]
  ]

  -- One after the other.
  pub pair : Codec (A × B)
  pair = record {
    encode = encode_pair;
    decode = decode_pair;
    decode-encode = pair_decode-encode;
    encode-decode = pair_encode-decode;
  }

module _ {A : Type 0} (CA : Codec A) where
  abbrev encode_all : List A → List ℕ
  encode_all [] = []
  encode_all (a ∷ items) = CA.encode a ++ encode_all items

  abbrev decode_all : ℕ → List ℕ → Read (List A)
  decode_all zero bytes = some ([], bytes)
  decode_all (suc n) bytes =
      and_read (CA.decode bytes)
        λ a rest. and_read (decode_all n rest) λ items rest'. some (a ∷ items, rest')

  all_decode-encode :
      (items : List A) (rest : List ℕ)
      → decode_all (length items) (encode_all items ++ rest) ≡ some (items, rest)
  all_decode-encode [] rest = refl
  all_decode-encode (a ∷ items) rest =
      rw
        (
          append_assoc (CA.encode a) (encode_all items) rest,
          CA.decode-encode a (encode_all items ++ rest),
          all_decode-encode items rest,
        )
        refl

  all_encode-decode :
      (n : ℕ) (bytes rest : List ℕ) (items : List A)
      → decode_all n bytes ≡ some (items, rest)
      → (n ≡ length items) × (bytes ≡ encode_all items ++ rest)
  all_encode-decode zero bytes rest items e =
      let empty : [] ≡ items = ground arith in
      let same : bytes ≡ rest = ground arith in rw (← empty) (refl, same)
  all_encode-decode (suc n) bytes rest items e = elim (Option-cases (CA.decode bytes)) [
    | inl nothing ↦ ground arith
    | inr ((a, middle), read_a) ↦ elim (Option-cases (decode_all n middle)) [
      | inl nothing ↦ ground arith
      | inr ((items', rest'), read_all) ↦
          let same : a ∷ items' ≡ items = ground arith in
          let same_rest : rest' ≡ rest = ground arith in
          let (same_length, same_bytes) = all_encode-decode n middle rest' items' read_all in
          rw (← same) (
            ap suc same_length,
            rw (CA.encode-decode bytes middle a read_a, same_bytes, same_rest)
                (sym (append_assoc (CA.encode a) (encode_all items') rest)),
          )
    ]
  ]

  abbrev decode_list : List ℕ → Read (List A)
  decode_list [] = none
  decode_list (n ∷ bytes) = decode_all n bytes

  list_encode-decode :
      (bytes rest : List ℕ) (items : List A)
      → decode_list bytes ≡ some (items, rest)
      → bytes ≡ length items ∷ (encode_all items ++ rest)
  list_encode-decode [] rest items e = ground arith
  list_encode-decode (n ∷ bytes) rest items e =
      let (same_length, same_bytes) = all_encode-decode n bytes rest items e in
      λ i. same_length i ∷ same_bytes i

  -- How many there are, and each of them.
  pub list : Codec (List A)
  list = record {
    encode = λ items. length items ∷ encode_all items;
    decode = decode_list;
    decode-encode = all_decode-encode;
    encode-decode = list_encode-decode;
  }

module _ {A B : Type 0} (CA : Codec A) (to : A → B) (from : B → A)
    (to-from : (b : B) → to (from b) ≡ b) (from-to : (a : A) → from (to a) ≡ a) where
  abbrev decode_via : List ℕ → Read B
  decode_via bytes = and_read (CA.decode bytes) λ a rest. some (to a, rest)

  via_decode-encode :
      (b : B) (rest : List ℕ) → decode_via (CA.encode (from b) ++ rest) ≡ some (b, rest)
  via_decode-encode b rest = rw (CA.decode-encode (from b) rest, to-from b) refl

  via_encode-decode :
      (bytes rest : List ℕ) (b : B)
      → decode_via bytes ≡ some (b, rest)
      → bytes ≡ CA.encode (from b) ++ rest
  via_encode-decode bytes rest b e = elim (Option-cases (CA.decode bytes)) [
    | inl nothing ↦ ground arith
    | inr ((a, rest'), read) ↦
        let same : to a ≡ b = ground arith in
        let same_rest : rest' ≡ rest = ground arith in
        rw (← same, from-to a, ← same_rest) (CA.encode-decode bytes rest' a read)
  ]

  -- A value of another type that stands for each.
  pub via : Codec B
  via = record {
    encode = λ b. CA.encode (from b);
    decode = decode_via;
    decode-encode = via_decode-encode;
    encode-decode = via_encode-decode;
  }
