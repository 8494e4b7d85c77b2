-- ===== src/Ubus/Json/Opening.antt =====
-- One field: the name and the data that `put_field` put together come apart again, and a number's
-- data gives the number back.
use zwrt_datad.Prelude.{
  ℕ, suc, ◌+◌, ◌-◌, ◌*◌, ◌/◌, ◌%◌, ◌≤◌, ◌<◌, ◌^◌, ◌≡◌, ap, ◌∙◌, inl, inr, ◌≢◌, true, Option, [],
  ◌∷◌, ◌++◌, arith, ltb, length, take, drop, replicate, length-append, take-append, drop-append,
  length-replicate, Bool-cases,
}
use zwrt_datad.Prelude.Words.{from_be16, from_be32, from_be32-be32, from_be16-be16}
use zwrt_datad.Prelude.Text.{Bytes}
use mathlib.Core.List.{append_assoc}
use zwrt_datad.Ubus.Result.{Result, ok, ◌>>=◌}
use zwrt_datad.Ubus.Blob.{Attr, align}
use zwrt_datad.Ubus.Json.{
  Number, pos_int, neg_int, float, Value, number, field_payload, number_kind, number_content,
  signed, decode_value, named_value, open_field,
}

pub payload_length :
    (name content : Bytes)
    → length (field_payload name content) ≡ align (2 + length name + 1) + length content
unfolding field_payload
payload_length name content = omega (
  arith,
  length-append (name ++ replicate (align (2 + length name + 1) - (2 + length name)) 0) content,
  length-append name (replicate (align (2 + length name + 1) - (2 + length name)) 0),
  length-replicate {A = ℕ} (align (2 + length name + 1) - (2 + length name)) 0,
)

-- The numbers that the reader gives back: no `u64` above `i64::MAX`, and finite floats.
abbrev pub IsExact : Number → Type 0
IsExact (pos_int n) = n < 2 ^ 63
IsExact (neg_int n) = n < 2 ^ 63
IsExact (float bits) = (bits < 2 ^ 64) × (bits / 2 ^ 52 % 2048 ≢ 2047)

signed_positive : (half n : ℕ) → n < half → signed half n ≡ number (pos_int n)
unfolding signed
signed_positive half n h = ground arith

signed_negative : (half n : ℕ) → n < half → signed half (2 * half - 1 - n) ≡ number (neg_int n)
unfolding signed
signed_negative half n h = ground arith

module _ (lossy : Bytes → Bytes) (nested : Option (Attr → Result (Bytes × Value))) where
  be64-decoded :
      (n : ℕ)
      → n < 2 ^ 64
      → from_be32
              (n / 2 ^ 32 / 16777216 % 256)
              (n / 2 ^ 32 / 65536 % 256)
              (n / 2 ^ 32 / 256 % 256)
              (n / 2 ^ 32 % 256)
            * 2 ^ 32
          + from_be32
              (n % 2 ^ 32 / 16777216 % 256)
              (n % 2 ^ 32 / 65536 % 256)
              (n % 2 ^ 32 / 256 % 256)
              (n % 2 ^ 32 % 256)
        ≡ n
  unfolding from_be32
  be64-decoded n h = omega arith

  pub number_decoded :
      (n : Number)
      → IsExact n
      → decode_value lossy nested (number_kind n) (number_content n) ≡ ok (number n)
  unfolding decode_value number_kind number_content signed
  number_decoded (pos_int n) h = elim (Bool-cases (ltb n (2 ^ 31))) [
    | inl e ↦
        rw e
          (rw (from_be32-be32 n (ground arith)) (ap ok (signed_positive (2 ^ 31) n (ground arith))))
    | inr e ↦
        let wide : ltb n (2 ^ 63) ≡ true = ground arith in
        rw (e, wide) (rw (be64-decoded n (omega arith)) (ap ok (signed_positive (2 ^ 63) n h)))
  ]
  number_decoded (neg_int n) h = elim (Bool-cases (ltb n (2 ^ 31))) [
    | inl e ↦ rw e (
        rw (from_be32-be32 (2 ^ 32 - 1 - n) (omega arith))
          (ap ok (signed_negative (2 ^ 31) n (ground arith))))
    | inr e ↦
        rw e
          (rw (be64-decoded (2 ^ 64 - 1 - n) (omega arith)) (ap ok (signed_negative (2 ^ 63) n h)))
  ]
  number_decoded (float bits) h = ground (arith, be64-decoded bits)

  named_value_step :
      (id a b name_len header : ℕ) (rest : Bytes)
      → 0 < length rest
      → from_be16 a b ≡ name_len
      → align (2 + name_len + 1) ≡ suc (suc header)
      → header ≤ length rest
      → named_value lossy nested id (a ∷ b ∷ rest) ≡ (
          decode_value lossy nested id (drop header rest) >>= λ value.
          ok (lossy (take name_len rest), value))
  unfolding named_value
  named_value_step id a b name_len header [] h e k l = absurd (omega arith)
  named_value_step id a b name_len header (c ∷ more) h e k l =
      rw (e, k)
        (elim (Bool-cases (ltb (suc (suc (suc (length more)))) (suc (suc header)))) [
          | inl bad ↦ absurd (ground arith)
          | inr good ↦ rw good
        ])

  -- A field's name and data come apart again behind its header.
  pub open_field-payload :
      (kind : ℕ) (name content : Bytes)
      → length name < 2 ^ 16
      → lossy name ≡ name
      → open_field lossy nested
          (record { id = kind; extended = true; content = field_payload name content })
        ≡ (decode_value lossy nested kind content >>= λ value. ok (name, value))
  unfolding open_field field_payload
  open_field-payload kind name content h l =
      let pad : Bytes = replicate (align (2 + length name + 1) - (2 + length name)) 0 in
      let header : length (name ++ pad) ≡ align (2 + length name + 1) - 2 = omega (
        arith,
        length-append name pad,
        length-replicate {A = ℕ} (align (2 + length name + 1) - (2 + length name)) 0,
      ) in
      let word : length name % 2 ^ 16 ≡ length name = omega arith in
      rw word (
        named_value_step kind (length name / 256 % 256) (length name % 256) (length name)
          (length (name ++ pad)) ((name ++ pad) ++ content)
          (omega (arith, length-append (name ++ pad) content)) (from_be16-be16 (length name) h)
          (omega arith) (omega (arith, length-append (name ++ pad) content))
        ∙ rw (drop-append (name ++ pad) content)
            (rw append_assoc (rw (take-append name (pad ++ content), l))))
