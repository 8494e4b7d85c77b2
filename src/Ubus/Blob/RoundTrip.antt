-- ===== src/Ubus/Blob/RoundTrip.antt =====
-- `parse_attrs` reads back what `put_attr` writes.
use zwrt_datad.Prelude.{
  ℕ, zero, suc, ◌+◌, ◌-◌, ◌*◌, ◌/◌, ◌%◌, ◌≤◌, ◌<◌, ◌^◌, min, ◌≡◌, refl, ap₂, subst, ◌∙◌, inl, inr,
  Bool, true, false, ◌||◌, [], ◌∷◌, ◌++◌, arith, ltb, length, take, drop, replicate, length-append,
  take-append, drop-append, length-drop, length-replicate, if◌then◌else◌, Bool-cases,
}
use zwrt_datad.Prelude.Words.{be32, from_be32, from_be32-be32}
use zwrt_datad.Prelude.Bits.{bit_or_high_low, bit_or_low_high}
use zwrt_datad.Prelude.Text.{Bytes}
use Prim.Native.Nat.{bit_or}
use mathlib.Core.List.{append_assoc}
use zwrt_datad.Ubus.Result.{ok, ◌>>=◌}
use zwrt_datad.Ubus.Blob.{align, length_of, attr_of, parse_loop, parse_attrs, header_word, put_attr}

header_word_lem :
    (id len : ℕ) (extended : Bool)
    → id < 128
    → len < 2 ^ 24
    → header_word id extended len ≡ (if extended then 2 ^ 31 else 0) + id * 2 ^ 24 + len
unfolding header_word
header_word_lem id len false h k =
    let e : bit_or (id * 2 ^ 24) len ≡ id * 2 ^ 24 + len = bit_or_high_low 24 id len k in
    ground (arith, e)
header_word_lem id len true h k =
    let e : bit_or (id * 2 ^ 24) len ≡ id * 2 ^ 24 + len = bit_or_high_low 24 id len k in
    ground (arith, e, bit_or_low_high 31 1 (id * 2 ^ 24 + len) (omega arith))

pub length-put_attr :
    (id : ℕ) (extended : Bool) (payload : Bytes)
    → length (put_attr id extended payload) ≡ align (4 + length payload)
unfolding put_attr
length-put_attr id extended payload = omega (
  arith,
  length-append payload (replicate (align (4 + length payload) - (4 + length payload)) 0),
  length-replicate {A = ℕ} (align (4 + length payload) - (4 + length payload)) 0,
)

-- More fuel than bytes changes nothing.
parse_loop_fuel :
    (f g : ℕ) (rest : Bytes)
    → length rest ≤ f
    → length rest ≤ g
    → parse_loop f rest ≡ parse_loop g rest
unfolding parse_loop
parse_loop_fuel zero zero rest hf hg = refl
parse_loop_fuel zero (suc g) [] hf hg = refl
parse_loop_fuel (suc f) zero [] hf hg = refl
parse_loop_fuel (suc f) (suc g) [] hf hg = refl
parse_loop_fuel zero (suc g) (a ∷ rest) hf hg = absurd (omega arith)
parse_loop_fuel (suc f) zero (a ∷ rest) hf hg = absurd (omega arith)
parse_loop_fuel (suc f) (suc g) (a ∷ b ∷ c ∷ d ∷ more) hf hg =
    let rest : Bytes = a ∷ b ∷ c ∷ d ∷ more in
    let len : ℕ = length_of (from_be32 a b c d) in
    let next : Bytes = drop (min (align len) (length rest)) rest in
    elim (Bool-cases (ltb len 4 || ltb (length rest) len)) [
      | inl e ↦ rw e
      | inr e ↦
          let shorter : length next < length rest =
            ground (arith, length-drop (min (align len) (length rest)) rest) in
          rw (parse_loop_fuel f g next (omega arith) (omega arith))
    ]
parse_loop_fuel (suc f) (suc g) (a ∷ rest) hf hg = refl

parse_loop_step :
    (f a b c d w n : ℕ) (more : Bytes)
    → from_be32 a b c d ≡ w
    → 4 ≤ length_of w
    → length_of w ≤ 4 + length more
    → min (align (length_of w)) (suc (suc (suc (suc (length more))))) ≡ suc (suc (suc (suc n)))
    → parse_loop (suc f) (a ∷ b ∷ c ∷ d ∷ more)
      ≡ (parse_loop f (drop n more) >>= λ out. ok (attr_of w (take (length_of w - 4) more) ∷ out))
unfolding parse_loop
parse_loop_step f a b c d w n more e lo hi m =
    rw e
      (elim (Bool-cases
        (ltb (length_of w) 4 || ltb (suc (suc (suc (suc (length more))))) (length_of w))) [
          | inl bad ↦ absurd (ground arith)
          | inr good ↦ rw (good, m)
        ])

module _ (id len : ℕ) (extended : Bool) (w : ℕ) where
  word_range :
      id < 128
      → len < 2 ^ 24
      → w ≡ (if extended then 2 ^ 31 else 0) + id * 2 ^ 24 + len
      → w < 2 ^ 32
  word_range h k e = ground arith

  word_length :
      id < 128
      → len < 2 ^ 24
      → w ≡ (if extended then 2 ^ 31 else 0) + id * 2 ^ 24 + len
      → length_of w ≡ len
  word_length h k e = ground arith

  word_attr :
      (payload : Bytes)
      → id < 128
      → len < 2 ^ 24
      → w ≡ (if extended then 2 ^ 31 else 0) + id * 2 ^ 24 + len
      → attr_of w payload ≡ record { id = id; extended = extended; content = payload }
  unfolding attr_of
  word_attr payload h k e = ground arith

parse_attrs_word :
    (w : ℕ) (payload pad rest : Bytes)
    → w < 2 ^ 32
    → length_of w ≡ 4 + length payload
    → length (payload ++ pad) ≡ align (4 + length payload) - 4
    → parse_attrs (be32 w ++ ((payload ++ pad) ++ rest))
      ≡ (parse_attrs rest >>= λ out. ok (attr_of w payload ∷ out))
unfolding parse_attrs
parse_attrs_word w payload pad rest hw hl hp =
    let body : Bytes = (payload ++ pad) ++ rest in
    let split : length body ≡ length (payload ++ pad) + length rest =
      length-append (payload ++ pad) rest in
    let taken : take (length_of w - 4) body ≡ payload = rw append_assoc (
      subst (λ n. take n (payload ++ (pad ++ rest)) ≡ payload) (omega (arith, hl))
        (take-append payload (pad ++ rest))) in
    let tail : parse_loop (suc (suc (suc (length body)))) (drop (length (payload ++ pad)) body)
        ≡ parse_loop (length rest) rest =
      rw (drop-append (payload ++ pad) rest) (
        parse_loop_fuel (suc (suc (suc (length body)))) (length rest) rest (omega arith)
          (omega arith)) in
    parse_loop_step (suc (suc (suc (length body)))) (w / 16777216 % 256) (w / 65536 % 256)
      (w / 256 % 256) (w % 256) w (length (payload ++ pad)) body (from_be32-be32 w hw) (omega arith)
      (omega (arith, length-append payload pad)) (omega (arith, length-append payload pad))
    ∙ ap₂ (λ r p. r >>= λ out. ok (attr_of w p ∷ out)) tail taken

-- Behind anything that `put_attr` writes, `parse_attrs` reads the attribute that was put and then
-- what follows, where the id has seven bits and the length fits 24.
pub parse_attrs-put_attr :
    (id : ℕ) (extended : Bool) (payload rest : Bytes)
    → id < 128
    → 4 + length payload < 2 ^ 24
    → parse_attrs (put_attr id extended payload ++ rest) ≡ (
        parse_attrs rest >>= λ out.
        ok (record { id = id; extended = extended; content = payload } ∷ out))
unfolding put_attr
parse_attrs-put_attr id extended payload rest h k =
    let len : ℕ = 4 + length payload in
    let pad : Bytes = replicate (align len - len) 0 in
    let w : ℕ = header_word id extended len in
    let word : w ≡ (if extended then 2 ^ 31 else 0) + id * 2 ^ 24 + len =
      header_word_lem id len extended h k in
    parse_attrs_word w payload pad rest (word_range id len extended w h k word)
      (word_length id len extended w h k word)
      (omega (arith, length-append payload pad, length-replicate {A = ℕ} (align len - len) 0))
    ∙ rw (word_attr id len extended w payload h k word)
