-- ===== src/Ubus/Blob/Total.antt =====
-- `parse_attrs` on any input, well formed or not.
use zwrt_datad.Prelude.{
  ℕ, zero, suc, ◌+◌, ◌-◌, ◌≤◌, min, ◌≡◌, refl, ◌⊎◌, inl, inr, ◌≢◌, ◌||◌, List, [], ◌∷◌, arith, ltb,
  length, take, drop, length-drop, length-take, Bool-cases,
}
use zwrt_datad.Prelude.Words.{from_be32}
use zwrt_datad.Prelude.Text.{Bytes}
use zwrt_datad.Ubus.Result.{Result, Error, ok, err, stuck, ◌>>=◌, ok_of_bind}
use zwrt_datad.Ubus.Blob.{Attr, align, length_of, attr_of, parse_loop, parse_attrs}

bind-ne-stuck :
    (r : Result (List Attr)) (f : List Attr → List Attr)
    → r ≢ stuck
    → (r >>= λ attrs. ok (f attrs)) ≢ stuck
bind-ne-stuck (ok attrs) f h = λ e. cc
bind-ne-stuck (err e) f h = λ e. cc
bind-ne-stuck stuck f h = absurd (h refl)

parse_loop-ne-stuck : (fuel : ℕ) (rest : Bytes) → length rest ≤ fuel → parse_loop fuel rest ≢ stuck
unfolding parse_loop
parse_loop-ne-stuck zero [] h = λ e. cc
parse_loop-ne-stuck (suc fuel) [] h = λ e. cc
parse_loop-ne-stuck zero (a ∷ rest) h = absurd (omega arith)
parse_loop-ne-stuck (suc fuel) (a ∷ b ∷ c ∷ d ∷ more) h =
    let rest : Bytes = a ∷ b ∷ c ∷ d ∷ more in
    let len : ℕ = length_of (from_be32 a b c d) in
    elim (Bool-cases (ltb len 4 || ltb (length rest) len)) [
      | inl e ↦ rw e (λ p. cc)
      | inr e ↦ rw e (
          bind-ne-stuck (parse_loop fuel (drop (min (align len) (length rest)) rest)) _ (
            parse_loop-ne-stuck fuel (drop (min (align len) (length rest)) rest)
              (ground (arith, length-drop (min (align len) (length rest)) rest))))
    ]
parse_loop-ne-stuck (suc fuel) (a ∷ rest) h = λ e. cc

-- The attributes of a parse and their headers fit the input, one behind the other.
abbrev pub occupied : List Attr → ℕ
occupied [] = 0
occupied (attr ∷ attrs) = 4 + length attr.content + occupied attrs

fits :
    (len total taken next rest : ℕ)
    → 4 ≤ len
    → len ≤ total
    → taken ≤ len - 4
    → next ≡ total - min (align len) total
    → rest ≤ next
    → 4 + taken + rest ≤ total
fits len total taken next rest h k t n r = omega arith

parse_loop-occupied :
    (fuel : ℕ) (rest : Bytes) (attrs : List Attr)
    → parse_loop fuel rest ≡ ok attrs
    → occupied attrs ≤ length rest
unfolding parse_loop
parse_loop-occupied zero [] attrs h = ground arith
parse_loop-occupied (suc fuel) [] attrs h = ground arith
parse_loop-occupied zero (a ∷ rest) attrs h = cc
parse_loop-occupied (suc fuel) (a ∷ b ∷ c ∷ d ∷ more) attrs h =
    let rest : Bytes = a ∷ b ∷ c ∷ d ∷ more in
    let len : ℕ = length_of (from_be32 a b c d) in
    let next : Bytes = drop (min (align len) (length rest)) rest in
    elim (Bool-cases (ltb len 4 || ltb (length rest) len)) [
      | inl e ↦ absurd (ground arith)
      | inr e ↦
          let (out, p, q) = ok_of_bind (parse_loop fuel next) _ (rw e at h) in
          let same : attr_of (from_be32 a b c d) (take (len - 4) more) ∷ out ≡ attrs = cc q in
          rw (← same) (
            fits len (length rest) (length (take (len - 4) more)) (length next) (occupied out)
              (ground arith) (ground arith) (omega (arith, length-take (len - 4) more))
              (length-drop (min (align len) (length rest)) rest)
              (parse_loop-occupied fuel next out p))
    ]
parse_loop-occupied (suc fuel) (a ∷ rest) attrs h = ground arith

-- On any bytes `parse_attrs` ends: with an error, or with attributes that, headers included, fit
-- within the input.
pub parse_attrs_total :
    (rest : Bytes)
    → ((attrs : List Attr) × (parse_attrs rest ≡ ok attrs) × (occupied attrs ≤ length rest))
      ⊎ ((e : Error) × (parse_attrs rest ≡ err e))
unfolding parse_attrs
parse_attrs_total rest = go (parse_attrs rest) refl
  where
    go :
        (r : Result (List Attr))
        → parse_attrs rest ≡ r
        → ((attrs : List Attr) × (parse_attrs rest ≡ ok attrs) × (occupied attrs ≤ length rest))
          ⊎ ((e : Error) × (parse_attrs rest ≡ err e))
    go (ok attrs) h = inl (attrs, h, parse_loop-occupied (length rest) rest attrs h)
    go (err e) h = inr (e, h)
    go stuck h = absurd (parse_loop-ne-stuck (length rest) rest (omega arith) h)
