-- ===== src/Sessions/Compare.antt =====
-- The comparison of tokens, whose time does not depend on where they differ.
use Prim.Native.Nat.{bit_or, bit_xor}
use zwrt_datad.Prelude.{ℕ, ◌≡◌, refl, true, [], ◌∷◌, length, arith, ap₂, subst, ◌↔◌}
use zwrt_datad.Prelude.Text.{Bytes}
use zwrt_datad.Prelude.Xor.{bit_xor-zero, bit_xor-same, bit_or-zero}
use zwrt_datad.Sessions.{differing, secure_eq}

differing-zero :
    (diff : ℕ) (a b : Bytes) → length a ≡ length b → differing diff a b ≡ 0 → (diff ≡ 0) × (a ≡ b)
unfolding differing
differing-zero diff [] [] l h = (h, refl)
differing-zero diff [] (y ∷ b) l h = absurd (omega arith)
differing-zero diff (x ∷ a) [] l h = absurd (omega arith)
differing-zero diff (x ∷ a) (y ∷ b) l h =
    let (d, e) = differing-zero (bit_or diff (bit_xor x y)) a b (omega arith) h in
    let (z, w) = bit_or-zero diff (bit_xor x y) d in (z, ap₂ (λ c t. c ∷ t) (bit_xor-zero x y w) e)

differing-same : (a : Bytes) → differing 0 a a ≡ 0
unfolding differing
differing-same [] = refl
differing-same (x ∷ a) = rw (bit_xor-same x) (differing-same a)

both_tests : (a b : Bytes) → secure_eq a b ≡ true → (length a ≡ length b) × (differing 0 a b ≡ 0)
unfolding secure_eq
both_tests a b h = ground arith

pub secure_eq-same : (a : Bytes) → secure_eq a a ≡ true
unfolding secure_eq
secure_eq-same a = ground (arith, differing-same a)

-- `secure_eq` is equality of the bytes.
pub secure_eq_iff : (a b : Bytes) → (secure_eq a b ≡ true) ↔ (a ≡ b)
secure_eq_iff a b = (
  λ h. let (l, z) = both_tests a b h in (differing-zero 0 a b l z).1,
  λ h. subst (λ t. secure_eq a t ≡ true) h (secure_eq-same a),
)
