-- ===== src/Prelude/Text.antt =====
-- A `&str` or `&[u8]` is the list of its bytes.
use Prim.Native.Char.{code}
use Prim.Native.Nat.{ℕ, ◌+◌, ◌-◌}
use Prim.Native.String.{String}
use mathlib.Core.Path.{◌≡◌, refl}
use mathlib.Core.Logic.{◌↔◌}
use mathlib.Core.Bool.{Bool, true, false, ◌&&◌}
use mathlib.Core.List.{List, [], ◌∷◌, map, reverse}
use native.Mathlib.Omega.{arith}
use zwrt_datad.Prelude.Tests.{◌==◌, ltb, leb, if◌then◌else◌}

abbrev pub Bytes : Type 0
Bytes = List ℕ

-- The bytes of an ASCII literal.
abbrev pub codes : String → Bytes
codes String.[] = []
codes (String.◌∷◌ c s) = code c ∷ codes s

-- `==` on strings
unfoldable pub text_eq : Bytes → Bytes → Bool
text_eq [] [] = true
text_eq [] (b ∷ bs) = false
text_eq (a ∷ s) [] = false
text_eq (a ∷ s) (b ∷ t) = if a == b then text_eq s t else false

pub text_eq_iff : (s t : Bytes) → (text_eq s t ≡ true) ↔ (s ≡ t)
unfolding text_eq
text_eq_iff [] [] = (λ _. refl, λ _. refl)
text_eq_iff [] (b ∷ bs) = (λ h. cc, λ h. cc)
text_eq_iff (a ∷ s) [] = (λ h. cc, λ h. cc)
text_eq_iff (a ∷ s) (b ∷ t) =
    (λ h. ground (arith, text_eq_iff s t), λ h. ground (arith, text_eq_iff s t))

-- `matches!(text, "a" | "b" | …)`
unfoldable pub one_of : Bytes → List Bytes → Bool
one_of t [] = false
one_of t (name ∷ names) = if text_eq t name then true else one_of t names

-- `str::starts_with`, the prefix first
unfoldable pub starts_with : Bytes → Bytes → Bool
starts_with [] t = true
starts_with (p ∷ ps) [] = false
starts_with (p ∷ ps) (b ∷ t) = if p == b then starts_with ps t else false

-- `str::ends_with`, the suffix first
unfoldable pub ends_with : Bytes → Bytes → Bool
ends_with s [] = text_eq s []
ends_with s (b ∷ t) = if text_eq s (b ∷ t) then true else ends_with s t

-- `str::contains` of an ASCII character
unfoldable pub contains : ℕ → Bytes → Bool
contains c [] = false
contains c (b ∷ t) = if b == c then true else contains c t

-- `to_ascii_lowercase`, `to_ascii_uppercase`
unfoldable pub lowercase : Bytes → Bytes
lowercase = map (λ b. if leb b'A' b && leb b b'Z' then b + 32 else b)

unfoldable pub uppercase : Bytes → Bytes
uppercase = map (λ b. if leb b'a' b && leb b b'z' then b - 32 else b)

-- `trim_start_matches` and `trim_end_matches` of an ASCII character
unfoldable pub drop_leading : ℕ → Bytes → Bytes
drop_leading c [] = []
drop_leading c (b ∷ t) = let rest = drop_leading c t in if b == c then rest else b ∷ t

unfoldable pub drop_trailing : ℕ → Bytes → Bytes
drop_trailing c t = reverse (drop_leading c (reverse t))

unfoldable pub is_digit : ℕ → Bool
is_digit b = leb b'0' b && leb b b'9'

-- `<` on strings
unfoldable pub text_lt : Bytes → Bytes → Bool
text_lt s [] = false
text_lt [] (b ∷ t) = true
text_lt (a ∷ s) (b ∷ t) =
    let rest = text_lt s t in if ltb a b then true else if a == b then rest else false
