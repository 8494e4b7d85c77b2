-- ===== src/Prelude/Utf8.antt =====
-- Characters of texts in UTF-8.
use zwrt_datad.Prelude.Tests.{ltb, leb, ◌==◌, if◌then◌else◌}
use zwrt_datad.Prelude.Text.{Bytes}
use Prim.Native.Nat.{ℕ, zero, suc, ◌+◌, ◌-◌, ◌*◌, ◌/◌, ◌%◌}
use mathlib.Core.Bool.{Bool, ◌&&◌, ◌||◌}
use mathlib.Core.List.{List, [], ◌∷◌, reverse}

-- The character that is being read, and how many bytes of it are to come.
chars_from : ℕ → ℕ → Bytes → List ℕ
chars_from v k [] = []
chars_from v (suc zero) (b ∷ text) = (v * 64 + (b - 128)) ∷ chars_from 0 0 text
chars_from v (suc (suc k)) (b ∷ text) = chars_from (v * 64 + (b - 128)) (suc k) text
chars_from v zero (b ∷ text) =
    let one = chars_from 0 0 text in
    let two = chars_from (b - 192) 1 text in
    let three = chars_from (b - 224) 2 text in
    let four = chars_from (b - 240) 3 text in
    if ltb b 128 then b ∷ one else if ltb b 224 then two else if ltb b 240 then three else four

-- `str::chars`
unfoldable pub chars : Bytes → List ℕ
unfolding chars_from
chars text = chars_from 0 0 text

-- `char::is_control` and `char::is_whitespace`
unfoldable pub is_control : ℕ → Bool
is_control c = ltb c 32 || (leb 127 c && ltb c 160)

unfoldable pub is_whitespace : ℕ → Bool
is_whitespace c =
    (leb 9 c && leb c 13)
    || c == 32
    || c == 0x85
    || c == 0xa0
    || c == 0x1680
    || (leb 0x2000 c && leb c 0x200a)
    || c == 0x2028
    || c == 0x2029
    || c == 0x202f
    || c == 0x205f
    || c == 0x3000

trim_start : List ℕ → List ℕ
unfolding is_whitespace
trim_start [] = []
trim_start (c ∷ text) = let rest = trim_start text in if is_whitespace c then rest else c ∷ text

-- `str::trim`, on the characters
unfoldable pub trim : List ℕ → List ℕ
unfolding trim_start
trim text = reverse (trim_start (reverse (trim_start text)))

-- `encode_utf16`
unfoldable pub utf16 : List ℕ → List ℕ
utf16 [] = []
utf16 (c ∷ text) =
    let rest = utf16 text in
    if ltb c 0x10000
    then c ∷ rest
    else (0xd800 + (c - 0x10000) / 1024) ∷ (0xdc00 + (c - 0x10000) % 1024) ∷ rest
