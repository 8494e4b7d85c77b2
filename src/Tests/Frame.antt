-- ===== src/Tests/Frame.antt =====
-- Frames at concrete inputs, with a stand-in for the JSON texts.
use zwrt_datad.Prelude.{ℕ, ◌≡◌, refl, true, Option, none, some, inr, [], ◌∷◌}
use zwrt_datad.Prelude.Text.{Bytes, codes, text_eq}
use zwrt_datad.Json.{Value, object, entry, end, number, pos_int, string, as_object, as_str, get}
use zwrt_datad.Frame.Pong.{value_get, pong_value, pong, pong_value-pong_value}
use zwrt_datad.Prelude.Words.{from_be32}
use zwrt_datad.Frame.{Json, decode, decode_rest, checked_header, encode, framed}
use zwrt_datad.Frame.RoundTrip.{decode-encode, IsFrame, decode-IsFrame}

one_byte : Bytes → Option ℕ
one_byte (b ∷ []) = some b
one_byte _ = none

-- A value is a byte, and its text is that byte.
abbrev bytes : Json
bytes = record {
  Value = ℕ;
  to_vec = λ b. some (b ∷ []);
  from_slice = one_byte;
  is_object = λ b. true;
}

decode-encode_example : decode bytes (0 ∷ 0 ∷ 0 ∷ 1 ∷ 123 ∷ 7 ∷ 8 ∷ []) ≡ inr (123, 7 ∷ 8 ∷ [])
unfolding one_byte encode framed
decode-encode_example =
    decode-encode bytes 123 (7 ∷ 8 ∷ []) (0 ∷ 0 ∷ 0 ∷ 1 ∷ 123 ∷ 7 ∷ 8 ∷ []) (λ text e. cc e) refl
      refl refl

decode-IsFrame_example : IsFrame bytes (0 ∷ 0 ∷ 0 ∷ 1 ∷ 123 ∷ 7 ∷ []) 123 (7 ∷ [])
unfolding one_byte decode decode_rest checked_header from_be32
decode-IsFrame_example = decode-IsFrame bytes (0 ∷ 0 ∷ 0 ∷ 1 ∷ 123 ∷ 7 ∷ []) (7 ∷ []) 123 refl

abbrev ping : Value
ping =
    object (entry (codes "n") (number (pos_int 7)) (entry (codes "t") (string (codes "ping")) end))

abbrev ponged : Value
ponged =
    object (entry (codes "n") (number (pos_int 7)) (entry (codes "t") (string (codes "pong")) end))

pong_value-pong_value_example :
    (value_get (codes "n") ponged ≡ value_get (codes "n") ping) × (pong_value ponged ≡ none)
unfolding pong_value text_eq get as_object as_str
pong_value-pong_value_example = pong_value-pong_value ping ponged refl

replied : pong (λ text. some ping) (λ value. codes "pong") (codes "ping") ≡ some (codes "pong")
unfolding pong pong_value text_eq get as_object as_str
replied = refl
