-- ===== src/Frame.antt =====
-- mesh/frame.rs: the frames of the data channel. serde_json is a parameter.
pub mod RoundTrip
pub mod Pong
use zwrt_datad.Prelude.{
  ℕ, ◌+◌, ◌*◌, Bool, true, false, not, ◌||◌, Option, none, some, ◌⊎◌, inl, inr, List, [], ◌∷◌, ◌++◌,
  ltb, ◌==◌, length, take, drop, if◌then◌else◌,
}
use zwrt_datad.Prelude.Text.{Bytes}
use zwrt_datad.Prelude.Words.{be32, from_be32}

-- `to_vec`, `from_slice` and `is_object` of serde_json on its values.
pub record Json : Type 1 where
  pub Value : Type 0
  pub to_vec : Value → Option Bytes
  pub from_slice : Bytes → Option Value
  pub is_object : Value → Bool

abbrev pub max_frame : ℕ
max_frame = 262144

abbrev pub max_header : ℕ
max_header = 32768

pub data Error : Type 0 where
  bad_frame bad_header : Error

module _ (json : Json) where
  unfoldable pub checked_header : Option json.Value → Bytes → Error ⊎ (json.Value × Bytes)
  checked_header none payload = inl bad_header
  checked_header (some header) payload =
      if json.is_object header then inr (header, payload) else inl bad_header

  -- The part of `decode` behind the header's length; `rest` is what follows it.
  unfoldable pub decode_rest : ℕ → Bytes → Error ⊎ (json.Value × Bytes)
  unfolding checked_header
  decode_rest header_len rest =
      if header_len == 0 || ltb max_header header_len || ltb (4 + length rest) (4 + header_len)
      then inl bad_frame
      else checked_header (json.from_slice (take header_len rest)) (drop header_len rest)

  unfoldable pub decode : Bytes → Error ⊎ (json.Value × Bytes)
  unfolding decode_rest
  decode (a ∷ b ∷ c ∷ d ∷ rest) =
      if ltb max_frame (4 + length rest)
      then inl bad_frame
      else decode_rest (from_be32 a b c d) rest
  decode _ = inl bad_frame

  unfoldable pub framed : Bytes → Bytes → Option Bytes
  framed header payload =
      if ltb max_header (length header) || ltb max_frame (4 + length header + length payload)
      then none
      else some (be32 (length header) ++ (header ++ payload))

  unfoldable pub encode : json.Value → Bytes → Option Bytes
  unfolding framed
  encode header payload = elim (json.to_vec header) [
    | none ↦ none
    | some text ↦ framed text payload
  ]
