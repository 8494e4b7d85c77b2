-- ===== src/Frame/RoundTrip.antt =====
-- A frame that is built is read back, and what is read lies within the limits.
use zwrt_datad.Prelude.{
  ℕ, ◌+◌, ◌≤◌, ◌<◌, ◌≡◌, sym, ◌∙◌, ap, true, Option, none, some, inl, inr, [], ◌∷◌, ◌++◌, ltb,
  length, take, drop, take-append, drop-append, take-drop, length-append, length-take, arith,
  Bool-cases, Option-cases,
}
use zwrt_datad.Prelude.Text.{Bytes}
use zwrt_datad.Prelude.Words.{be32, from_be32, from_be32-be32}
use zwrt_datad.Frame.{
  Json, max_frame, max_header, checked_header, decode_rest, decode, framed, encode,
}

module _ (json : Json) where
  framed-some :
      (header payload frame : Bytes)
      → framed json header payload ≡ some frame
      → (frame ≡ be32 (length header) ++ (header ++ payload))
        × (length header ≤ max_header)
        × (4 + length header + length payload ≤ max_frame)
  unfolding framed
  framed-some header payload frame h = ground arith

  decode_rest-append :
      (value : json.Value) (header payload : Bytes)
      → json.from_slice header ≡ some value
      → json.is_object value ≡ true
      → 0 < length header
      → length header ≤ max_header
      → decode_rest json (length header) (header ++ payload) ≡ inr (value, payload)
  unfolding decode_rest checked_header
  decode_rest-append value header payload f o p l =
      simp (take-append, drop-append)
        (ground (
          arith,
          f,
          o,
          p,
          l,
          length-append header payload,
          take-append header payload,
          drop-append header payload,
        ))

  header_text :
      (header payload : Bytes)
      → length header ≤ max_header
      → 4 + length header + length payload ≤ max_frame
      → decode json (be32 (length header) ++ (header ++ payload))
        ≡ decode_rest json (length header) (header ++ payload)
  unfolding decode
  header_text header payload l m =
      ground (arith, from_be32-be32 (length header) (omega arith), length-append header payload)

  not_empty :
      (value : json.Value) (text : Bytes)
      → json.from_slice [] ≡ none
      → json.from_slice text ≡ some value
      → 0 < length text
  not_empty value [] n h = absurd (cc (n, h))
  not_empty value (b ∷ text) n h = omega arith

  -- Where serde_json reads the header's text as the header and no empty text as a value: a frame that
  -- `encode` builds of an object and a payload is decoded to them.
  pub decode-encode :
      (value : json.Value) (payload frame : Bytes)
      → ((text : Bytes) → json.to_vec value ≡ some text → json.from_slice text ≡ some value)
      → json.from_slice [] ≡ none
      → json.is_object value ≡ true
      → encode json value payload ≡ some frame
      → decode json frame ≡ inr (value, payload)
  unfolding encode
  decode-encode value payload frame reads no_text o h = elim (Option-cases (json.to_vec value)) [
    | inl e ↦ absurd (ground (arith, e, h))
    | inr (text, e) ↦
        let (f, l, m) = framed-some text payload frame (rw (encode, e) at h) in
        rw f (
          header_text text payload l m
          ∙ decode_rest-append value text payload (reads text e) o
              (not_empty value text no_text (reads text e)) l)
  ]

  -- A frame within the limits: four bytes of the header's length, the header and the payload.
  pub record IsFrame (bytes : Bytes) (value : json.Value) (payload : Bytes) : Type 0 where
    pub a : ℕ
    pub b : ℕ
    pub c : ℕ
    pub d : ℕ
    pub header : Bytes
    pub parts : bytes ≡ a ∷ b ∷ c ∷ d ∷ (header ++ payload)
    pub header_len : from_be32 a b c d ≡ length header
    pub read_header : json.from_slice header ≡ some value
    pub object : json.is_object value ≡ true
    pub header_range : (0 < length header) × (length header ≤ max_header)
    pub bytes_le : length bytes ≤ max_frame

  checked_header-inr :
      (found : Option json.Value) (rest payload : Bytes) (value : json.Value)
      → checked_header json found rest ≡ inr (value, payload)
      → (found ≡ some value) × (json.is_object value ≡ true) × (rest ≡ payload)
  unfolding checked_header
  checked_header-inr none rest payload value h = cc
  checked_header-inr (some v) rest payload value h = ground arith

  decode_rest-inr :
      (n : ℕ) (rest payload : Bytes) (value : json.Value)
      → decode_rest json n rest ≡ inr (value, payload)
      → (0 < n)
        × (n ≤ max_header)
        × (n ≤ length rest)
        × (checked_header json (json.from_slice (take n rest)) (drop n rest) ≡ inr (value, payload))
  unfolding decode_rest
  decode_rest-inr n rest payload value h = ground arith

  -- Whatever bytes come in: what `decode` accepts is a frame within the limits, its header is the
  -- object that is given, and its payload comes back untouched.
  pub decode-IsFrame :
      (bytes payload : Bytes) (value : json.Value)
      → decode json bytes ≡ inr (value, payload)
      → IsFrame bytes value payload
  unfolding decode
  decode-IsFrame [] payload value h = absurd (cc h)
  decode-IsFrame (a ∷ []) payload value h = absurd (cc h)
  decode-IsFrame (a ∷ b ∷ []) payload value h = absurd (cc h)
  decode-IsFrame (a ∷ b ∷ c ∷ []) payload value h = absurd (cc h)
  decode-IsFrame (a ∷ b ∷ c ∷ d ∷ rest) payload value h =
      elim (Bool-cases (ltb max_frame (4 + length rest))) [
        | inl e ↦ absurd (ground (arith, e, h))
        | inr e ↦
            let n = from_be32 a b c d in
            let (p, l, k, g) = decode_rest-inr n rest payload value (rw (decode, e) at h) in
            let (f, o, q) = checked_header-inr _ (drop n rest) payload value g in
            record {
              a = a;
              b = b;
              c = c;
              d = d;
              header = take n rest;
              parts =
                  ap (λ t. a ∷ b ∷ c ∷ d ∷ t)
                    (sym (take-drop n rest) ∙ ap (λ t. take n rest ++ t) q);
              header_len = omega (arith, length-take n rest);
              read_header = f;
              object = o;
              header_range = (omega (arith, length-take n rest), omega (arith, length-take n rest));
              bytes_le = ground (arith, e);
            }
      ]
