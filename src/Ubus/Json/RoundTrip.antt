-- ===== src/Ubus/Json/RoundTrip.antt =====
-- `object_value` reads back what `table` writes.
use zwrt_datad.Prelude.{
  ℕ, zero, suc, ◌+◌, ◌≤◌, ◌<◌, ◌^◌, ◌≡◌, refl, sym, ap, ◌∙◌, true, false, Option, none, some, List,
  [], ◌∷◌, ◌++◌, arith, length, length-append, if◌then◌else◌,
}
use zwrt_datad.Prelude.Text.{Bytes}
use zwrt_datad.Ubus.Result.{Result, ok, err, stuck, ◌>>=◌}
use zwrt_datad.Ubus.Blob.{Attr, put_attr, parse_attrs}
use zwrt_datad.Ubus.Blob.RoundTrip.{parse_attrs-put_attr, length-put_attr}
use zwrt_datad.Ubus.Json.{
  pos_int, neg_int, float, Value, Items, Fields, null, bool, number, string, array, object, nil,
  cons, end, entry, field_payload, put_field, number_kind, number_content, put_json, put_items,
  table, insert, until_nul, decode_array, decode_object, decode_value, decode_nested, open_field,
  field, object_value, t_unspec, t_int8, t_string, t_array, t_table,
}
use zwrt_datad.Ubus.Json.Opening.{payload_length, number_decoded, open_field-payload}
use zwrt_datad.Ubus.Json.Plain.{
  IsPlain, ArePlain, HasPlain, IsKeyOrdered, depth, depth_items, depth_fields,
}
use zwrt_datad.Ubus.Json.Maps.{
  insert-join, join, join_assoc, join-end, AllNew, AllNew-join, AllNew-end,
}

-- The type and the data that `put_json` puts into a field.
kind_of : Value → ℕ
kind_of null = t_unspec
kind_of (bool flag) = t_int8
kind_of (number n) = number_kind n
kind_of (string text) = t_string
kind_of (array items) = t_array
kind_of (object fields) = t_table

content_of : Value → Bytes
content_of null = []
content_of (bool flag) = (if flag then 1 else 0) ∷ []
content_of (number n) = number_content n
content_of (string text) = text ++ (0 ∷ [])
content_of (array items) = put_items items
content_of (object fields) = table fields

put_json_lem :
    (name : Bytes) (v : Value)
    → put_json name v ≡ put_attr (kind_of v) true (field_payload name (content_of v))
unfolding put_json put_field kind_of content_of
put_json_lem name null = refl
put_json_lem name _ = refl

kind_of-lt : (v : Value) → kind_of v < 128
unfolding kind_of number_kind
kind_of-lt (number (pos_int n)) = ground arith
kind_of-lt (number (neg_int n)) = ground arith
kind_of-lt (number (float n)) = omega arith
kind_of-lt null = omega arith
kind_of-lt (bool flag) = omega arith
kind_of-lt (string t) = omega arith
kind_of-lt (array t) = omega arith
kind_of-lt (object t) = omega arith

-- A field's data is shorter than the field, and so is its payload with a header.
content_of-length :
    (name : Bytes) (v : Value)
    → (4 + length (field_payload name (content_of v)) ≤ length (put_json name v))
      × (length (content_of v) ≤ length (put_json name v))
content_of-length name v = rw put_json_lem (
  omega (
    arith,
    length-put_attr (kind_of v) true (field_payload name (content_of v)),
    payload_length name (content_of v),
  ),
  omega (
    arith,
    length-put_attr (kind_of v) true (field_payload name (content_of v)),
    payload_length name (content_of v),
  ),
)

until_nul-append : (t : Bytes) → until_nul t ≡ t → until_nul (t ++ (0 ∷ [])) ≡ t
unfolding until_nul
until_nul-append [] h = refl
until_nul-append (b ∷ t) h = ground (arith, until_nul-append t)

module _ (lossy : Bytes → Bytes) where
  nested_at : ℕ → Option (Attr → Result (Bytes × Value))
  nested_at zero = none
  nested_at (suc room) = some (field lossy room)

  field_lem :
      (room : ℕ) (attr : Attr) → field lossy room attr ≡ open_field lossy (nested_at room) attr
  unfolding field nested_at
  field_lem zero attr = refl
  field_lem (suc room) attr = refl

  -- A field is read back once its data is.
  field_of_content :
      (room : ℕ) (name : Bytes) (v : Value)
      → length name < 2 ^ 16
      → lossy name ≡ name
      → decode_value lossy (nested_at room) (kind_of v) (content_of v) ≡ ok v
      → field lossy room
          (record { id = kind_of v; extended = true; content = field_payload name (content_of v) })
        ≡ ok (name, v)
  field_of_content room name v h l e =
      field_lem room _
      ∙ open_field-payload lossy (nested_at room) (kind_of v) name (content_of v) h l
      ∙ rw e

  -- The first attribute of what `put_json` wrote.
  parse_attrs-put_json :
      (name : Bytes) (v : Value) (rest : Bytes)
      → length (put_json name v) < 2 ^ 24
      → parse_attrs (put_json name v ++ rest) ≡ (
          parse_attrs rest >>= λ out. ok (
            record { id = kind_of v; extended = true; content = field_payload name (content_of v) }
            ∷ out))
  parse_attrs-put_json name v rest h = rw put_json_lem (
      parse_attrs-put_attr (kind_of v) true (field_payload name (content_of v)) rest (kind_of-lt v)
        (omega (arith, content_of-length name v)))

  decode_array_cons :
      (f : Attr → Result (Bytes × Value)) (r : Result (List Attr)) (attr : Attr) (name : Bytes)
      (v : Value) (items : Items)
      → f attr ≡ ok (name, v)
      → (r >>= decode_array f) ≡ ok items
      → ((r >>= λ out. ok (attr ∷ out)) >>= decode_array f) ≡ ok (cons v items)
  unfolding decode_array
  decode_array_cons f (ok out) attr name v items e h = rw (e, h)
  decode_array_cons f (err x) attr name v items e h = cc
  decode_array_cons f stuck attr name v items e h = cc

  decode_object_cons :
      (f : Attr → Result (Bytes × Value)) (r : Result (List Attr)) (attr : Attr) (name : Bytes)
      (v : Value) (map fields : Fields)
      → f attr ≡ ok (name, v)
      → (r >>= λ out. decode_object f out (insert name v map)) ≡ ok fields
      → ((r >>= λ out. ok (attr ∷ out)) >>= λ out. decode_object f out map) ≡ ok fields
  unfolding decode_object
  decode_object_cons f (ok out) attr name v map fields e h = rw (e, h)
  decode_object_cons f (err x) attr name v map fields e h = cc
  decode_object_cons f stuck attr name v map fields e h = cc

  parse_attrs_nothing : {B : Type 0} (k : List Attr → Result B) → (parse_attrs [] >>= k) ≡ k []
  unfolding parse_attrs
  parse_attrs_nothing k = refl

  nothing_decoded :
      (f : Attr → Result (Bytes × Value)) (map : Fields)
      → (parse_attrs [] >>= λ out. decode_object f out map) ≡ ok (join map end)
  unfolding decode_object
  nothing_decoded f map =
      parse_attrs_nothing (λ out. decode_object f out map) ∙ ap ok (sym (join-end map))

  no_items : (f : Attr → Result (Bytes × Value)) → (parse_attrs [] >>= decode_array f) ≡ ok nil
  unfolding decode_array
  no_items f = parse_attrs_nothing (decode_array f)

  array_bind :
      (f : Attr → Result (Bytes × Value)) (r : Result (List Attr)) (items : Items)
      → (r >>= decode_array f) ≡ ok items
      → (r >>= λ attrs. decode_array f attrs >>= λ read. ok (array read)) ≡ ok (array items)
  array_bind f (ok attrs) items h = rw h
  array_bind f (err e) items h = cc
  array_bind f stuck items h = cc

  object_bind :
      (f : Attr → Result (Bytes × Value)) (r : Result (List Attr)) (fields : Fields)
      → (r >>= λ attrs. decode_object f attrs end) ≡ ok fields
      → (r >>= λ attrs. decode_object f attrs end >>= λ read. ok (object read)) ≡ ok (object fields)
  object_bind f (ok attrs) fields h = rw h
  object_bind f (err e) fields h = cc
  object_bind f stuck fields h = cc

  module _ (empty_text : lossy [] ≡ []) where
    mutual
      unfolding kind_of content_of nested_at decode_value decode_nested put_json

      content_lem :
          (room : ℕ) (v : Value)
          → IsPlain lossy v
          → depth v ≤ room
          → length (content_of v) < 2 ^ 24
          → decode_value lossy (nested_at room) (kind_of v) (content_of v) ≡ ok v
      content_lem room null p d h = refl
      content_lem room (bool true) p d h = refl
      content_lem room (bool false) p d h = refl
      content_lem room (number n) p d h = number_decoded lossy (nested_at room) n p
      content_lem room (string text) (l, u) d h = rw (until_nul-append text u) (rw l)
      content_lem zero (array items) p d h = absurd (omega arith)
      content_lem (suc room) (array items) p d h =
          array_bind (field lossy room) (parse_attrs (put_items items)) items
            (items_lem room items p (omega arith) h)
      content_lem zero (object fields) p d h = absurd (omega arith)
      content_lem (suc room) (object fields) (o, p) d h =
          object_bind (field lossy room) (parse_attrs (table fields)) fields
            (fields_lem room fields end p o (AllNew-end fields) (omega arith) h)

      items_lem :
          (room : ℕ) (items : Items)
          → ArePlain lossy items
          → depth_items items ≤ room
          → length (put_items items) < 2 ^ 24
          → (parse_attrs (put_items items) >>= decode_array (field lossy room)) ≡ ok items
      items_lem room nil p d h = no_items (field lossy room)
      items_lem room (cons v items) (pv, p) d h =
          let size : length (put_json [] v) + length (put_items items) < 2 ^ 24 =
            omega (arith, length-append (put_json [] v) (put_items items)) in
          rw (parse_attrs-put_json [] v (put_items items) (omega arith)) (
            decode_array_cons (field lossy room) (parse_attrs (put_items items)) _ [] v items
              (field_of_content room [] v (omega arith) empty_text
                (content_lem room v pv (omega arith) (omega (arith, content_of-length [] v))))
              (items_lem room items p (omega arith) (omega arith)))

      fields_lem :
          (room : ℕ) (fields map : Fields)
          → HasPlain lossy fields
          → IsKeyOrdered fields
          → AllNew fields map
          → depth_fields fields ≤ room
          → length (table fields) < 2 ^ 24
          → (parse_attrs (table fields) >>= λ out. decode_object (field lossy room) out map)
            ≡ ok (join map fields)
      fields_lem room end map p o n d h = nothing_decoded (field lossy room) map
      fields_lem room (entry name v fields) map (hn, ln, pv, p) (a, o) (w, n) d h =
          let size : length (put_json name v) + length (table fields) < 2 ^ 24 =
            omega (arith, length-append (put_json name v) (table fields)) in
          rw (parse_attrs-put_json name v (table fields) (omega arith)) (
            decode_object_cons (field lossy room) (parse_attrs (table fields)) _ name v map
              (join map (entry name v fields))
              (field_of_content room name v hn ln
                (content_lem room v pv (omega arith) (omega (arith, content_of-length name v))))
              (rw (insert-join name v map w) (
                fields_lem room fields (join map (entry name v end)) p o
                  (AllNew-join fields name v map n a) (omega arith) (omega arith)
                ∙ ap ok (join_assoc map name v fields))))

  -- ubusd is sent what the caller meant: reading the blob that `table` writes gives the map back,
  -- where the map is plain, its keys are in order, at most 32 levels are nested, and the blob is
  -- shorter than 16 MiB, and where lossy decoding leaves the empty text alone.
  pub object_value-table :
      (fields : Fields)
      → lossy [] ≡ []
      → HasPlain lossy fields
      → IsKeyOrdered fields
      → depth_fields fields ≤ 32
      → length (table fields) < 2 ^ 24
      → object_value lossy (table fields) ≡ ok (object fields)
  unfolding object_value
  object_value-table fields empty_text p o d h =
      object_bind (field lossy 32) (parse_attrs (table fields)) fields
        (fields_lem empty_text 32 fields end p o (AllNew-end fields) d h)
