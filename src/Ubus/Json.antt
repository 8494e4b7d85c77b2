-- ===== src/Ubus/Json.antt =====
-- ubus_socket.rs: JSON to blobmsg (`put_json`, `table`) and back (`field`, `object`).
-- `String::from_utf8_lossy` is a parameter. The `put_*` functions
-- give the bytes that they append.
pub mod Opening
pub mod Plain
pub mod Maps
pub mod RoundTrip
use zwrt_datad.Prelude.{
  ℕ, zero, suc, ◌+◌, ◌-◌, ◌*◌, ◌/◌, ◌%◌, ◌^◌, Bool, true, false, not, ◌||◌, Option, none, some,
  List, [], ◌∷◌, ◌++◌, ltb, leb, ◌==◌, length, take, drop, replicate, if◌then◌else◌,
}
pub use zwrt_datad.Json.{
  Number, pos_int, neg_int, float, Value, null, bool, number, string, array, object, Items, nil,
  cons, Fields, end, entry,
}
use zwrt_datad.Prelude.Words.{be16, be32, from_be16, from_be32}
use zwrt_datad.Prelude.Text.{Bytes, text_eq, text_lt}
use zwrt_datad.Ubus.Result.{
  Result, ok, err, stuck, ◌>>=◌, malformed_field, malformed_name, bad_size, nested_too_deep,
  unknown_type,
}
use zwrt_datad.Ubus.Blob.{Attr, align, put_attr, parse_attrs}

abbrev pub be64 : ℕ → Bytes
be64 n = be32 (n / 2 ^ 32) ++ be32 (n % 2 ^ 32)

-- enum blobmsg_type
abbrev pub t_unspec : ℕ
t_unspec = 0

abbrev pub t_array : ℕ
t_array = 1

abbrev pub t_table : ℕ
t_table = 2

abbrev pub t_string : ℕ
t_string = 3

abbrev pub t_int64 : ℕ
t_int64 = 4

abbrev pub t_int32 : ℕ
t_int32 = 5

abbrev pub t_int16 : ℕ
t_int16 = 6

abbrev pub t_int8 : ℕ
t_int8 = 7

abbrev pub t_double : ℕ
t_double = 8

unfoldable pub field_payload : Bytes → Bytes → Bytes
field_payload name content =
    let header = align (2 + length name + 1) in
    (be16 (length name % 2 ^ 16) ++ (name ++ replicate (header - (2 + length name)) 0)) ++ content

unfoldable pub put_field : ℕ → Bytes → Bytes → Bytes
unfolding field_payload
put_field kind name content = put_attr kind true (field_payload name content)

-- The bits of `n as f64` for n from 2^63 on: the upper 53 bits of n, rounded half to even.
unfoldable pub u64_bits_as_f64 : ℕ → ℕ
u64_bits_as_f64 n =
    let q = n / 2048 in
    let r = n % 2048 in
    let up = ltb 1024 r || (if r == 1024 then q % 2 == 1 else false) in
    1086 * 2 ^ 52 + ((if up then q + 1 else q) - 2 ^ 52)

-- The type and the data of a number: `as_i64`, then `i32::try_from`.
unfoldable pub number_kind : Number → ℕ
number_kind (pos_int n) =
    if ltb n (2 ^ 31) then t_int32 else if ltb n (2 ^ 63) then t_int64 else t_double
number_kind (neg_int n) = if ltb n (2 ^ 31) then t_int32 else t_int64
number_kind (float bits) = t_double

unfoldable pub number_content : Number → Bytes
unfolding u64_bits_as_f64
number_content (pos_int n) =
    if ltb n (2 ^ 31) then be32 n else if ltb n (2 ^ 63) then be64 n else be64 (u64_bits_as_f64 n)
number_content (neg_int n) = if ltb n (2 ^ 31) then be32 (2 ^ 32 - 1 - n) else be64 (2 ^ 64 - 1 - n)
number_content (float bits) = be64 bits

unfoldable mutual
  unfolding put_field number_kind number_content

  pub put_json : Bytes → Value → Bytes
  put_json name null = put_field t_unspec name []
  put_json name (bool flag) = put_field t_int8 name ((if flag then 1 else 0) ∷ [])
  put_json name (number n) = put_field (number_kind n) name (number_content n)
  put_json name (string text) = put_field t_string name (text ++ (0 ∷ []))
  put_json name (array items) = put_field t_array name (put_items items)
  put_json name (object fields) = put_field t_table name (table fields)

  pub put_items : Items → Bytes
  put_items nil = []
  put_items (cons item items) = put_json [] item ++ put_items items

  pub table : Fields → Bytes
  table end = []
  table (entry name value fields) = put_json name value ++ table fields

-- `Map::insert`
unfoldable pub insert : Bytes → Value → Fields → Fields
insert name value end = entry name value end
insert name value (entry name' value' fields) =
    let rest = insert name value fields in
    if text_eq name name'
    then entry name value fields
    else if text_lt name name'
    then entry name value (entry name' value' fields)
    else entry name' value' rest

-- The bytes before the first NUL.
unfoldable pub until_nul : Bytes → Bytes
until_nul [] = []
until_nul (b ∷ text) = let rest = until_nul text in if b == 0 then [] else b ∷ rest

-- `iN::from_be_bytes` of the bits of a value of 2 * half values.
unfoldable pub signed : ℕ → ℕ → Value
signed half bits = number (if ltb bits half then pos_int bits else neg_int (2 * half - 1 - bits))

-- `Number::from_f64` has no infinities and no NaN.
unfoldable pub from_f64 : ℕ → Value
from_f64 bits = if bits / 2 ^ 52 % 2048 == 2047 then null else number (float bits)

unfoldable pub int_value : ℕ → Bytes → Result Value
unfolding signed
int_value half (a ∷ b ∷ []) = ok (signed half (from_be16 a b))
int_value half (a ∷ b ∷ c ∷ d ∷ []) = ok (signed half (from_be32 a b c d))
int_value half (a ∷ b ∷ c ∷ d ∷ e ∷ f ∷ g ∷ h ∷ []) =
    ok (signed half (from_be32 a b c d * 2 ^ 32 + from_be32 e f g h))
int_value half _ = err bad_size

-- `data.len() == size`, then the value.
unfoldable pub fixed : ℕ → Bytes → Result Value → Result Value
fixed size content value = if length content == size then value else err bad_size

-- A JSON array and a JSON object of decoded attributes; the first error ends both.
unfoldable pub decode_array : (Attr → Result (Bytes × Value)) → List Attr → Result Items
decode_array f [] = ok nil
decode_array f (attr ∷ attrs) = do
  (name, value) ← f attr
  items ← decode_array f attrs
  ok (cons value items)

unfoldable pub decode_object : (Attr → Result (Bytes × Value)) → List Attr → Fields → Result Fields
decode_object f [] map = ok map
decode_object f (attr ∷ attrs) map =
    f attr >>= λ (name, value). decode_object f attrs (insert name value map)

unfoldable pub flag_value : Bytes → Result Value
flag_value (b ∷ []) = ok (bool (not (b == 0)))
flag_value _ = err bad_size

unfoldable pub double_value : Bytes → Result Value
unfolding from_f64
double_value (a ∷ b ∷ c ∷ d ∷ e ∷ f ∷ g ∷ h ∷ []) =
    ok (from_f64 (from_be32 a b c d * 2 ^ 32 + from_be32 e f g h))
double_value _ = err bad_size

unfoldable pub decode_nested : Option (Attr → Result (Bytes × Value)) → ℕ → Bytes → Result Value
decode_nested none id content = err nested_too_deep
decode_nested (some f) id content = parse_attrs content >>= λ attrs.
    if id == t_array
    then (decode_array f attrs >>= λ items. ok (array items))
    else (decode_object f attrs end >>= λ fields. ok (object fields))

module _ (lossy : Bytes → Bytes) where
  -- The match of `field` on the type; the decoder of what is nested is `none` at `MAX_DEPTH`.
  unfoldable pub decode_value : Option (Attr → Result (Bytes × Value)) → ℕ → Bytes → Result Value
  unfolding fixed int_value flag_value double_value until_nul decode_nested
  decode_value nested id content =
      if id == t_unspec
      then ok null
      else if id == t_array || id == t_table
      then decode_nested nested id content
      else if id == t_string
      then ok (string (lossy (until_nul content)))
      else if id == t_int64
      then fixed 8 content (int_value (2 ^ 63) content)
      else if id == t_int32
      then fixed 4 content (int_value (2 ^ 31) content)
      else if id == t_int16
      then fixed 2 content (int_value (2 ^ 15) content)
      else if id == t_int8
      then fixed 1 content (flag_value content)
      else if id == t_double
      then fixed 8 content (double_value content)
      else err unknown_type

  unfoldable pub named_value :
      Option (Attr → Result (Bytes × Value)) → ℕ → Bytes → Result (Bytes × Value)
  unfolding decode_value
  named_value nested id (a ∷ b ∷ c ∷ more) =
      let name_len = from_be16 a b in
      let header = align (2 + name_len + 1) in
      if ltb (length (a ∷ b ∷ c ∷ more)) header
      then err malformed_name
      else (decode_value nested id (drop header (a ∷ b ∷ c ∷ more)) >>= λ value.
          ok (lossy (take name_len (c ∷ more)), value))
  named_value nested id _ = err malformed_field

  unfoldable pub open_field : Option (Attr → Result (Bytes × Value)) → Attr → Result (Bytes × Value)
  unfolding named_value
  open_field nested attr =
      if attr.extended then named_value nested attr.id attr.content else err malformed_field

  -- `field` at depth `MAX_DEPTH - room`.
  unfoldable pub field : ℕ → Attr → Result (Bytes × Value)
  unfolding open_field
  field zero attr = open_field none attr
  field (suc room) attr = open_field (some (field room)) attr

  -- `object_value`, which is `object` at depth 0.
  unfoldable pub object_value : Bytes → Result Value
  unfolding field
  object_value content = parse_attrs content >>= λ attrs.
      decode_object (field 32) attrs end >>= λ fields. ok (object fields)
