-- ===== src/Ubus/Blob.antt =====
-- ubus_socket.rs: blob attributes. `put_attr` and `put_string` give the bytes that they append.
pub mod RoundTrip
pub mod Total
use zwrt_datad.Prelude.{
  ℕ, zero, suc, ◌+◌, ◌-◌, ◌*◌, ◌/◌, ◌%◌, ◌^◌, min, Bool, true, false, ◌||◌, Option, none, some,
  List, [], ◌∷◌, ◌++◌, ltb, leb, ◌==◌, length, take, drop, replicate, if◌then◌else◌,
}
use zwrt_datad.Prelude.Words.{be32, from_be32}
use zwrt_datad.Prelude.Text.{Bytes}
use Prim.Native.Nat.{bit_or}
use zwrt_datad.Ubus.Result.{Result, ok, err, stuck, ◌>>=◌, truncated_attribute, malformed_length}

-- `(n + 3) & !3`
abbrev pub align : ℕ → ℕ
align n = (n + 3) / 4 * 4

pub record Attr : Type 0 where
  pub id : ℕ
  pub extended : Bool
  pub content : Bytes

-- The masks of `parse_attrs` are remainders: `LEN_MASK` is the low 24 bits, `ID_MASK` the seven
-- bits above, `EXTENDED` the highest.
abbrev length_of : ℕ → ℕ
length_of id_len = id_len % 2 ^ 24

unfoldable pub attr_of : ℕ → Bytes → Attr
attr_of id_len content = record {
  id = id_len / 2 ^ 24 % 2 ^ 7;
  extended = id_len / 2 ^ 31 % 2 == 1;
  content = content;
}

-- The loop of `parse_attrs`.
unfoldable pub parse_loop : ℕ → Bytes → Result (List Attr)
unfolding attr_of
parse_loop fuel [] = ok []
parse_loop zero (a ∷ rest) = stuck
parse_loop (suc fuel) (a ∷ b ∷ c ∷ d ∷ more) =
    let id_len = from_be32 a b c d in
    let len = length_of id_len in
    let rest = a ∷ b ∷ c ∷ d ∷ more in
    let attrs = parse_loop fuel (drop (min (align len) (length rest)) rest) in
    if ltb len 4 || ltb (length rest) len
    then err malformed_length
    else attrs >>= λ out. ok (attr_of id_len (take (len - 4) more) ∷ out)
parse_loop (suc fuel) _ = err truncated_attribute

-- Each round takes four bytes at least, so `length rest` rounds are enough.
unfoldable pub parse_attrs : Bytes → Result (List Attr)
unfolding parse_loop
parse_attrs rest = parse_loop (length rest) rest

unfoldable pub header_word : ℕ → Bool → ℕ → ℕ
header_word id extended len =
    let id_len = bit_or (id * 2 ^ 24 % 2 ^ 32) (len % 2 ^ 32) in
    if extended then bit_or id_len (2 ^ 31) else id_len

unfoldable pub put_attr : ℕ → Bool → Bytes → Bytes
unfolding header_word
put_attr id extended payload =
    let len = 4 + length payload in
    be32 (header_word id extended len) ++ (payload ++ replicate (align len - len) 0)

unfoldable pub put_string : ℕ → Bytes → Bytes
put_string id text = put_attr id false (text ++ (0 ∷ []))

-- `attrs.iter().rev().find(|attr| attr.id == id)`
unfoldable pub message_attr : List Attr → ℕ → Option Attr
message_attr [] id = none
message_attr (attr ∷ attrs) id = elim (message_attr attrs id) [
  | some later ↦ some later
  | none ↦ if attr.id == id then some attr else none
]
