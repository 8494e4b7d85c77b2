-- ===== src/Stun/Packets.antt =====
-- The packets that RFC 5389 says, and what the client reads of them.
use zwrt_datad.Prelude.{
  ℕ, zero, suc, ◌+◌, ◌-◌, ◌*◌, ◌/◌, ◌^◌, ◌≤◌, ◌<◌, ◌≡◌, refl, ap, subst, ◌∙◌, Bool, true, false,
  Option, none, some, ◌==◌, if◌then◌else◌, List, [], ◌∷◌, ◌++◌, ltb, length, take, drop, replicate,
  take-append, drop-append, take_all, length-append, length-replicate, All, arith,
}
use zwrt_datad.Prelude.Words.{be16, from_be16, from_be16-be16}
use zwrt_datad.Prelude.Text.{Bytes, text_eq, text_eq_iff}
use mathlib.Core.List.{append_assoc}
use zwrt_datad.Stun.{
  SocketAddr, Response, mapped, decode_address, Found, noted, attributes, none_found, response_of,
  parse_body, parse,
}

-- A kind and a value.
abbrev pub Attribute : Type 0
Attribute = ℕ × Bytes

abbrev pub padding : ℕ → ℕ
padding size = (size + 3) / 4 * 4 - size

unfoldable pub attribute_bytes : Attribute → Bytes
attribute_bytes (kind, value) =
    be16 kind ++ (be16 (length value) ++ (value ++ replicate (padding (length value)) 0))

unfoldable pub body_of : List Attribute → Bytes
unfolding attribute_bytes
body_of [] = []
body_of (attribute ∷ rest) = attribute_bytes attribute ++ body_of rest

unfoldable pub success_packet : Bytes → List Attribute → Bytes
unfolding body_of
success_packet transaction list =
    be16 0x0101
    ++ (be16 (length (body_of list)) ++ (0x21 ∷ 0x12 ∷ 0xa4 ∷ 0x42 ∷ (transaction ++ body_of list)))

-- The value of the last attribute of the kind.
unfoldable pub last_value : ℕ → List Attribute → Option Bytes
last_value kind [] = none
last_value kind ((k, value) ∷ rest) = elim (last_value kind rest) [
  | some later ↦ some later
  | none ↦ if k == kind then some value else none
]

-- The address in the last attribute of the kind; the second argument says whether it is masked.
abbrev pub address_in : ℕ → Bool → Bytes → List Attribute → Option SocketAddr
address_in kind xor transaction list = elim (last_value kind list) [
  | none ↦ none
  | some value ↦ decode_address value xor transaction
]

-- The first of two addresses that is there.
abbrev pub first_of : Option SocketAddr → Option SocketAddr → Option SocketAddr
first_of a b = elim a [ some address ↦ some address | none ↦ b ]

-- XOR-MAPPED-ADDRESS before MAPPED-ADDRESS, and with it OTHER-ADDRESS before CHANGED-ADDRESS.
abbrev pub answer_of : Bytes → List Attribute → Option Response
answer_of transaction list =
    elim (first_of (address_in 0x0020 true transaction list)
      (address_in 0x0001 false transaction list)) [
        | none ↦ none
        | some address ↦ some (
            mapped address (
              first_of (address_in 0x802c false transaction list)
                (address_in 0x0005 false transaction list)))
      ]

-- The code notes one attribute after the other.
noted_all : Bytes → List Attribute → Found → Found
noted_all transaction [] found = found
noted_all transaction ((kind, value) ∷ rest) found =
    noted_all transaction rest (noted transaction kind value found)

abbrev pub IsSmall : Attribute → Type 0
IsSmall attribute = (attribute.0 < 2 ^ 16) × (length attribute.1 < 2 ^ 16)

kept : ℕ → Bool → Bytes → List Attribute → Option SocketAddr → Option SocketAddr
kept kind xor transaction list address = elim (last_value kind list) [
  | none ↦ address
  | some value ↦ decode_address value xor transaction
]

kept-cons :
    (kind k : ℕ) (xor : Bool) (transaction value : Bytes) (rest : List Attribute)
    (address : Option SocketAddr)
    → kept kind xor transaction ((k, value) ∷ rest) address
      ≡ kept kind xor transaction rest
          (if k == kind then decode_address value xor transaction else address)
unfolding kept last_value
kept-cons kind k xor transaction value rest address = ground arith

abbrev found_in : Bytes → List Attribute → Found → Found
found_in transaction list found = record {
  xor = kept 0x0020 true transaction list found.xor;
  plain = kept 0x0001 false transaction list found.plain;
  other = kept 0x802c false transaction list found.other;
  changed = kept 0x0005 false transaction list found.changed;
}

found_in-noted :
    (transaction value : Bytes) (kind : ℕ) (rest : List Attribute) (found : Found)
    → found_in transaction rest (noted transaction kind value found)
      ≡ found_in transaction ((kind, value) ∷ rest) found
unfolding noted
found_in-noted transaction value kind rest found =
    rw
      (
        found_in,
        kept-cons 0x0020 kind true transaction value rest found.xor,
        kept-cons 0x0001 kind false transaction value rest found.plain,
        kept-cons 0x802c kind false transaction value rest found.other,
        kept-cons 0x0005 kind false transaction value rest found.changed,
      )
      (ground arith)

noted_all-found_in :
    (transaction : Bytes) (list : List Attribute) (found : Found)
    → noted_all transaction list found ≡ found_in transaction list found
unfolding noted_all kept last_value
noted_all-found_in transaction [] found = refl
noted_all-found_in transaction ((kind, value) ∷ rest) found =
    noted_all-found_in transaction rest (noted transaction kind value found)
    ∙ found_in-noted transaction value kind rest found

response_of-first_of :
    (a b c d : Option SocketAddr)
    → response_of (some (record { xor = a; plain = b; other = c; changed = d }))
      ≡ (elim (first_of a b) [ none ↦ none | some address ↦ some (mapped address (first_of c d)) ])
response_of-first_of none none c d = refl
response_of-first_of none (some b) none d = refl
response_of-first_of none (some b) (some c) d = refl
response_of-first_of (some a) b none d = refl
response_of-first_of (some a) b (some c) d = refl

response_of-answer_of :
    (transaction : Bytes) (list : List Attribute)
    → response_of (some (noted_all transaction list none_found)) ≡ answer_of transaction list
unfolding kept
response_of-answer_of transaction list =
    ap (λ found. response_of (some found)) (noted_all-found_in transaction list none_found)
    ∙ response_of-first_of (address_in 0x0020 true transaction list)
        (address_in 0x0001 false transaction list) (address_in 0x802c false transaction list)
        (address_in 0x0005 false transaction list)

attributes_step :
    (transaction : Bytes) (fuel kind size : ℕ) (value pad rest : Bytes) (found : Found)
    → kind < 2 ^ 16
    → size < 2 ^ 16
    → length value ≡ size
    → length (value ++ pad) ≡ (size + 3) / 4 * 4
    → attributes transaction (suc fuel) (be16 kind ++ (be16 size ++ ((value ++ pad) ++ rest))) found
      ≡ attributes transaction fuel rest (noted transaction kind value found)
unfolding attributes
attributes_step transaction fuel kind size value pad rest found k s n m =
    let taken : take size ((value ++ pad) ++ rest) ≡ value =
      rw append_assoc (
        subst (λ n. take n (value ++ (pad ++ rest)) ≡ value) n (take-append value (pad ++ rest))) in
    let dropped : drop ((size + 3) / 4 * 4) ((value ++ pad) ++ rest) ≡ rest =
      subst (λ n. drop n ((value ++ pad) ++ rest) ≡ rest) m (drop-append (value ++ pad) rest) in
    let enough : ltb (length ((value ++ pad) ++ rest)) size ≡ false =
      ground (arith, length-append (value ++ pad) rest, length-append value pad) in
    rw (from_be16-be16 kind k, from_be16-be16 size s, enough, taken, dropped)

attributes-body_of :
    (transaction : Bytes) (fuel : ℕ) (list : List Attribute) (found : Found)
    → length (body_of list) ≤ fuel
    → All IsSmall list
    → attributes transaction fuel (body_of list) found ≡ some (noted_all transaction list found)
unfolding attributes body_of noted_all
attributes-body_of transaction zero [] found l a = refl
attributes-body_of transaction (suc fuel) [] found l a = refl
attributes-body_of transaction zero ((kind, value) ∷ rest) found l a = absurd (omega arith)
attributes-body_of transaction (suc fuel) ((kind, value) ∷ rest) found l ((k, n), a) =
    let pad : Bytes = replicate (padding (length value)) 0 in
    let m : length (value ++ pad) ≡ (length value + 3) / 4 * 4 =
      omega (arith, length-append value pad, length-replicate {A = ℕ} (padding (length value)) 0) in
    attributes_step transaction fuel kind (length value) value pad (body_of rest) found k n refl m
    ∙ attributes-body_of transaction fuel rest (noted transaction kind value found)
        (omega (arith, l, length-append (value ++ pad) (body_of rest))) a

parse_body-body_of :
    (transaction : Bytes) (list : List Attribute)
    → All IsSmall list
    → parse_body transaction (length (body_of list)) (body_of list) ≡ answer_of transaction list
unfolding parse_body
parse_body-body_of transaction list a =
    let size : ℕ = length (body_of list) in
    let whole : take size (body_of list) ≡ body_of list =
      take_all size (body_of list) (omega arith) in
    let enough : ltb (length (body_of list)) size ≡ false = ground arith in
    rw
      (
        parse_body,
        enough,
        whole,
        attributes-body_of transaction size list none_found (omega arith) a,
      )
      (response_of-answer_of transaction list)

-- A success packet for the transaction, with any attributes of less than 64 KiB in all: `parse` answers
-- the address in the last XOR-MAPPED-ADDRESS, or where that is not there or not an address the one in
-- the last MAPPED-ADDRESS; with it the one in the last OTHER-ADDRESS, or else the last CHANGED-ADDRESS;
-- and nothing where neither of the first two is an address.
pub parse-success_packet :
    (transaction : Bytes) (list : List Attribute)
    → length transaction ≡ 12
    → All IsSmall list
    → length (body_of list) < 2 ^ 16
    → parse (success_packet transaction list) transaction ≡ answer_of transaction list
unfolding parse success_packet text_eq from_be16
parse-success_packet transaction list n a s =
    let body : Bytes = body_of list in
    let same : text_eq (take 12 (transaction ++ body)) transaction ≡ true =
      (text_eq_iff (take 12 (transaction ++ body)) transaction).1 (
        subst (λ n. take n (transaction ++ body) ≡ transaction) n (take-append transaction body)) in
    let dropped : drop 12 (transaction ++ body) ≡ body =
      subst (λ n. drop n (transaction ++ body) ≡ body) n (drop-append transaction body) in
    let enough : ltb (length (0x21 ∷ 0x12 ∷ 0xa4 ∷ 0x42 ∷ (transaction ++ body))) 16 ≡ false =
      ground (arith, length-append transaction body, n) in
    rw (from_be16-be16 (length body) s, same, dropped, enough)
      (parse_body-body_of transaction list a)
