-- ===== src/Stun.antt =====
-- stun.rs: the messages of a STUN binding client, and the names of its servers.
pub mod Addresses
pub mod Packets
pub mod Replies
pub mod Servers
use zwrt_datad.Prelude.{
  ℕ, zero, suc, ◌+◌, ◌-◌, ◌*◌, ◌/◌, ◌^◌, Bool, true, false, not, ◌&&◌, ◌||◌, Option, none, some,
  List, [], ◌∷◌, ◌++◌, ltb, leb, ◌==◌, length, take, drop, get_or, all, if◌then◌else◌,
}
use zwrt_datad.Prelude.Words.{be16, from_be16}
use zwrt_datad.Prelude.Text.{Bytes, codes, text_eq, starts_with, is_digit}
use zwrt_datad.Schedule.{is_empty}
use zwrt_datad.Route.{is_alphanumeric}
use zwrt_datad.Tasks.Params.{strip_plus, decimal_value}
use Prim.Native.Nat.{bit_xor}

abbrev pub magic : Bytes
magic = 0x21 ∷ 0x12 ∷ 0xa4 ∷ 0x42 ∷ []

abbrev pub binding_success : ℕ
binding_success = 0x0101

abbrev pub binding_error : ℕ
binding_error = 0x0111

abbrev pub xor_mapped_address : ℕ
xor_mapped_address = 0x0020

abbrev pub mapped_address : ℕ
mapped_address = 0x0001

abbrev pub changed_address : ℕ
changed_address = 0x0005

abbrev pub other_address : ℕ
other_address = 0x802c

-- The octets of an address of the standard library.
pub data Ip : Type 0 where
  ip_v4 ip_v6 : Bytes → Ip

pub record SocketAddr : Type 0 where
  pub ip : Ip
  pub port : ℕ

pub data Response : Type 0 where
  mapped : (mapped : SocketAddr) (other : Option SocketAddr) → Response
  error : Response

-- The argument is the flags, or 0 for none.
unfoldable pub request : Bytes → ℕ → Bytes
request transaction change =
    let header = be16 (if change == 0 then 0 else 8) ++ (magic ++ transaction) in
    let attribute = if change == 0 then [] else be16 3 ++ (be16 4 ++ (0 ∷ 0 ∷ 0 ∷ change ∷ [])) in
    be16 1 ++ (header ++ attribute)

unfoldable pub binding_request : Bytes → Bytes
unfolding request
binding_request transaction = request transaction 0

-- `*octet ^= mask` over the octets that a mask stands beside.
unfoldable pub masked : Bytes → Bytes → Bytes
masked [] masks = []
masked (octet ∷ octets) [] = octet ∷ octets
masked (octet ∷ octets) (mask ∷ masks) = bit_xor octet mask ∷ masked octets masks

abbrev pub unmasked : Bool → Bytes → Bytes → Bytes
unmasked xor masks octets = if xor then masked octets masks else octets

-- The address behind the family and the port.
unfoldable pub decode_ip : ℕ → Bytes → Bool → Bytes → Option Ip
unfolding masked
decode_ip family rest xor transaction =
    if family == 1 && leb 4 (length rest)
    then some (ip_v4 (unmasked xor magic (take 4 rest)))
    else if family == 2 && leb 16 (length rest)
    then some (ip_v6 (unmasked xor (magic ++ transaction) (take 16 rest)))
    else none

abbrev pub with_port : ℕ → Option Ip → Option SocketAddr
with_port port none = none
with_port port (some ip) = if not (port == 0) then some (record { ip = ip; port = port }) else none

unfoldable pub decode_address : Bytes → Bool → Bytes → Option SocketAddr
unfolding decode_ip
decode_address (reserved ∷ family ∷ p ∷ q ∷ rest) xor transaction =
    let port = from_be16 p q in
    with_port (if xor then bit_xor port (from_be16 0x21 0x12) else port)
      (decode_ip family rest xor transaction)
decode_address _ xor transaction = none

pub record Found : Type 0 where
  pub xor : Option SocketAddr
  pub plain : Option SocketAddr
  pub other : Option SocketAddr
  pub changed : Option SocketAddr

unfoldable pub noted : Bytes → ℕ → Bytes → Found → Found
unfolding decode_address
noted transaction kind value found =
    if kind == xor_mapped_address
    then record found { xor = decode_address value true transaction }
    else if kind == mapped_address
    then record found { plain = decode_address value false transaction }
    else if kind == other_address
    then record found { other = decode_address value false transaction }
    else if kind == changed_address
    then record found { changed = decode_address value false transaction }
    else found

-- The loop over the attributes, on what is left of the body.
unfoldable pub attributes : Bytes → ℕ → Bytes → Found → Option Found
unfolding noted
attributes transaction (suc fuel) (k ∷ k' ∷ s ∷ s' ∷ rest) found =
    let size = from_be16 s s' in
    let value = take size rest in
    let next =
      attributes transaction fuel (drop ((size + 3) / 4 * 4) rest)
        (noted transaction (from_be16 k k') value found) in
    if ltb (length rest) size then none else next
attributes transaction fuel _ found = some found

abbrev pub none_found : Found
none_found = record { xor = none; plain = none; other = none; changed = none }

abbrev pub or_else : Option SocketAddr → Option SocketAddr → Option SocketAddr
or_else none b = b
or_else (some a) b = some a

abbrev pub response_of : Option Found → Option Response
response_of none = none
response_of (some found) = elim (or_else found.xor found.plain) [
  | none ↦ none
  | some address ↦ some (mapped address (or_else found.other found.changed))
]

-- The part of `parse` behind the header; each attribute takes four bytes at least.
unfoldable pub parse_body : Bytes → ℕ → Bytes → Option Response
unfolding attributes
parse_body transaction size rest =
    if ltb (length rest) size
    then none
    else response_of (attributes transaction size (take size rest) none_found)

unfoldable pub parse : Bytes → Bytes → Option Response
unfolding parse_body
parse (k ∷ k' ∷ l ∷ l' ∷ rest) transaction =
    let kind = from_be16 k k' in
    if ltb (length rest) 16
      || not (text_eq (take 4 rest) magic)
      || not (text_eq (take 12 (drop 4 rest)) transaction)
    then none
    else if kind == binding_success
    then parse_body transaction (from_be16 l l') (drop 16 rest)
    else if kind == binding_error
    then some error
    else none
parse _ transaction = none

unfoldable pub parse_response : Bytes → Bytes → Option SocketAddr
unfolding parse
parse_response packet transaction = elim (parse packet transaction) [
  | some (mapped address other) ↦ some address
  | _ ↦ none
]

-- `str::rsplit_once` of an ASCII character
unfoldable pub rsplit_once : ℕ → Bytes → Option (Bytes × Bytes)
rsplit_once c [] = none
rsplit_once c (b ∷ text) = elim (rsplit_once c text) [
  | some (before, behind) ↦ some (b ∷ before, behind)
  | none ↦ if b == c then some ([], text) else none
]

-- `str::parse` for `u16`
unfoldable pub parse_u16 : Bytes → Option ℕ
parse_u16 text =
    let digits = strip_plus text in
    if not (is_empty digits) && all is_digit digits && ltb (decimal_value 0 digits) (2 ^ 16)
    then some (decimal_value 0 digits)
    else none

unfoldable pub host_valid : Bytes → Bool
unfolding is_alphanumeric
host_valid host =
    not (is_empty host)
    && leb (length host) 253
    && all (λ b. is_alphanumeric b || b == b'.' || b == b'-') host

abbrev pub port_of : Bytes → Option ℕ
port_of text = elim (parse_u16 text) [
  | none ↦ none
  | some port ↦ if port == 0 then none else some port
]

-- The host and the port behind the scheme.
unfoldable pub server_of : Bytes → Option (Bytes × ℕ)
unfolding rsplit_once parse_u16
server_of rest = elim (rsplit_once b':' rest) [
  | none ↦ some (rest, 3478)
  | some (host, port) ↦ elim (port_of port) [ none ↦ none | some n ↦ some (host, n) ]
]

unfoldable pub parse_server : Bytes → Option (Bytes × ℕ)
unfolding server_of host_valid
parse_server value =
    if not (starts_with (codes "stun:") value) then none else elim (server_of (drop 5 value)) [
      | none ↦ none
      | some (host, port) ↦ if host_valid host then some (host, port) else none
    ]
