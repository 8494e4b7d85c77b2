-- ===== src/Stun/Addresses.antt =====
-- The addresses in attributes, written as RFC 5389 says and read back.
use zwrt_datad.Prelude.{
  ℕ, suc, ◌/◌, ◌%◌, ◌^◌, ◌<◌, ◌≡◌, refl, ap, ap₂, ◌∙◌, Bool, true, false, some, [], ◌∷◌, ◌++◌,
  length, take, take_all, arith,
}
use zwrt_datad.Prelude.Words.{be16, from_be16, from_be16-be16}
use zwrt_datad.Prelude.Xor.{bit_xor-mask, bit_xor-lt}
use zwrt_datad.Prelude.Text.{Bytes}
use Prim.Native.Nat.{bit_xor}
use zwrt_datad.Stun.{Ip, ip_v4, ip_v6, SocketAddr, masked, decode_ip, decode_address}

abbrev family : Ip → ℕ
family (ip_v4 octets) = 1
family (ip_v6 octets) = 2

abbrev octets_of : Ip → Bytes
octets_of (ip_v4 octets) = octets
octets_of (ip_v6 octets) = octets

-- RFC 5389 15.2: an address is masked with the magic cookie, one of version 6 with the cookie and the
-- transaction.
abbrev key_of : Bytes → Ip → Bytes
key_of transaction (ip_v4 octets) = 0x21 ∷ 0x12 ∷ 0xa4 ∷ 0x42 ∷ []
key_of transaction (ip_v6 octets) = 0x21 ∷ 0x12 ∷ 0xa4 ∷ 0x42 ∷ transaction

-- Octet by octet.
unfoldable pub xor_with : Bytes → Bytes → Bytes
xor_with (k ∷ key) (o ∷ octets) = bit_xor o k ∷ xor_with key octets
xor_with key octets = octets

-- Four octets or sixteen, and a port.
abbrev pub IsAddress : SocketAddr → Type 0
IsAddress address =
    (0 < address.port)
    × (address.port < 2 ^ 16)
    × (length (octets_of address.ip) ≡ (elim address.ip [ ip_v4 _ ↦ 4 | ip_v6 _ ↦ 16 ]))

-- The value of an attribute: MAPPED-ADDRESS and its kind, or XOR-MAPPED-ADDRESS.
unfoldable pub encode_address : SocketAddr → Bool → Bytes → Bytes
unfolding xor_with
encode_address address false transaction =
    0 ∷ family address.ip ∷ be16 address.port ++ octets_of address.ip
encode_address address true transaction =
    0 ∷ family address.ip ∷ be16 (bit_xor address.port 0x2112)
    ++ xor_with (key_of transaction address.ip) (octets_of address.ip)

masked-xor_with : (key octets : Bytes) → masked (xor_with key octets) key ≡ octets
unfolding masked xor_with
masked-xor_with [] [] = refl
masked-xor_with [] (o ∷ octets) = refl
masked-xor_with (k ∷ key) [] = refl
masked-xor_with (k ∷ key) (o ∷ octets) =
    ap₂ (λ a t. a ∷ t) (bit_xor-mask o k) (masked-xor_with key octets)

length-xor_with : (key octets : Bytes) → length (xor_with key octets) ≡ length octets
unfolding xor_with
length-xor_with [] [] = refl
length-xor_with [] (o ∷ octets) = refl
length-xor_with (k ∷ key) [] = refl
length-xor_with (k ∷ key) (o ∷ octets) = ap suc (length-xor_with key octets)

-- What stands behind the port.
abbrev sent : Bool → Bytes → Ip → Bytes
sent true transaction ip = xor_with (key_of transaction ip) (octets_of ip)
sent false transaction ip = octets_of ip

decode_ip-sent :
    (ip : Ip) (xor : Bool) (transaction : Bytes)
    → length (octets_of ip) ≡ (elim ip [ ip_v4 _ ↦ 4 | ip_v6 _ ↦ 16 ])
    → decode_ip (family ip) (sent xor transaction ip) xor transaction ≡ some ip
unfolding decode_ip
decode_ip-sent (ip_v4 octets) true transaction h =
    let key = key_of transaction (ip_v4 octets) in
    let n : length (xor_with key octets) ≡ 4 = length-xor_with key octets ∙ h in
    let whole : take 4 (xor_with key octets) ≡ xor_with key octets =
      take_all 4 (xor_with key octets) (omega (arith, n)) in
    rw (n, whole, masked-xor_with)
decode_ip-sent (ip_v6 octets) true transaction h =
    let key = key_of transaction (ip_v6 octets) in
    let n : length (xor_with key octets) ≡ 16 = length-xor_with key octets ∙ h in
    let whole : take 16 (xor_with key octets) ≡ xor_with key octets =
      take_all 16 (xor_with key octets) (omega (arith, n)) in
    rw (n, whole, masked-xor_with)
decode_ip-sent (ip_v4 octets) false transaction h =
    let whole : take 4 octets ≡ octets = take_all 4 octets (omega (arith, h)) in rw (h, whole)
decode_ip-sent (ip_v6 octets) false transaction h =
    let whole : take 16 octets ≡ octets = take_all 16 octets (omega (arith, h)) in rw (h, whole)

masked_port :
    (port : ℕ)
    → port < 2 ^ 16
    → let key = from_be16 0x21 0x12 in
      let sent = bit_xor port 0x2112 in
      bit_xor (from_be16 (sent / 256 % 256) (sent % 256)) key ≡ port
unfolding from_be16
masked_port port h =
    ap (λ n. bit_xor n 0x2112)
      (from_be16-be16 (bit_xor port 0x2112) (bit_xor-lt 16 port 0x2112 h (omega arith)))
    ∙ bit_xor-mask port 0x2112

-- Whatever the address and its port, masked or plain: `decode_address` reads back the value that
-- RFC 5389 says for it.
pub decode_address-encode_address :
    (address : SocketAddr) (xor : Bool) (transaction : Bytes)
    → IsAddress address
    → decode_address (encode_address address xor transaction) xor transaction ≡ some address
unfolding decode_address encode_address
decode_address-encode_address address true transaction (p, q, n) =
    rw (decode_ip-sent address.ip true transaction n, masked_port address.port q)
      (ground (arith, p))
decode_address-encode_address address false transaction (p, q, n) =
    rw (decode_ip-sent address.ip false transaction n, from_be16-be16 address.port q)
      (ground (arith, p))
