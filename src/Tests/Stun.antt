-- ===== src/Tests/Stun.antt =====
-- STUN messages at concrete inputs.
use zwrt_datad.Prelude.{◌<◌, ◌^◌, ◌≡◌, refl, true, false, some, List, [], ◌∷◌, arith}
use zwrt_datad.Prelude.Words.{from_be16}
use zwrt_datad.Prelude.Text.{Bytes, codes, text_eq, starts_with, is_digit}
use zwrt_datad.Tasks.Params.{decimal_value, strip_plus}
use zwrt_datad.Route.{is_alphanumeric}
use zwrt_datad.Stun.{
  ip_v4, SocketAddr, mapped, parse, parse_body, attributes, noted, decode_address, decode_ip,
  masked, parse_response, parse_server, host_valid, rsplit_once, parse_u16, server_of,
  xor_mapped_address, other_address,
}
use zwrt_datad.Stun.Addresses.{encode_address, xor_with, decode_address-encode_address}
use zwrt_datad.Stun.Packets.{
  Attribute, attribute_bytes, body_of, success_packet, answer_of, parse-success_packet,
}
use zwrt_datad.Stun.Replies.{IsReply, parse-IsReply}
use zwrt_datad.Stun.Servers.{Names, parse_server-Names}

abbrev transaction : Bytes
transaction = codes "transaction!"

abbrev here : SocketAddr
here = record { ip = ip_v4 (203 ∷ 0 ∷ 113 ∷ 9 ∷ []); port = 54321 }

abbrev there : SocketAddr
there = record { ip = ip_v4 (198 ∷ 51 ∷ 100 ∷ 2 ∷ []); port = 3479 }

-- A software name, an address that a later one replaces, the masked address and the alternate address.
abbrev answers : List Attribute
answers =
    (0x8022, codes "nms")
    ∷ (xor_mapped_address, encode_address there true transaction)
    ∷ (xor_mapped_address, encode_address here true transaction)
    ∷ (other_address, encode_address there false transaction)
    ∷ []

decode_address-encode_address_example :
    decode_address (encode_address here true transaction) true transaction ≡ some here
decode_address-encode_address_example =
    decode_address-encode_address here true transaction (omega arith, omega arith, refl)

parse-success_packet_example :
    parse (success_packet transaction answers) transaction ≡ answer_of transaction answers
unfolding body_of attribute_bytes encode_address xor_with
parse-success_packet_example =
    parse-success_packet transaction answers refl
      (
        (omega arith, omega arith),
        (
          (omega arith, omega arith),
          ((omega arith, omega arith), ((omega arith, omega arith), tt)),
        ),
      )
      (omega arith)

answered : parse (success_packet transaction answers) transaction ≡ some (mapped here (some there))
unfolding parse parse_body attributes noted decode_address decode_ip masked success_packet body_of
    attribute_bytes encode_address xor_with from_be16 text_eq
answered = refl

answered_address : parse_response (success_packet transaction answers) transaction ≡ some here
unfolding parse_response parse parse_body attributes noted decode_address decode_ip masked
    success_packet body_of attribute_bytes encode_address xor_with from_be16 text_eq
answered_address = refl

parse-IsReply_example :
    IsReply (success_packet transaction answers) transaction (mapped here (some there))
parse-IsReply_example =
    parse-IsReply (success_packet transaction answers) transaction (mapped here (some there))
      answered

named :
    parse_server (codes "stun:services.example.com:3479")
    ≡ some (codes "services.example.com", 3479)
unfolding parse_server server_of rsplit_once parse_u16 host_valid is_alphanumeric starts_with
    is_digit decimal_value strip_plus
named = refl

parse_server-Names_example :
    Names (codes "stun:services.example.com:3479") (codes "services.example.com") 3479
    × (host_valid (codes "services.example.com") ≡ true)
    × (0 < 3479)
    × (3479 < 2 ^ 16)
parse_server-Names_example =
    parse_server-Names (codes "stun:services.example.com:3479") (codes "services.example.com") 3479
      named
