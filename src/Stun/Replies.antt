-- ===== src/Stun/Replies.antt =====
-- Which packets are taken for a reply.
use zwrt_datad.Prelude.{
  ℕ, zero, suc, ◌≤◌, ◌<◌, ◌≡◌, refl, subst, ◌⊎◌, inl, inr, Bool, true, false, not, ◌||◌, Option,
  none, some, [], ◌∷◌, ltb, ◌==◌, length, take, drop, arith, Bool-cases, Option-cases,
  if◌then◌else◌,
}
use zwrt_datad.Prelude.Words.{from_be16}
use zwrt_datad.Prelude.Text.{Bytes, text_eq, text_eq_iff}
use Prim.Native.Nat.{bit_xor}
use zwrt_datad.Stun.{
  Ip, SocketAddr, Response, mapped, error, magic, binding_success, binding_error, request,
  decode_ip, with_port, decode_address, Found, noted, attributes, none_found, or_else, response_of,
  parse_body, parse,
}

abbrev pub HasPort : Option SocketAddr → Type 0
HasPort none = Unit
HasPort (some address) = 0 < address.port

with_port-HasPort : (port : ℕ) (ip : Option Ip) → HasPort (with_port port ip)
with_port-HasPort port none = tt
with_port-HasPort port (some ip) = elim (Bool-cases (port == 0)) [
  | inl e ↦ rw (with_port, e) tt
  | inr e ↦ rw (with_port, e) (ground (arith, e))
]

decode_address-HasPort :
    (value : Bytes) (xor : Bool) (transaction : Bytes)
    → HasPort (decode_address value xor transaction)
unfolding decode_address
decode_address-HasPort [] xor transaction = tt
decode_address-HasPort (a ∷ []) xor transaction = tt
decode_address-HasPort (a ∷ b ∷ []) xor transaction = tt
decode_address-HasPort (a ∷ b ∷ c ∷ []) xor transaction = tt
decode_address-HasPort (a ∷ b ∷ c ∷ d ∷ rest) xor transaction =
    with_port-HasPort (if xor then bit_xor (from_be16 c d) (from_be16 0x21 0x12) else from_be16 c d)
      (decode_ip b rest xor transaction)

record HavePorts (found : Found) : Type 0 where
  xor_port : HasPort found.xor
  plain_port : HasPort found.plain
  other_port : HasPort found.other
  changed_port : HasPort found.changed

HavePorts-if :
    (test : Bool) (a b : Found) → HavePorts a → HavePorts b → HavePorts (if test then a else b)
HavePorts-if true a b p q = p
HavePorts-if false a b p q = q

noted-HavePorts :
    (transaction : Bytes) (kind : ℕ) (value : Bytes) (found : Found)
    → HavePorts found
    → HavePorts (noted transaction kind value found)
unfolding noted
noted-HavePorts transaction kind value found h =
    let x = decode_address-HasPort value true transaction in
    let p = decode_address-HasPort value false transaction in
    HavePorts-if _ _ _
      (record {
        xor_port = x;
        plain_port = h.plain_port;
        other_port = h.other_port;
        changed_port = h.changed_port;
      })
      (HavePorts-if _ _ _
        (record {
          xor_port = h.xor_port;
          plain_port = p;
          other_port = h.other_port;
          changed_port = h.changed_port;
        })
        (HavePorts-if _ _ _
          (record {
            xor_port = h.xor_port;
            plain_port = h.plain_port;
            other_port = p;
            changed_port = h.changed_port;
          })
          (HavePorts-if _ _ _
            (record {
              xor_port = h.xor_port;
              plain_port = h.plain_port;
              other_port = h.other_port;
              changed_port = p;
            })
            h)))

attributes-HavePorts :
    (transaction : Bytes) (fuel : ℕ) (rest : Bytes) (found found' : Found)
    → HavePorts found
    → attributes transaction fuel rest found ≡ some found'
    → HavePorts found'
unfolding attributes
attributes-HavePorts transaction (suc fuel) (k ∷ k' ∷ s ∷ s' ∷ rest) found found' h e =
    elim (Bool-cases (ltb (length rest) (from_be16 s s'))) [
      | inl t ↦ absurd (cc (rw (attributes, t) at e))
      | inr t ↦
          attributes-HavePorts transaction fuel _ _ found'
            (noted-HavePorts transaction (from_be16 k k') (take (from_be16 s s') rest) found h)
            (rw (attributes, t) at e)
    ]
attributes-HavePorts transaction zero rest found found' h e = subst HavePorts (cc e) h
attributes-HavePorts transaction (suc fuel) [] found found' h e = subst HavePorts (cc e) h
attributes-HavePorts transaction (suc fuel) (a ∷ []) found found' h e = subst HavePorts (cc e) h
attributes-HavePorts transaction (suc fuel) (a ∷ b ∷ []) found found' h e = subst HavePorts (cc e) h
attributes-HavePorts transaction (suc fuel) (a ∷ b ∷ c ∷ []) found found' h e =
    subst HavePorts (cc e) h

-- The addresses of an answer have a port.
abbrev pub AreNamed : Response → Type 0
AreNamed (mapped address other) = (0 < address.port) × HasPort other
AreNamed error = Unit

or_else-HasPort : (a b : Option SocketAddr) → HasPort a → HasPort b → HasPort (or_else a b)
or_else-HasPort none b p q = q
or_else-HasPort (some a) b p q = p

response_of-AreNamed :
    (found : Found) (r : Response)
    → HavePorts found
    → response_of (some found) ≡ some r
    → AreNamed r
response_of-AreNamed found r h e =
    let address = or_else-HasPort found.xor found.plain h.xor_port h.plain_port in
    elim (Option-cases (or_else found.xor found.plain)) [
      | inl o ↦ absurd (cc (rw (response_of, o) at e))
      | inr (a, o) ↦
          let same : mapped a (or_else found.other found.changed) ≡ r =
            cc (rw (response_of, o) at e) in
          subst AreNamed same (
            subst HasPort o address,
            or_else-HasPort found.other found.changed h.other_port h.changed_port,
          )
    ]

nothing_found : HavePorts none_found
nothing_found = record { xor_port = tt; plain_port = tt; other_port = tt; changed_port = tt }

parse_body-AreNamed :
    (transaction : Bytes) (size : ℕ) (rest : Bytes) (r : Response)
    → parse_body transaction size rest ≡ some r
    → (size ≤ length rest) × AreNamed r
unfolding parse_body
parse_body-AreNamed transaction size rest r e = elim (Bool-cases (ltb (length rest) size)) [
  | inl t ↦ absurd (cc (rw (parse_body, t) at e))
  | inr t ↦
      let k = rw (parse_body, t) at e in
      elim (Option-cases (attributes transaction size (take size rest) none_found)) [
        | inl o ↦ absurd (cc (rw o at k))
        | inr (found, o) ↦ (
          ground (arith, t),
          response_of-AreNamed found r
              (attributes-HavePorts transaction size (take size rest) none_found found nothing_found
                o)
              (rw o at k),
        )
      ]
]

-- A success or an error for the transaction, all there.
pub record IsReply (packet transaction : Bytes) (r : Response) : Type 0 where
  pub k : ℕ
  pub k' : ℕ
  pub l : ℕ
  pub l' : ℕ
  pub rest : Bytes
  pub parts : packet ≡ k ∷ k' ∷ l ∷ l' ∷ rest
  pub header : 16 ≤ length rest
  pub cookie : take 4 rest ≡ magic
  pub own : take 12 (drop 4 rest) ≡ transaction
  pub outcome :
      ((from_be16 k k' ≡ binding_success) × (from_be16 l l' ≤ length (drop 16 rest)) × AreNamed r)
      ⊎ ((from_be16 k k' ≡ binding_error) × (r ≡ error))

-- Whatever bytes come in: what `parse` takes for a reply has the magic cookie and the transaction of
-- the request, and is an error, or a success whose body is all there and whose addresses have a port.
pub parse-IsReply :
    (packet transaction : Bytes) (r : Response)
    → parse packet transaction ≡ some r
    → IsReply packet transaction r
unfolding parse
parse-IsReply [] transaction r e = absurd (cc e)
parse-IsReply (a ∷ []) transaction r e = absurd (cc e)
parse-IsReply (a ∷ b ∷ []) transaction r e = absurd (cc e)
parse-IsReply (a ∷ b ∷ c ∷ []) transaction r e = absurd (cc e)
parse-IsReply (k ∷ k' ∷ l ∷ l' ∷ rest) transaction r e =
    elim (Bool-cases (
      ltb (length rest) 16
      || not (text_eq (take 4 rest) magic)
      || not (text_eq (take 12 (drop 4 rest)) transaction))) [
        | inl t ↦ absurd (cc (rw (parse, t) at e))
        | inr t ↦
            let same : text_eq (take 4 rest) magic ≡ true = ground (arith, t) in
            let own : text_eq (take 12 (drop 4 rest)) transaction ≡ true = ground (arith, t) in
            let f = rw (parse, t) at e in
            record {
              k = k;
              k' = k';
              l = l;
              l' = l';
              rest = rest;
              parts = refl;
              header = ground (arith, t);
              cookie = (text_eq_iff (take 4 rest) magic).0 same;
              own = (text_eq_iff (take 12 (drop 4 rest)) transaction).0 own;
              outcome = elim (Bool-cases (from_be16 k k' == binding_success)) [
                | inl s ↦
                    let (n, a) =
                      parse_body-AreNamed transaction (from_be16 l l') (drop 16 rest) r
                        (rw s at f) in
                    inl (ground (arith, s), n, a)
                | inr s ↦ elim (Bool-cases (from_be16 k k' == binding_error)) [
                  | inl d ↦ inr (ground (arith, d), cc (rw (s, d) at f))
                  | inr d ↦ absurd (cc (rw (s, d) at f))
                ]
              ];
            }
      ]

-- A request that comes back, whatever its flags, is no reply to any transaction.
parse-request :
    (sent : Bytes) (change : ℕ) (transaction : Bytes)
    → parse (request sent change) transaction ≡ none
unfolding parse request from_be16
parse-request sent change transaction = ground arith
