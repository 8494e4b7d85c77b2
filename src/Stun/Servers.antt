-- ===== src/Stun/Servers.antt =====
-- The names of STUN servers.
use zwrt_datad.Prelude.{
  ℕ, ◌^◌, ◌<◌, ◌≡◌, refl, ap, ◌∙◌, ◌⊎◌, inl, inr, true, some, [], ◌∷◌, ◌++◌, ◌==◌, ==_iff, drop,
  length, arith, Bool-cases, Option-cases,
}
use zwrt_datad.Prelude.Text.{Bytes, codes, starts_with}
use zwrt_datad.Stun.{rsplit_once, parse_u16, host_valid, port_of, server_of, parse_server}

rsplit_once-some :
    (c : ℕ) (text before behind : Bytes)
    → rsplit_once c text ≡ some (before, behind)
    → text ≡ before ++ (c ∷ behind)
unfolding rsplit_once
rsplit_once-some c [] before behind e = absurd (cc e)
rsplit_once-some c (b ∷ text) before behind e = elim (Option-cases (rsplit_once c text)) [
  | inl n ↦ elim (Bool-cases (b == c)) [
    | inl s ↦
        let pair : some ([], text) ≡ some (before, behind) = rw (rsplit_once, n, s) at e in
        let front : [] ≡ before = cc pair in
        let back : text ≡ behind = cc pair in rw (← front, ← back, (==_iff b c).0 s)
    | inr s ↦ absurd (cc (rw (rsplit_once, n, s) at e))
  ]
  | inr ((before', behind'), n) ↦
      let pair : some (b ∷ before', behind') ≡ some (before, behind) = rw (rsplit_once, n) at e in
      let front : b ∷ before' ≡ before = cc pair in
      let back : behind' ≡ behind = cc pair in
      rw (← front, ← back) (ap (λ t. b ∷ t) (rsplit_once-some c text before' behind' n))
]

starts_with-drop :
    (prefix text : Bytes)
    → starts_with prefix text ≡ true
    → text ≡ prefix ++ drop (length prefix) text
unfolding starts_with
starts_with-drop [] text h = refl
starts_with-drop (p ∷ prefix) [] h = cc
starts_with-drop (p ∷ prefix) (b ∷ text) h =
    let same : p ≡ b = ground (arith, h) in
    let rest : starts_with prefix text ≡ true = ground (arith, h) in
    rw same (ap (λ t. b ∷ t) (starts_with-drop prefix text rest))

-- How the text names the server: by its host alone, or by the host and the digits of the port.
abbrev pub Names : Bytes → Bytes → ℕ → Type 0
Names value host port =
    ((value ≡ codes "stun:" ++ host) × (port ≡ 3478))
    ⊎ ((digits : Bytes) × (value ≡ codes "stun:" ++ (host ++ (b':' ∷ digits)))
        × (parse_u16 digits ≡ some port))

parse_u16-lt : (text : Bytes) (port : ℕ) → parse_u16 text ≡ some port → port < 2 ^ 16
unfolding parse_u16
parse_u16-lt text port e = ground arith

port_of-some :
    (text : Bytes) (port : ℕ)
    → port_of text ≡ some port
    → (parse_u16 text ≡ some port) × (0 < port) × (port < 2 ^ 16)
port_of-some text port e = elim (Option-cases (parse_u16 text)) [
  | inl n ↦ absurd (cc (rw (port_of, n) at e))
  | inr (n, f) ↦ elim (Bool-cases (n == 0)) [
    | inl z ↦ absurd (cc (rw (port_of, f, z) at e))
    | inr z ↦
        let same : n ≡ port = cc (rw (port_of, f, z) at e) in
        (f ∙ ap some same, rw (← same) (ground (arith, z)), rw (← same) (parse_u16-lt text n f))
  ]
]

server_of-some :
    (rest host : Bytes) (port : ℕ)
    → server_of rest ≡ some (host, port)
    → ((rest ≡ host) × (port ≡ 3478))
      ⊎ ((digits : Bytes) × (rest ≡ host ++ (b':' ∷ digits))
          × (parse_u16 digits ≡ some port)
          × (0 < port)
          × (port < 2 ^ 16))
unfolding server_of
server_of-some rest host port e = elim (Option-cases (rsplit_once b':' rest)) [
  | inl n ↦
      let pair : some (rest, 3478) ≡ some (host, port) = rw (server_of, n) at e in
      inl (cc pair, cc pair)
  | inr ((before, digits), n) ↦ elim (Option-cases (port_of digits)) [
    | inl f ↦ absurd (cc (rw (server_of, n, f) at e))
    | inr (number, f) ↦
        let pair : some (before, number) ≡ some (host, port) = rw (server_of, n, f) at e in
        let front : before ≡ host = cc pair in
        let back : number ≡ port = cc pair in
        let (u, p, q) = port_of-some digits port (f ∙ ap some back) in
        inr (digits, rw (← front) (rsplit_once-some b':' rest before digits n), u, p, q)
  ]
]

-- What `parse_server` accepts is "stun:", a host and possibly a port; the host is not empty, has 253
-- bytes at most and only letters, digits, dots and dashes, and the port is a u16 other than zero.
pub parse_server-Names :
    (value host : Bytes) (port : ℕ)
    → parse_server value ≡ some (host, port)
    → Names value host port × (host_valid host ≡ true) × (0 < port) × (port < 2 ^ 16)
unfolding parse_server
parse_server-Names value host port e = elim (Bool-cases (starts_with (codes "stun:") value)) [
  | inr s ↦ absurd (cc (rw (parse_server, s) at e))
  | inl s ↦ elim (Option-cases (server_of (drop 5 value))) [
    | inl n ↦ absurd (cc (rw (parse_server, s, n) at e))
    | inr ((h, p), n) ↦ elim (Bool-cases (host_valid h)) [
      | inr v ↦ absurd (cc (rw (parse_server, s, n, v) at e))
      | inl v ↦
          let pair : some (h, p) ≡ some (host, port) = rw (parse_server, s, n, v) at e in
          let front : h ≡ host = cc pair in
          let whole = starts_with-drop (codes "stun:") value s in
          elim (server_of-some (drop 5 value) host port (n ∙ pair)) [
            | inl (r, d) ↦ (
              inl (whole ∙ ap (λ t. codes "stun:" ++ t) r, d),
              rw (← front) v,
              omega (arith, d),
              omega (arith, d),
            )
            | inr (digits, r, u, l, m) ↦
                (inr (digits, whole ∙ ap (λ t. codes "stun:" ++ t) r, u), rw (← front) v, l, m)
          ]
    ]
  ]
]
