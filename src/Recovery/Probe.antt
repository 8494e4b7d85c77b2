-- ===== src/Recovery/Probe.antt =====
-- network_recovery.rs: which probe URLs and which host names are accepted.
-- `reqwest::Url::parse` and the standard library's address parser are parameters.
use zwrt_datad.Prelude.{
  ℕ, ◌/◌, Bool, true, false, not, ◌&&◌, ◌||◌, Option, none, some, List, [], ◌∷◌, ltb, leb, ◌==◌,
  length, any, get_or, if◌then◌else◌,
}
use zwrt_datad.Prelude.Text.{
  Bytes, codes, text_eq, ends_with, contains, lowercase, drop_leading, drop_trailing,
}

-- What the code reads of a parsed URL.
pub record Url : Type 0 where
  pub scheme : Bytes
  pub username : Bytes
  pub password : Option Bytes
  pub query : Option Bytes
  pub fragment : Option Bytes
  pub port : Option ℕ
  pub host_str : Option Bytes

-- The octets of an IPv4 address, or the segments of an IPv6 address.
pub data IpAddr : Type 0 where
  v4 : ℕ → ℕ → ℕ → ℕ → IpAddr
  v6 : List ℕ → IpAddr

pub record Parsers : Type 0 where
  pub parse_url : Bytes → Option Url
  pub parse_ip : Bytes → Option IpAddr

abbrev pub is_none {ℓ} : {A : Type ℓ} → Option A → Bool
is_none none = true
is_none (some _) = false

-- `Ipv4Addr::is_private`, `is_loopback`, `is_link_local`, `is_unspecified`, `is_broadcast`,
-- `is_multicast`, and the shared address space 100.64/10 that the code adds.
unfoldable pub private_v4 : ℕ → ℕ → ℕ → ℕ → Bool
private_v4 a b c d =
    a == 10
    || (a == 172 && leb 16 b && leb b 31)
    || (a == 192 && b == 168)
    || a == 127
    || (a == 169 && b == 254)
    || (a == 0 && b == 0 && c == 0 && d == 0)
    || (a == 255 && b == 255 && c == 255 && d == 255)
    || (leb 224 a && leb a 239)
    || (a == 100 && leb 64 b && ltb b 128)

-- `::1`, `::`, ff00::/8, fc00::/7 and fe80::/10; a mask of the high bits is a division.
unfoldable pub private_v6 : List ℕ → Bool
unfolding text_eq
private_v6 segments =
    let first = get_or segments 0 0 in
    text_eq segments (0 ∷ 0 ∷ 0 ∷ 0 ∷ 0 ∷ 0 ∷ 0 ∷ 1 ∷ [])
    || text_eq segments (0 ∷ 0 ∷ 0 ∷ 0 ∷ 0 ∷ 0 ∷ 0 ∷ 0 ∷ [])
    || first / 256 == 255
    || first / 512 == 126
    || first / 64 == 1018

abbrev private_names : List Bytes
private_names =
    codes "localhost" ∷ codes "local" ∷ codes "lan" ∷ codes "internal" ∷ codes "home.arpa" ∷ []

unfoldable pub public_name : Bytes → Bool
unfolding text_eq ends_with contains lowercase
public_name raw =
    let host = lowercase raw in
    contains b'.' host
    && not (ends_with (b'.' ∷ []) host)
    && not (any (λ name. text_eq host name || ends_with (b'.' ∷ name) host) private_names)

public_ip : IpAddr → Bool
unfolding private_v4 private_v6
public_ip (v4 a b c d) = not (private_v4 a b c d)
public_ip (v6 segments) = not (private_v6 segments)

module _ (parsers : Parsers) where
  open parsers use {parse_url, parse_ip}

  unfoldable pub public_host : Bytes → Bool
  unfolding public_ip public_name drop_leading drop_trailing
  public_host raw =
      let host = drop_trailing b']' (drop_leading b'[' raw) in
      elim (parse_ip host) [ some ip ↦ public_ip ip | none ↦ public_name host ]

  valid_url : Url → Bool
  unfolding public_host text_eq
  valid_url url =
      text_eq url.scheme (codes "https")
      && length url.username == 0
      && is_none url.password
      && is_none url.query
      && is_none url.fragment
      && (elim url.port [ none ↦ true | some p ↦ p == 443 ])
      && (elim url.host_str [ none ↦ false | some host ↦ public_host host ])

  -- `is_ascii_control` and `is_ascii_whitespace` together are the bytes up to the space, and DEL.
  unfoldable pub valid_probe_url : Bytes → Bool
  unfolding valid_url
  valid_probe_url raw =
      if ltb 200 (length raw) || any (λ b. leb b 32 || b == 127) raw
      then false
      else elim (parse_url raw) [ none ↦ false | some url ↦ valid_url url ]
