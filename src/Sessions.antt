-- ===== src/Sessions.antt =====
-- auth.rs: the sessions of the interface on the local network. Times are nanoseconds.
pub mod Compare
pub mod Trace
pub mod Table
pub mod Recent
pub mod Issue
use Prim.Native.Nat.{bit_or, bit_xor}
use zwrt_datad.Prelude.{
  ℕ, zero, suc, ◌+◌, ◌-◌, ◌*◌, ◌/◌, ◌%◌, ◌^◌, min, Bool, true, false, ◌&&◌, Option, none, some,
  List, [], ◌∷◌, ◌++◌, ltb, leb, ◌==◌, length, retain, if◌then◌else◌,
}
use zwrt_datad.Prelude.Text.{Bytes}
use zwrt_datad.Prelude.Words.{saturating_add_u64}

-- `SESSION_TTL` in seconds, `SESSION_LIMIT`, and the nanoseconds of a second.
abbrev pub session_ttl : ℕ
session_ttl = 43200

abbrev pub session_limit : ℕ
session_limit = 16

abbrev pub second : ℕ
second = 1000000000

-- `saturating_add` of the time to live on `Duration`, whose largest value is `Duration::MAX`.
unfoldable pub deadline_from : ℕ → ℕ
deadline_from now = min (now + session_ttl * second) (2 ^ 64 * second - 1)

pub record Session : Type 0 where
  pub token : Bytes
  pub deadline : ℕ

-- The fold of `secure_eq` over the pairs of bytes.
unfoldable pub differing : ℕ → Bytes → Bytes → ℕ
differing diff (x ∷ a) (y ∷ b) = differing (bit_or diff (bit_xor x y)) a b
differing diff _ _ = diff

unfoldable pub secure_eq : Bytes → Bytes → Bool
unfolding differing
secure_eq a b = length a == length b && differing 0 a b == 0

-- `retain(|s| s.deadline > now)`
unfoldable pub unexpired : ℕ → List Session → List Session
unexpired now sessions = retain (λ s. ltb now s.deadline) sessions

-- The first session of the token gets the deadline; whether there is one.
unfoldable pub renew : Bytes → ℕ → List Session → List Session × Bool
renew token deadline [] = ([], false)
renew token deadline (s ∷ sessions) =
    let (rest, found) = renew token deadline sessions in
    if secure_eq s.token token
    then (record s { deadline = deadline } ∷ sessions, true)
    else (s ∷ rest, found)

unfoldable pub validate : ℕ → Bytes → List Session → List Session × Bool
unfolding unexpired renew
validate now token sessions = renew token (deadline_from now) (unexpired now sessions)

-- `min_by_key` over `enumerate`: the place of the first session with the earliest deadline.
unfoldable pub earliest : List Session → Option (ℕ × ℕ)
earliest [] = none
earliest (s ∷ sessions) = elim (earliest sessions) [
  | none ↦ some (0, s.deadline)
  | some (i, d) ↦ if leb s.deadline d then some (0, s.deadline) else some (i + 1, d)
]

unfoldable pub oldest : List Session → ℕ
unfolding earliest
oldest sessions = elim (earliest sessions) [ none ↦ 0 | some (i, d) ↦ i ]

-- `Vec::remove`
unfoldable pub remove : ℕ → List Session → List Session
remove i [] = []
remove zero (s ∷ sessions) = sessions
remove (suc i) (s ∷ sessions) = s ∷ remove i sessions

unfoldable pub hex_digit : ℕ → ℕ
hex_digit d = if ltb d 10 then b'0' + d else b'a' + (d - 10)

-- `{b:02x}` of each byte.
unfoldable pub hex : Bytes → Bytes
unfolding hex_digit
hex [] = []
hex (b ∷ bytes) = hex_digit (b / 16) ∷ hex_digit (b % 16) ∷ hex bytes

-- The part of `issue` behind the random bytes.
unfoldable pub admitted : ℕ → Bytes → List Session → List Session
unfolding unexpired oldest remove
admitted now token sessions =
    let live = unexpired now sessions in
    let room = if leb session_limit (length live) then remove (oldest live) live else live in
    room ++ (record { token = token; deadline = deadline_from now } ∷ [])

-- `random` is what /dev/urandom gave, `wall` the epoch seconds, not below zero. The answer is the
-- token and when it expires, if there were random bytes.
unfoldable pub issue : ℕ → ℕ → Option Bytes → List Session → List Session × Option (Bytes × ℕ)
unfolding admitted hex
issue now wall none sessions = (sessions, none)
issue now wall (some random) sessions =
    (admitted now (hex random) sessions, some (hex random, saturating_add_u64 wall session_ttl))
