-- ===== src/Sessions/Trace.antt =====
-- The calls that the server makes of the sessions, in any order, and the tokens that they let in.
use zwrt_datad.Prelude.{
  ℕ, ◌+◌, ◌*◌, ◌<◌, ◌≡◌, Bool, true, false, Option, none, some, List, [], ◌∷◌, ◌⊎◌,
}
use zwrt_datad.Prelude.Text.{Bytes}
use zwrt_datad.Sessions.{Session, session_ttl, second, validate, issue}

pub data Call : Type 0 where
  issued : (wall : ℕ) (random : Option Bytes) → Call
  validated : Bytes → Call

pub record Sample : Type 0 where
  pub now : ℕ
  pub call : Call

-- The table, and the tokens that were issued or accepted with the time at which they were.
pub record World : Type 0 where
  pub sessions : List Session
  pub uses : List (Bytes × ℕ)

unfoldable pub noted : ℕ → List (Bytes × ℕ) → List Session × Option (Bytes × ℕ) → World
noted now uses (sessions, none) = record { sessions = sessions; uses = uses }
noted now uses (sessions, some (token, expires)) = record {
  sessions = sessions;
  uses = (token, now) ∷ uses;
}

unfoldable pub accepted : ℕ → Bytes → List (Bytes × ℕ) → List Session × Bool → World
accepted now token uses (sessions, false) = record { sessions = sessions; uses = uses }
accepted now token uses (sessions, true) = record {
  sessions = sessions;
  uses = (token, now) ∷ uses;
}

unfoldable pub apply : ℕ → Call → World → World
unfolding noted accepted
apply now (issued wall random) w = noted now w.uses (issue now wall random w.sessions)
apply now (validated token) w = accepted now token w.uses (validate now token w.sessions)

unfoldable pub run : World → List Sample → World
unfolding apply
run w [] = w
run w (s ∷ samples) = run (apply s.now s.call w) samples

-- `token` was issued or accepted less than twelve hours before `now`.
abbrev pub IsRecent : Bytes → ℕ → List (Bytes × ℕ) → Type 0
IsRecent token now [] = ⊥
IsRecent token now ((t, at) ∷ uses) =
    ((t ≡ token) × (now < at + session_ttl * second)) ⊎ IsRecent token now uses
