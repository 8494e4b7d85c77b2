-- ===== src/Sessions/Issue.antt =====
-- A token is accepted until its session ends.
use zwrt_datad.Prelude.{ℕ, ◌+◌, ◌*◌, ◌<◌, ◌^◌, ◌≡◌, true, some, List, [], ◌∷◌, ◌++◌, arith}
use zwrt_datad.Prelude.Text.{Bytes}
use zwrt_datad.Sessions.{
  Session, session_ttl, second, deadline_from, unexpired, renew, validate, admitted, issue, hex,
}
use zwrt_datad.Sessions.Compare.{secure_eq-same}

validate-append :
    (now deadline : ℕ) (sessions : List Session) (s : Session)
    → now < s.deadline
    → (renew s.token deadline (unexpired now (sessions ++ (s ∷ [])))).1 ≡ true
unfolding unexpired renew
validate-append now deadline [] s l = ground (arith, secure_eq-same s.token)
validate-append now deadline (x ∷ sessions) s l =
    ground (arith, validate-append now deadline sessions s l)

-- Where twelve hours from now are within the range of `Duration`: the token that `issue` gives is
-- accepted at every time within twelve hours, if no call comes between.
pub validate-issue :
    (now wall : ℕ) (random : Bytes) (sessions : List Session) (later : ℕ)
    → now + session_ttl * second < 2 ^ 64 * second
    → later < now + session_ttl * second
    → (validate later (hex random) (issue now wall (some random) sessions).0).1 ≡ true
unfolding validate issue
validate-issue now wall random sessions later r l =
    unfold admitted in
    validate-append later (deadline_from later) _
      (record { token = hex random; deadline = deadline_from now })
      (unfold deadline_from in omega arith)
