-- ===== src/Sessions/Recent.antt =====
-- A token that is accepted was issued or accepted less than twelve hours before.
use zwrt_datad.Prelude.{
  ℕ, ◌≤◌, ◌<◌, ◌≡◌, refl, Bool, true, false, Option, none, some, List, [], ◌∷◌, arith, length,
  length-append, length-retain, All, All-append, All-retain, Bool-cases, inl, inr, ◌⊎◌, leb, ltb,
  leb→le, ltb→lt, sym, subst, if◌then◌else◌,
}
use zwrt_datad.Prelude.Text.{Bytes}
use zwrt_datad.Sessions.{
  Session, session_limit, deadline_from, secure_eq, unexpired, renew, validate, oldest, remove,
  admitted, issue, hex,
}
use zwrt_datad.Sessions.Trace.{
  Call, issued, validated, Sample, World, accepted, apply, run, IsRecent,
}
use zwrt_datad.Sessions.Table.{
  All-remove, All-map, All-renew, length-renew, renew-found, length-remove, oldest_lt,
}

-- A use from which the session has its token and its deadline.
abbrev IsBacked : List (Bytes × ℕ) → Session → Type 0
IsBacked [] s = ⊥
IsBacked ((t, at) ∷ uses) s = ((t ≡ s.token) × (s.deadline ≤ deadline_from at)) ⊎ IsBacked uses s

IsBacked-IsRecent :
    (uses : List (Bytes × ℕ)) (s : Session) (now : ℕ)
    → now < s.deadline
    → IsBacked uses s
    → IsRecent s.token now uses
unfolding deadline_from
IsBacked-IsRecent [] s now l b = b
IsBacked-IsRecent ((t, at) ∷ uses) s now l (inl (e, d)) = inl (e, omega arith)
IsBacked-IsRecent ((t, at) ∷ uses) s now l (inr b) = inr (IsBacked-IsRecent uses s now l b)

record Inv (w : World) : Type 0 where
  backed : All (IsBacked w.uses) w.sessions
  at_most : length w.sessions ≤ 16

module _ (now : ℕ) where
  live_at_most : (sessions : List Session) → length (unexpired now sessions) ≤ length sessions
  unfolding unexpired
  live_at_most sessions = length-retain (λ s. ltb now s.deadline) sessions

  All-unexpired :
      (P : Session → Type 0) (sessions : List Session)
      → All P sessions
      → All P (unexpired now sessions)
  unfolding unexpired
  All-unexpired P sessions a = All-retain P (λ s. ltb now s.deadline) sessions a

  -- What is left once there is room for one more.
  made_room : List Session → List Session
  made_room live = if leb session_limit (length live) then remove (oldest live) live else live

  length-made_room : (live : List Session) → length live ≤ 16 → length (made_room live) ≤ 15
  unfolding made_room
  length-made_room live l = elim (Bool-cases (leb session_limit (length live))) [
    | inl e ↦ rw e (
        omega (
          arith,
          length-remove (oldest live) live
              (oldest_lt live (omega (arith, leb→le session_limit (length live) e))),
        ))
    | inr e ↦ rw e (ground (arith, e))
  ]

  All-made_room : (P : Session → Type 0) (live : List Session) → All P live → All P (made_room live)
  unfolding made_room
  All-made_room P live a = elim (Bool-cases (leb session_limit (length live))) [
    | inl e ↦ rw e (All-remove P (oldest live) live a)
    | inr e ↦ rw e a
  ]

  fresh : Bytes → Session
  fresh token = record { token = token; deadline = deadline_from now }

  length-admitted :
      (token : Bytes) (sessions : List Session)
      → length sessions ≤ 16
      → length (admitted now token sessions) ≤ 16
  unfolding admitted made_room fresh
  length-admitted token sessions l = omega (
    arith,
    length-append (made_room (unexpired now sessions)) (fresh token ∷ []),
    length-made_room (unexpired now sessions) (omega (arith, live_at_most sessions)),
  )

  All-admitted :
      (P : Session → Type 0) (token : Bytes) (sessions : List Session)
      → P (fresh token)
      → All P sessions
      → All P (admitted now token sessions)
  unfolding admitted made_room fresh
  All-admitted P token sessions h a =
      All-append P _ _ (All-made_room P (unexpired now sessions) (All-unexpired P sessions a))
        (h, tt)

  issue-Inv :
      (wall : ℕ) (random : Option Bytes) (w : World)
      → Inv w
      → Inv (apply now (issued wall random) w)
  unfolding apply issue fresh
  issue-Inv wall none w i = i
  issue-Inv wall (some random) w i = record {
    backed =
        All-admitted _ (hex random) w.sessions (inl (refl, omega arith))
          (All-map _ _ w.sessions (λ s b. inr b) i.backed);
    at_most = length-admitted (hex random) w.sessions i.at_most;
  }

  accepted-Inv :
      (token : Bytes) (w : World) (found : Bool) (sessions : List Session)
      → Inv w
      → length sessions ≤ 16
      → All (IsBacked ((token, now) ∷ w.uses)) sessions
      → ((found ≡ false) → All (IsBacked w.uses) sessions)
      → Inv (accepted now token w.uses (sessions, found))
  unfolding accepted
  accepted-Inv token w true sessions i l a b = record { backed = a; at_most = l }
  accepted-Inv token w false sessions i l a b = record { backed = b refl; at_most = l }

  unfound-renew :
      (P : Session → Type 0) (token : Bytes) (deadline : ℕ) (sessions : List Session)
      → All P sessions
      → (renew token deadline sessions).1 ≡ false
      → All P (renew token deadline sessions).0
  unfolding renew
  unfound-renew P token deadline [] a h = tt
  unfound-renew P token deadline (s ∷ sessions) (p, a) h =
      elim (Bool-cases (secure_eq s.token token)) [
        | inl e ↦ absurd (ground (arith, e, h))
        | inr e ↦ rw e (p, unfound-renew P token deadline sessions a (ground (arith, e, h)))
      ]

  validate-Inv : (token : Bytes) (w : World) → Inv w → Inv (apply now (validated token) w)
  unfolding apply validate
  validate-Inv token w i =
      let live = unexpired now w.sessions in
      let a = All-unexpired (IsBacked w.uses) w.sessions i.backed in
      accepted-Inv token w (renew token (deadline_from now) live).1
        (renew token (deadline_from now) live).0 i
        (omega
          (arith, length-renew token (deadline_from now) live, live_at_most w.sessions, i.at_most))
        (All-renew _ token (deadline_from now) live (λ s e. inl (sym e, omega arith))
          (All-map _ _ live (λ s b. inr b) a))
        (unfound-renew (IsBacked w.uses) token (deadline_from now) live a)

  apply-Inv : (call : Call) (w : World) → Inv w → Inv (apply now call w)
  apply-Inv (issued wall random) w i = issue-Inv wall random w i
  apply-Inv (validated token) w i = validate-Inv token w i

run-Inv : (w : World) (samples : List Sample) → Inv w → Inv (run w samples)
unfolding run
run-Inv w [] i = i
run-Inv w (s ∷ samples) i = run-Inv (apply s.now s.call w) samples (apply-Inv s.now s.call w i)

live-All :
    (P : Session → Type 0) (now : ℕ) (sessions : List Session)
    → All P sessions
    → All (λ s. (now < s.deadline) × P s) (unexpired now sessions)
unfolding unexpired
live-All P now [] a = tt
live-All P now (s ∷ sessions) (h, a) = elim (Bool-cases (ltb now s.deadline)) [
  | inl e ↦ rw e ((ltb→lt now s.deadline e, h), live-All P now sessions a)
  | inr e ↦ rw e (live-All P now sessions a)
]

accepted-IsRecent :
    (w : World)
    → Inv w
    → (now : ℕ) (token : Bytes) → (validate now token w.sessions).1 ≡ true
    → IsRecent token now w.uses
unfolding validate
accepted-IsRecent w i now token h =
    let (s, e, (l, b)) =
      renew-found (λ s. (now < s.deadline) × IsBacked w.uses s) token (deadline_from now)
        (unexpired now w.sessions) h (live-All (IsBacked w.uses) now w.sessions i.backed) in
    subst (λ t. IsRecent t now w.uses) e (IsBacked-IsRecent w.uses s now l b)

-- Nothing is issued yet.
abbrev pub empty_world : World
empty_world = record { sessions = []; uses = [] }

-- From an empty table, after any calls: a token that is accepted was issued or accepted less than
-- twelve hours before, by the clock of the calls, and the table holds 16 sessions at most.
pub validate-IsRecent :
    (samples : List Sample) (now : ℕ) (token : Bytes)
    → (validate now token (run empty_world samples).sessions).1 ≡ true
    → IsRecent token now (run empty_world samples).uses
      × (length (run empty_world samples).sessions ≤ 16)
validate-IsRecent samples now token h =
    let w = run empty_world samples in
    let i = run-Inv empty_world samples (record { backed = tt; at_most = omega arith }) in
    (accepted-IsRecent w i now token h, i.at_most)
