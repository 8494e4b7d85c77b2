-- ===== src/Device/Opened.antt =====
-- What a login leaves, and when the session is known.
use zwrt_datad.Prelude.{
  ◌≡◌, refl, ◌∙◌, ◌||◌, ◌⊎◌, inl, inr, Bool, true, false, Option, none, some, List, [], ◌∷◌, leb,
  length, ℕ, arith, Bool-cases, Option-cases,
}
use zwrt_datad.Prelude.Text.{Bytes}
use zwrt_datad.Json.{Value}
use zwrt_datad.Device.{
  State, Session, VendorCall, LoginError, Vendor, Answer, answered, failed, initial, max_attempts,
  valid_password, recent, id_valid, session_id, accepted_id, locked, salt_of, concluded, tried,
  login, active,
}
use zwrt_datad.Device.Trace.{Event, logged_in, queried, Sample, step, run}
use zwrt_datad.Device.Paced.{Answer-cases}

-- A login that fails keeps the session and what is known of it; one that succeeds has a session of the
-- vendor's with a valid id, which has not expired.
abbrev pub Opens : State → State × List VendorCall × Option LoginError → Type 0
Opens s r =
    (((error : LoginError) × (r.2 ≡ some error))
      × (r.0.session ≡ s.session)
      × (r.0.expired ≡ s.expired))
    ⊎ ((r.2 ≡ none)
        × ((session : Session) × (r.0.session ≡ some session) × (id_valid session.id ≡ true))
        × (r.0.expired ≡ false))

session_id-id_valid : (reply : Value) (id : Bytes) → session_id reply ≡ some id → id_valid id ≡ true
unfolding session_id
session_id-id_valid reply id h = ground arith

accepted_id-id_valid :
    (reply : Answer) (id : Bytes) → accepted_id reply ≡ some id → id_valid id ≡ true
unfolding accepted_id
accepted_id-id_valid (answered value) id h = ground (arith, session_id-id_valid value id)
accepted_id-id_valid (failed error) id h = cc h

concluded-Opens :
    (vendor : Vendor) (s : State) (reply : Answer) → Opens s (concluded vendor s reply)
unfolding concluded
concluded-Opens vendor s reply = elim (Option-cases (accepted_id reply)) [
  | inl e ↦ rw (concluded, e) (inl ((_, refl), refl, refl))
  | inr (id, e) ↦ rw (concluded, e) (inr (refl, (_, refl, accepted_id-id_valid reply id e), refl))
]

tried-Opens :
    (sha : Bytes → Bytes) (vendor : Vendor) (s : State) (password : Bytes)
    → Opens s (tried sha vendor s password)
unfolding tried
tried-Opens sha vendor s password = elim (Answer-cases vendor.info) [
  | inr (error, e) ↦ rw (tried, e) (inl ((_, refl), refl, refl))
  | inl (info, e) ↦ elim (Bool-cases (locked info)) [
    | inl l ↦ rw (tried, e, l) (inl ((_, refl), refl, refl))
    | inr l ↦ elim (Option-cases (salt_of info)) [
      | inl o ↦ rw (tried, e, l, o) (inl ((_, refl), refl, refl))
      | inr (salt, o) ↦ rw (tried, e, l, o) (concluded-Opens vendor s _)
    ]
  ]
]

-- Whatever the vendor answers: a login that fails keeps the session and what is known of it; one that
-- succeeds leaves a session with an id of 8 to 64 letters and digits, which has not expired.
pub login-Opens :
    (sha : Bytes → Bytes) (vendor : Vendor) (now : ℕ) (s : State) (password : Bytes)
    → Opens s (login sha vendor now s password)
unfolding login
login-Opens sha vendor now s password = elim (Bool-cases (valid_password password)) [
  | inr v ↦ rw (login, v) (inl ((_, refl), refl, refl))
  | inl v ↦ elim (Bool-cases (leb max_attempts (length (recent now s.attempts)))) [
    | inl l ↦ rw (login, v, l) (inl ((_, refl), refl, refl))
    | inr l ↦ rw (login, v, l) (tried-Opens sha vendor _ password)
  ]
]

module _ (sha : Bytes → Bytes) where
  -- Whether the call is a login that succeeds.
  unfoldable pub succeeds : ℕ → Event → State → Bool
  succeeds now (logged_in vendor password) s = elim (login sha vendor now s password).2 [
    | none ↦ true
    | some error ↦ false
  ]
  succeeds now (queried listed) s = false

  unfoldable pub has_succeeded : State → List Sample → Bool
  unfolding succeeds
  has_succeeded s [] = false
  has_succeeded s (p ∷ samples) =
      succeeds p.now p.event s || has_succeeded (step sha p.now p.event s) samples

  record IsUntouched (s : State) : Type 0 where
    no_session : s.session ≡ none
    not_expired : s.expired ≡ false

  active-IsUntouched : (listed : Answer) (s : State) → IsUntouched s → active listed s ≡ (s, none)
  unfolding active
  active-IsUntouched listed s u = simp (active, u.not_expired, u.no_session)

  step-IsUntouched :
      (now : ℕ) (e : Event) (s : State)
      → succeeds now e s ≡ false
      → IsUntouched s
      → IsUntouched (step sha now e s)
  unfolding step succeeds
  step-IsUntouched now (queried listed) s f u = rw (step, active-IsUntouched listed s u) u
  step-IsUntouched now (logged_in vendor password) s f u =
      elim (login-Opens sha vendor now s password) [
        | inl ((error, e), k, x) ↦ record {
          no_session = k ∙ u.no_session;
          not_expired = x ∙ u.not_expired;
        }
        | inr (e, o, x) ↦ absurd (cc (rw (succeeds, e) at f))
      ]

  run-IsUntouched :
      (s : State) (samples : List Sample)
      → has_succeeded s samples ≡ false
      → IsUntouched s
      → IsUntouched (run sha s samples)
  unfolding run has_succeeded
  run-IsUntouched s [] f u = u
  run-IsUntouched s (p ∷ samples) f u =
      run-IsUntouched (step sha p.now p.event s) samples (ground (arith, f))
        (step-IsUntouched p.now p.event s (ground (arith, f)) u)

  -- As long as no login has succeeded since the start, whatever the vendor answers, the session is
  -- unknown: neither there nor expired.
  pub active-unknown :
      (samples : List Sample) (listed : Answer)
      → has_succeeded initial samples ≡ false
      → (active listed (run sha initial samples)).1 ≡ none
  active-unknown samples listed f =
      let u =
        run-IsUntouched initial samples f (record { no_session = refl; not_expired = refl }) in
      rw (active-IsUntouched listed (run sha initial samples) u)
