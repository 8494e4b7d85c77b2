-- ===== src/Device/Paced.antt =====
-- How often a password is tried at the vendor's service.
use zwrt_datad.Prelude.{
  ℕ, ◌≤◌, ◌≡◌, refl, sym, subst, ◌⊎◌, inl, inr, true, false, List, [], ◌∷◌, ◌++◌, leb, arith,
  length, All, All-append, length-append, Bool-cases, Option-cases,
}
use zwrt_datad.Prelude.Text.{Bytes}
use zwrt_datad.Json.{Value}
use mathlib.Core.List.{append_assoc}
use zwrt_datad.Device.{
  State, Vendor, Answer, answered, failed, initial, max_attempts, valid_password, recent, tried,
  login, concluded, active, checked, locked, salt_of,
}
use zwrt_datad.Device.Trace.{
  Event, logged_in, queried, Sample, step, login_calls, is_called, vendor_calls,
}
use zwrt_datad.Device.Attempts.{
  ArePaced, NeverFalls, Rises, recent-All, All-weaken, All-raise, length-recent, recent-Rises,
  Rises-append, recent-ArePaced,
}

concluded-attempts :
    (vendor : Vendor) (s : State) (reply : Answer)
    → (concluded vendor s reply).0.attempts ≡ s.attempts
unfolding concluded
concluded-attempts vendor s reply = ground arith

pub Answer-cases : (a : Answer) → ((v : Value) × (a ≡ answered v)) ⊎ ((e : Bytes) × (a ≡ failed e))
Answer-cases (answered v) = inl (v, refl)
Answer-cases (failed e) = inr (e, refl)

tried-attempts :
    (sha : Bytes → Bytes) (vendor : Vendor) (s : State) (password : Bytes)
    → (tried sha vendor s password).0.attempts ≡ s.attempts
unfolding tried
tried-attempts sha vendor s password = elim (Answer-cases vendor.info) [
  | inr (error, e) ↦ rw (tried, e)
  | inl (info, e) ↦ elim (Bool-cases (locked info)) [
    | inl l ↦ rw (tried, e, l)
    | inr l ↦ elim (Option-cases (salt_of info)) [
      | inl o ↦ rw (tried, e, l, o)
      | inr (salt, o) ↦ rw (tried, e, l, o) (concluded-attempts vendor s _)
    ]
  ]
]

-- A try makes a call, whatever the answers.
tried-is_called :
    (sha : Bytes → Bytes) (vendor : Vendor) (s : State) (password : Bytes)
    → is_called (tried sha vendor s password).1 ≡ true
unfolding tried
tried-is_called sha vendor s password = elim (Answer-cases vendor.info) [
  | inr (error, e) ↦ rw (tried, e)
  | inl (info, e) ↦ elim (Bool-cases (locked info)) [
    | inl l ↦ rw (tried, e, l)
    | inr l ↦ elim (Option-cases (salt_of info)) [
      | inl o ↦ rw (tried, e, l, o)
      | inr (salt, o) ↦ rw (tried, e, l, o)
    ]
  ]
]

active-attempts : (listed : Answer) (s : State) → (active listed s).0.attempts ≡ s.attempts
unfolding active checked
active-attempts listed s = ground arith

-- What the attempts keep: three at most, in order, none in the future.
record AreKept (t : ℕ) (attempts : List ℕ) : Type 0 where
  rising : Rises attempts
  past : All (λ b. b ≤ t) attempts
  few : length attempts ≤ 3

few-ArePaced : (times : List ℕ) → length times ≤ 3 → ArePaced (times ++ [])
few-ArePaced [] n = tt
few-ArePaced (a ∷ []) n = (tt, tt)
few-ArePaced (a ∷ b ∷ []) n = (tt, (tt, tt))
few-ArePaced (a ∷ b ∷ c ∷ []) n = (tt, (tt, (tt, tt)))
few-ArePaced (a ∷ b ∷ c ∷ d ∷ times) n = absurd (omega arith)

recent-AreKept :
    (t now : ℕ) (times : List ℕ) → t ≤ now → AreKept t times → AreKept now (recent now times)
recent-AreKept t now times l k = record {
  rising = recent-Rises now times k.rising;
  past = recent-All (λ b. b ≤ now) now times (All-raise t now times l k.past);
  few = omega (arith, k.few, length-recent now times);
}

called-AreKept :
    (now : ℕ) (times : List ℕ)
    → length times ≤ 2
    → AreKept now times
    → AreKept now (times ++ (now ∷ []))
called-AreKept now times n k = record {
  rising = Rises-append now times k.past k.rising;
  past = All-append (λ b. b ≤ now) times (now ∷ []) k.past (omega arith, tt);
  few = omega (arith, length-append times (now ∷ []));
}

module _ (sha : Bytes → Bytes) where
  -- What a call does to the attempts.
  abbrev Attempted : ℕ → Event → State → Type 0
  Attempted now e s =
      ((is_called (login_calls sha now e s) ≡ true)
        × ((step sha now e s).attempts ≡ recent now s.attempts ++ (now ∷ []))
        × (length (recent now s.attempts) ≤ 2))
      ⊎ ((is_called (login_calls sha now e s) ≡ false)
          × (((step sha now e s).attempts ≡ s.attempts)
              ⊎ ((step sha now e s).attempts ≡ recent now s.attempts)))

  step-Attempted : (now : ℕ) (e : Event) (s : State) → Attempted now e s
  unfolding step login_calls login
  step-Attempted now (queried listed) s = inr (refl, inl (active-attempts listed s))
  step-Attempted now (logged_in vendor password) s = elim (Bool-cases (valid_password password)) [
    | inr v ↦ rw (login_calls, step, login, v) (inr (refl, inl refl))
    | inl v ↦ elim (Bool-cases (leb max_attempts (length (recent now s.attempts)))) [
      | inl l ↦ rw (login_calls, step, login, v, l) (inr (refl, inr refl))
      | inr l ↦
          rw (login_calls, step, login, v, l)
            (inl (
              tried-is_called sha vendor _ password,
              tried-attempts sha vendor _ password,
              ground (arith, l),
            ))
    ]
  ]

  vendor_calls-above :
      (t : ℕ) (s : State) (samples : List Sample)
      → NeverFalls t samples
      → All (λ b. t ≤ b) (vendor_calls sha s samples)
  unfolding vendor_calls
  vendor_calls-above t s [] n = tt
  vendor_calls-above t s (p ∷ samples) (l, n) =
      let rest = vendor_calls-above p.now (step sha p.now p.event s) samples n in
      let higher = All-weaken t p.now _ l rest in
      elim (Bool-cases (is_called (login_calls sha p.now p.event s))) [
        | inl e ↦ rw e (l, higher)
        | inr e ↦ rw e higher
      ]

  vendor_calls-ArePaced :
      (t : ℕ) (s : State) (samples : List Sample)
      → NeverFalls t samples
      → AreKept t s.attempts
      → ArePaced (s.attempts ++ vendor_calls sha s samples)
  unfolding vendor_calls
  vendor_calls-ArePaced t s [] n k = few-ArePaced s.attempts k.few
  vendor_calls-ArePaced t s (p ∷ samples) (l, n) k =
      let s' = step sha p.now p.event s in
      let later = vendor_calls sha s' samples in
      let above = vendor_calls-above p.now s' samples n in
      let kept = recent-AreKept t p.now s.attempts l k in
      elim (step-Attempted p.now p.event s) [
        | inl (r, a, f) ↦
            let next : AreKept p.now s'.attempts =
              subst (AreKept p.now) (sym a)
                (called-AreKept p.now (recent p.now s.attempts) f kept) in
            let rest : ArePaced (recent p.now s.attempts ++ (p.now ∷ later)) = rw append_assoc at (
              subst (λ ts. ArePaced (ts ++ later)) a
                (vendor_calls-ArePaced p.now s' samples n next)) in
            rw r (
              recent-ArePaced p.now s.attempts (p.now ∷ later) k.rising k.few (omega arith, above)
                rest)
        | inr (r, inl a) ↦
            let next : AreKept p.now s'.attempts = subst (AreKept p.now) (sym a) (record {
              rising = k.rising;
              past = All-raise t p.now s.attempts l k.past;
              few = k.few;
            }) in
            let rest : ArePaced (s.attempts ++ later) =
              subst (λ ts. ArePaced (ts ++ later)) a
                (vendor_calls-ArePaced p.now s' samples n next) in
            rw r rest
        | inr (r, inr a) ↦
            let next : AreKept p.now s'.attempts = subst (AreKept p.now) (sym a) kept in
            let rest : ArePaced (recent p.now s.attempts ++ later) =
              subst (λ ts. ArePaced (ts ++ later)) a
                (vendor_calls-ArePaced p.now s' samples n next) in
            rw r (recent-ArePaced p.now s.attempts later k.rising k.few above rest)
      ]

-- From the start, under any calls whose times never fall and whatever the vendor answers: of any four
-- logins in a row that make a call of the vendor's services, the last is at least 60 seconds behind the first.
pub logins-ArePaced :
    (sha : Bytes → Bytes) (samples : List Sample)
    → NeverFalls 0 samples
    → ArePaced (vendor_calls sha initial samples)
logins-ArePaced sha samples n =
    vendor_calls-ArePaced sha 0 initial samples n
      (record { rising = tt; past = tt; few = omega arith })
