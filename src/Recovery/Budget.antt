-- ===== src/Recovery/Budget.antt =====
-- No hour sees more than five planned actions.
mod Times
use Times.{Effect, apply-Effect}
use zwrt_datad.Prelude.{
  ℕ, ◌+◌, ◌-◌, ◌≤◌, ◌<◌, ◌≡◌, refl, ◌⊎◌, inl, inr, Bool, true, false, Option, none, some, List, [],
  ◌∷◌, ◌++◌, map, arith, ltb, length, retain, All, Bool-cases, if◌then◌else◌,
}
use zwrt_datad.Recovery.Probe.{Parsers}
use zwrt_datad.Recovery.State.{Recovery, Plan, DiskFile, default_config, valid, load}
use zwrt_datad.Recovery.Trace.{Sample, step, run, IsMonotone, planned_at, plan_times}
use zwrt_datad.Recovery.Invariant.{Inv, apply-Inv, load-Inv}

-- How many of the times lie in the hour that ends at `w`.
abbrev pub in_hour : ℕ → List ℕ → ℕ
in_hour w times = length (retain (λ at. ltb (w - at) 3600) times)

in_hour-append : (w : ℕ) (xs ys : List ℕ) → in_hour w (xs ++ ys) ≡ in_hour w xs + in_hour w ys
in_hour-append w [] ys = omega arith
in_hour-append w (x ∷ xs) ys = ground (arith, in_hour-append w xs ys)

in_hour-le : (w : ℕ) (xs : List ℕ) → in_hour w xs ≤ length xs
in_hour-le w [] = omega arith
in_hour-le w (x ∷ xs) = ground (arith, in_hour-le w xs)

-- What is dropped at `now` is not in a later hour.
in_hour-retain :
    (w now : ℕ) (xs : List ℕ)
    → now ≤ w
    → in_hour w (retain (λ at. ltb (now - at) 3600) xs) ≡ in_hour w xs
in_hour-retain w now [] h = refl
in_hour-retain w now (x ∷ xs) h = ground (arith, in_hour-retain w now xs h)

in_hour-fill :
    (w now : ℕ) (xs : List ℕ) → w - now < 3600 → in_hour w (map (λ _. now) xs) ≡ length xs
in_hour-fill w now [] h = refl
in_hour-fill w now (x ∷ xs) h = ground (arith, in_hour-fill w now xs h)

in_hour-past : (w now : ℕ) (xs : List ℕ) → All (λ x. x ≤ now) xs → 3600 ≤ w - now → in_hour w xs ≡ 0
in_hour-past w now [] a h = refl
in_hour-past w now (x ∷ xs) (hx, a) h = ground (arith, in_hour-past w now xs a h)

-- `history` holds the planned times so far, up to `t`: in every later hour the stored action times
-- count at least as many.
record Covers (history actions : List ℕ) (t : ℕ) : Type 0 where
  past : All (λ x. x ≤ t) history
  counted : (w : ℕ) → t ≤ w → in_hour w history ≤ in_hour w actions

All-le : (xs : List ℕ) {t now : ℕ} → t ≤ now → All (λ x. x ≤ t) xs → All (λ x. x ≤ now) xs
All-le [] h a = tt
All-le (x ∷ xs) h (hx, a) = (omega arith, All-le xs h a)

Covers-later :
    (history actions : List ℕ) {t now : ℕ}
    → t ≤ now
    → Covers history actions t
    → Covers history actions now
Covers-later history actions h c = record {
  past = All-le history h c.past;
  counted = λ w hw. c.counted w (omega arith);
}

Covers-fill :
    (history actions : List ℕ) (now : ℕ)
    → Covers history actions now
    → Covers history (map (λ _. now) actions) now
Covers-fill history actions now c = record {
  past = c.past;
  counted = λ w hw. elim (Bool-cases (ltb (w - now) 3600)) [
    | inl near ↦
        omega
          (arith, in_hour-fill w now actions (ground arith), in_hour-le w actions, c.counted w hw)
    | inr far ↦ omega (arith, in_hour-past w now history c.past (ground arith))
  ];
}

Covers-act :
    (history actions : List ℕ) (now : ℕ)
    → Covers history actions now
    → Covers (now ∷ history) (retain (λ at. ltb (now - at) 3600) actions ++ (now ∷ [])) now
Covers-act history actions now c = record {
  past = (omega arith, c.past);
  counted = λ w hw. ground (
    arith,
    in_hour-append w (retain (λ (at : ℕ). ltb (now - at) 3600) actions) (now ∷ []),
    in_hour-retain w now actions,
    c.counted w,
  );
}

-- The history with what the operation planned.
Covers-step :
    (history before after : List ℕ) (now : ℕ) (plan : Option Plan)
    → Effect now before after plan
    → Covers history before now
    → Covers (planned_at now plan history) after now
Covers-step history before after now plan (Effect.kept n k) c = rw (n, k) c
Covers-step history before after now plan (Effect.filled n k) c =
    rw (n, k) (Covers-fill history before now c)
Covers-step history before after now plan (Effect.acted base p (inl e) n k) c =
    rw (n, k, e) (Covers-act history before now c)
Covers-step history before after now plan (Effect.acted base p (inr e) n k) c =
    rw (n, k, e) (Covers-act history (map (λ _. now) before) now (Covers-fill history before now c))

module _ (parsers : Parsers) where
  in_hour-planned_at :
      (w now : ℕ) (plan : Option Plan) (xs ys : List ℕ)
      → in_hour w (planned_at now plan xs) + in_hour w ys
        ≡ in_hour w xs + in_hour w (planned_at now plan ys)
  in_hour-planned_at w now none xs ys = refl
  in_hour-planned_at w now (some p) xs ys = ground arith

  in_hour-plan_times :
      (r : Recovery) (samples : List Sample) (history : List ℕ) (t w : ℕ)
      → Inv parsers r
      → Covers history r.stored.action_times t
      → IsMonotone t samples
      → t ≤ w
      → All (λ s. s.now ≤ w) samples
      → in_hour w history + in_hour w (plan_times parsers r samples) ≤ 5
  unfolding plan_times
  in_hour-plan_times r [] history t w i c m h a =
      omega (arith, c.counted w h, in_hour-le w r.stored.action_times, i.actions_le)
  in_hour-plan_times r (s ∷ samples) history t w i c (mt, m) h (hs, a) =
      let (r', plan) = step parsers r s in
      omega (
        arith,
        in_hour-planned_at w s.now plan history (plan_times parsers r' samples),
        in_hour-plan_times r' samples (planned_at s.now plan history) s.now w
            (apply-Inv parsers s.surroundings s.now s.event r i)
            (Covers-step history r.stored.action_times r'.stored.action_times s.now plan
              (apply-Effect parsers s.surroundings s.now s.event r)
              (Covers-later history r.stored.action_times mt c))
            m hs a,
      )

  -- Where the default settings are valid: from whatever the file held at the start, under any calls
  -- whose times never fall, with saves that fail or not and clock changes or not, the hour that ends
  -- at the last call or later holds at most five planned actions.
  pub hourly_limit :
      (file : DiskFile) (started clock_generation : ℕ) (samples : List Sample) (w : ℕ)
      → valid parsers default_config ≡ true
      → IsMonotone 0 samples
      → All (λ s. s.now ≤ w) samples
      → in_hour w (plan_times parsers (load parsers file started clock_generation) samples) ≤ 5
  hourly_limit file started g samples w h m a = omega (
    arith,
    in_hour-plan_times (load parsers file started g) samples [] 0 w
        (load-Inv parsers file started g h) (record { past = tt; counted = λ v hv. omega arith }) m
        (omega arith) a,
  )
