-- ===== src/Recovery/Pause.antt =====
-- What an operator's own action does to plans: those made before it are void, and a disconnect or a
-- poweroff pauses the recovery until a connect or a resume.
use zwrt_datad.Prelude.{
  ℕ, ◌<◌, ◌^◌, ◌≡◌, ◌≢◌, ◌⊎◌, inl, inr, refl, Bool, true, false, Option, none, some, List, [], ◌∷◌,
  arith, All,
}
use zwrt_datad.Prelude.Text.{Bytes, codes, text_eq, one_of}
use zwrt_datad.Recovery.Probe.{Parsers}
use zwrt_datad.Recovery.State.{Config, Recovery, Plan, Surroundings}
use zwrt_datad.Recovery.Trace.{
  Event, configure, resumed, intended, checked, probing, held, measured, Sample, apply, step, run,
  plan_times,
}
use zwrt_datad.Recovery.{
  reserve_check, update, resume, manual_intent, after_clock_change, resync, may_probe, gate, hold,
  observed, observe, store, commit, resynced, allows, paused_by, bool_eq,
}

fails_or {ℓ} : {A : Type ℓ} {B : Type 0} (x : Option A) → (x ≡ none → B) → (x ≢ none) ⊎ B
fails_or none f = inr (f refl)
fails_or (some a) f = inl (λ e. cc e)

-- After `update`, `resume` or `manual_intent`, unless it fails, a plan of before is not allowed.
pub stale_plan :
    (parsers : Parsers) (env : Surroundings) (r : Recovery) (plan : Plan) (c : Config)
    (action : Bytes) (now : ℕ)
    → r.generation < 2 ^ 64
    → plan.generation ≡ r.generation
    → (((update parsers env r c now).1 ≢ none)
        ⊎ (allows (update parsers env r c now).0 plan ≡ false))
      × (((resume env r now).1 ≢ none) ⊎ (allows (resume env r now).0 plan ≡ false))
      × (((manual_intent env r action now).1 ≢ none)
          ⊎ (allows (manual_intent env r action now).0 plan ≡ false))
unfolding update resume manual_intent store commit allows
stale_plan parsers env r plan c action now h e = (
  fails_or (update parsers env r c now).1 (λ u. ground arith),
  fails_or (resume env r now).1 (λ u. ground arith),
  fails_or (manual_intent env r action now).1 (λ u. ground arith),
)

-- The calls that do not end a pause.
abbrev pub LeavesPause : Event → Type 0
LeavesPause resumed = ⊥
LeavesPause (intended action) = text_eq action (codes "cellular.connect") ≡ false
LeavesPause _ = Unit

IsPaused : Recovery → Type 0
IsPaused r = r.stored.paused ≡ true

resync-paused :
    (env : Surroundings) (r : Recovery) (now : ℕ)
    → (resync env r now).0.stored.paused ≡ r.stored.paused
unfolding resync store resynced after_clock_change
resync-paused env r now = ground arith

gate-paused :
    (p : Recovery × Bool) (now : ℕ)
    → p.0.stored.paused ≡ true
    → ((gate p now).0.stored.paused ≡ true) × ((gate p now).1 ≡ false)
unfolding gate
gate-paused (r, false) now h = (h, refl)
gate-paused (r, true) now h = ground arith

may_probe-paused :
    (env : Surroundings) (r : Recovery) (now : ℕ)
    → r.stored.paused ≡ true
    → ((may_probe env r now).0.stored.paused ≡ true) × ((may_probe env r now).1 ≡ false)
unfolding may_probe
may_probe-paused env r now h =
    ground (arith, resync-paused env r now, gate-paused (resync env r now) now)

observed-paused :
    (env : Surroundings) (p : Recovery × Bool) (answered : Bool) (now : ℕ)
    → p.0.stored.paused ≡ true
    → p.1 ≡ false
    → ((observed env p answered now).0.stored.paused ≡ true)
      × ((observed env p answered now).1 ≡ none)
unfolding observed
observed-paused env (r, false) answered now h e = (h, refl)
observed-paused env (r, true) answered now h e = cc

apply-paused :
    (parsers : Parsers) (env : Surroundings) (now : ℕ) (e : Event) (r : Recovery)
    → LeavesPause e
    → r.stored.paused ≡ true
    → ((apply parsers env now e r).0.stored.paused ≡ true) × ((apply parsers env now e r).1 ≡ none)
unfolding apply
apply-paused parsers env now (configure c) r l h =
    (unfold update store commit in ground arith, refl)
apply-paused parsers env now resumed r l h = absurd l
apply-paused parsers env now (intended action) r l h =
    (unfold manual_intent store commit paused_by in ground arith, refl)
apply-paused parsers env now checked r l h = (unfold reserve_check in ground arith, refl)
apply-paused parsers env now probing r l h = ((may_probe-paused env r now h).0, refl)
apply-paused parsers env now held r l h = (unfold hold in h, refl)
apply-paused parsers env now (measured answered) r l h =
    let (p, e) = may_probe-paused env r now h in
    unfold observe in observed-paused env (may_probe env r now) answered now p e

module _ (parsers : Parsers) where
  run-paused :
      (r : Recovery) (samples : List Sample)
      → r.stored.paused ≡ true
      → All (λ s. LeavesPause s.event) samples
      → ((run parsers r samples).stored.paused ≡ true) × (plan_times parsers r samples ≡ [])
  unfolding run plan_times
  run-paused r [] h a = (h, refl)
  run-paused r (s ∷ samples) h (l, a) =
      let (p, n) = apply-paused parsers s.surroundings s.now s.event r l h in
      rw n (run-paused (step parsers r s).0 samples p a)

  -- Once `manual_intent` has stored a `cellular.disconnect` or a `device.poweroff`, no call plans an
  -- action and no plan is allowed until a resume or a `cellular.connect`.
  pub disconnect_pauses :
      (env : Surroundings) (r : Recovery) (action : Bytes) (now : ℕ) (samples : List Sample)
      (plan : Plan)
      → one_of action (codes "cellular.disconnect" ∷ codes "device.poweroff" ∷ []) ≡ true
      → (manual_intent env r action now).1 ≡ none
      → All (λ s. LeavesPause s.event) samples
      → let r' = (manual_intent env r action now).0 in
        (plan_times parsers r' samples ≡ []) × (allows (run parsers r' samples) plan ≡ false)
  disconnect_pauses env r action now samples plan o h a =
      let (p, n) = run-paused (manual_intent env r action now).0 samples (intent_paused h) a in
      (n, unfold allows in ground arith)
    where
      intent_paused :
          (manual_intent env r action now).1 ≡ none
          → (manual_intent env r action now).0.stored.paused ≡ true
      intent_paused e = unfold manual_intent store commit paused_by bool_eq in ground arith
