-- ===== src/Recovery/Budget/Times.antt =====
-- What one operation does to the action times.
use zwrt_datad.Prelude.{
  ℕ, ◌+◌, ◌-◌, ◌^◌, min, ◌≡◌, refl, ◌⊎◌, inl, inr, ◌∙◌, Bool, true, false, Option, none, some, List,
  [], ◌∷◌, ◌++◌, map, ltb, retain, arith,
}
use zwrt_datad.Recovery.Probe.{Parsers}
use zwrt_datad.Recovery.State.{Recovery, Plan, Surroundings, offline}
use zwrt_datad.Recovery.Trace.{
  Event, configure, resumed, intended, checked, probing, held, measured, apply,
}
use zwrt_datad.Recovery.{
  reserve_check, update, resume, manual_intent, after_clock_change, resync, may_probe, gate, hold,
  on_online, recent_actions, charged, act, on_offline, observed, observe, store, commit, resynced,
  planned,
}

-- Without a plan the times are kept or, behind a clock change, all set to `now`; with one, those
-- of the last hour stay and `now` joins them.
pub data Effect (now : ℕ) (before after : List ℕ) (plan : Option Plan) : Type 0 where
  kept : plan ≡ none → after ≡ before → Effect now before after plan
  filled : plan ≡ none → after ≡ map (λ _. now) before → Effect now before after plan
  acted :
      (base : List ℕ) (p : Plan)
      → (base ≡ before) ⊎ (base ≡ map (λ _. now) before)
      → plan ≡ some p
      → after ≡ retain (λ at. ltb (now - at) 3600) base ++ (now ∷ [])
      → Effect now before after plan

resync_times :
    (env : Surroundings) (r : Recovery) (now : ℕ)
    → ((resync env r now).0.stored.action_times ≡ r.stored.action_times)
      ⊎ ((resync env r now).0.stored.action_times ≡ map (λ _. now) r.stored.action_times)
unfolding resync store resynced after_clock_change
resync_times env r now = ground arith

gate_times :
    (p : Recovery × Bool) (now : ℕ) → (gate p now).0.stored.action_times ≡ p.0.stored.action_times
unfolding gate
gate_times (r, false) now = refl
gate_times (r, true) now = ground arith

may_probe_times :
    (env : Surroundings) (r : Recovery) (now : ℕ)
    → ((may_probe env r now).0.stored.action_times ≡ r.stored.action_times)
      ⊎ ((may_probe env r now).0.stored.action_times ≡ map (λ _. now) r.stored.action_times)
unfolding may_probe
may_probe_times env r now =
    ground (arith, resync_times env r now, gate_times (resync env r now) now)

act_times :
    (env : Surroundings) (r : Recovery) (now : ℕ)
    → (((act env r now).1 ≡ none) × ((act env r now).0.stored.action_times ≡ r.stored.action_times))
      ⊎ ((p : Plan) × ((act env r now).1 ≡ some p)
          × ((act env r now).0.stored.action_times ≡ recent_actions r.stored now ++ (now ∷ [])))
unfolding act store charged planned
act_times env r now = ground arith

on_offline_times :
    (env : Surroundings) (r : Recovery) (now : ℕ)
    → (((on_offline env r now).1 ≡ none)
        × ((on_offline env r now).0.stored.action_times ≡ r.stored.action_times))
      ⊎ ((p : Plan) × ((on_offline env r now).1 ≡ some p)
          × ((on_offline env r now).0.stored.action_times
              ≡ recent_actions r.stored now ++ (now ∷ [])))
unfolding on_offline
on_offline_times env r now =
    let r' = record r {
      successes = 0;
      failures = min (r.failures + 1) (2 ^ 32 - 1);
      status = offline;
    } in
    ground (arith, act_times env r' now)

on_online_times :
    (env : Surroundings) (r : Recovery)
    → (on_online env r).stored.action_times ≡ r.stored.action_times
unfolding on_online store
on_online_times env r = ground arith

observed-Effect :
    (env : Surroundings) (p : Recovery × Bool) (answered : Bool) (now : ℕ) (before : List ℕ)
    → (p.0.stored.action_times ≡ before) ⊎ (p.0.stored.action_times ≡ map (λ _. now) before)
    → Effect now before
        (observed env p answered now).0.stored.action_times
        (observed env p answered now).1
unfolding observed recent_actions
observed-Effect env (r, false) answered now before (inl e) = Effect.kept refl e
observed-Effect env (r, false) answered now before (inr e) = Effect.filled refl e
observed-Effect env (r, true) true now before (inl e) =
    Effect.kept refl (on_online_times env (record r { last_check = now }) ∙ e)
observed-Effect env (r, true) true now before (inr e) =
    Effect.filled refl (on_online_times env (record r { last_check = now }) ∙ e)
observed-Effect env (r, true) false now before e =
    go e (on_offline_times env (record r { last_check = now }) now)
  where
    go :
        (r.stored.action_times ≡ before) ⊎ (r.stored.action_times ≡ map (λ _. now) before)
        → (((on_offline env (record r { last_check = now }) now).1 ≡ none)
            × ((on_offline env (record r { last_check = now }) now).0.stored.action_times
                ≡ r.stored.action_times))
          ⊎ ((p : Plan) × ((on_offline env (record r { last_check = now }) now).1 ≡ some p)
              × ((on_offline env (record r { last_check = now }) now).0.stored.action_times
                  ≡ retain (λ at. ltb (now - at) 3600) r.stored.action_times ++ (now ∷ [])))
        → Effect now before
            (on_offline env (record r { last_check = now }) now).0.stored.action_times
            (on_offline env (record r { last_check = now }) now).1
    go (inl e) (inl (n, k)) = Effect.kept n (k ∙ e)
    go (inr e) (inl (n, k)) = Effect.filled n (k ∙ e)
    go e (inr (p, n, k)) = Effect.acted r.stored.action_times p e n k

pub apply-Effect :
    (parsers : Parsers) (env : Surroundings) (now : ℕ) (e : Event) (r : Recovery)
    → Effect now r.stored.action_times
        (apply parsers env now e r).0.stored.action_times
        (apply parsers env now e r).1
unfolding apply
apply-Effect parsers env now (configure c) r =
    Effect.kept refl (unfold update store commit in ground arith)
apply-Effect parsers env now resumed r =
    Effect.kept refl (unfold resume store commit in ground arith)
apply-Effect parsers env now (intended action) r =
    Effect.kept refl (unfold manual_intent store commit in ground arith)
apply-Effect parsers env now checked r = Effect.kept refl (unfold reserve_check in ground arith)
apply-Effect parsers env now probing r = elim (may_probe_times env r now) [
  | inl e ↦ Effect.kept refl e
  | inr e ↦ Effect.filled refl e
]
apply-Effect parsers env now held r = Effect.kept refl (unfold hold in refl)
apply-Effect parsers env now (measured answered) r =
    unfold observe in
    observed-Effect env (may_probe env r now) answered now r.stored.action_times
      (may_probe_times env r now)
