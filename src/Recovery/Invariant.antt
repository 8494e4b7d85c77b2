-- ===== src/Recovery/Invariant.antt =====
-- What holds of the recovery between two operations.
use zwrt_datad.Prelude.{
  ℕ, ◌+◌, ◌-◌, ◌≤◌, ◌^◌, min, ◌≡◌, refl, ◌⊎◌, Bool, true, false, none, List, [], ◌∷◌, map, arith,
  length, length-append,
}
use zwrt_datad.Prelude.Text.{Bytes}
use zwrt_datad.Recovery.Probe.{Parsers}
use zwrt_datad.Recovery.State.{
  Config, Recovery, Surroundings, DiskFile, holds, missing, invalid, valid, loaded, loadable, load,
  default_stored, default_config, offline,
}
use zwrt_datad.Recovery.{
  reserve_check, update, resume, manual_intent, after_clock_change, resync, may_probe, gate, hold,
  on_online, recent_actions, charged, act, on_offline, observed, observe, store, commit, resynced,
  planned,
}
use zwrt_datad.Recovery.Trace.{
  Event, configure, resumed, intended, checked, probing, held, measured, Sample, apply, run,
}

length-map {ℓ κ} :
    {A : Type ℓ} {B : Type κ} (f : A → B) (xs : List A) → length (map f xs) ≡ length xs
length-map f [] = refl
length-map f (x ∷ xs) = omega (arith, length-map f xs)

module _ (parsers : Parsers) where
  -- The file holds what is in memory, unless nothing but the defaults is there.
  pub record Inv (r : Recovery) : Type 0 where
    pub config_valid : valid parsers r.stored.config ≡ true
    pub redials_le : r.stored.redials ≤ 5
    pub actions_le : length r.stored.action_times ≤ 5
    pub on_disk :
        (r.path ≡ holds r.stored) ⊎ ((loaded parsers r.path ≡ none) × (r.stored ≡ default_stored))

  max_redials_le : (c : Config) → valid parsers c ≡ true → c.max_redials ≤ 5
  unfolding valid
  max_redials_le c h = ground arith

  update-Inv :
      (env : Surroundings) (r : Recovery) (c : Config) (now : ℕ)
      → Inv r
      → Inv (update parsers env r c now).0
  unfolding update store commit
  update-Inv env r c now i = ground arith

  resume-Inv : (env : Surroundings) (r : Recovery) (now : ℕ) → Inv r → Inv (resume env r now).0
  unfolding resume store commit
  resume-Inv env r now i = ground arith

  manual_intent-Inv :
      (env : Surroundings) (r : Recovery) (action : Bytes) (now : ℕ)
      → Inv r
      → Inv (manual_intent env r action now).0
  unfolding manual_intent store commit
  manual_intent-Inv env r action now i = ground arith

  reserve_check-Inv : (r : Recovery) (now : ℕ) → Inv r → Inv (reserve_check r now).0
  unfolding reserve_check
  reserve_check-Inv r now i = ground arith

  hold-Inv : (r : Recovery) → Inv r → Inv (hold r)
  unfolding hold
  hold-Inv r i = ground arith

  resync-Inv : (env : Surroundings) (r : Recovery) (now : ℕ) → Inv r → Inv (resync env r now).0
  unfolding resync store resynced after_clock_change
  resync-Inv env r now i = ground (arith, length-map (λ (_ : ℕ). now) r.stored.action_times)

  gate-Inv : (p : Recovery × Bool) (now : ℕ) → Inv p.0 → Inv (gate p now).0
  unfolding gate
  gate-Inv (r, false) now i = i
  gate-Inv (r, true) now i = ground arith

  pub may_probe-Inv :
      (env : Surroundings) (r : Recovery) (now : ℕ) → Inv r → Inv (may_probe env r now).0
  unfolding may_probe
  may_probe-Inv env r now i = ground (arith, resync-Inv env r now, gate-Inv (resync env r now) now)

  on_online-Inv : (env : Surroundings) (r : Recovery) → Inv r → Inv (on_online env r)
  unfolding on_online store
  on_online-Inv env r i = ground arith

  act-Inv : (env : Surroundings) (r : Recovery) (now : ℕ) → Inv r → Inv (act env r now).0
  unfolding act store charged planned
  act-Inv env r now i = ground (
    arith,
    max_redials_le r.stored.config,
    length-append (recent_actions r.stored now) (now ∷ []),
  )

  on_offline-Inv :
      (env : Surroundings) (r : Recovery) (now : ℕ) → Inv r → Inv (on_offline env r now).0
  unfolding on_offline
  on_offline-Inv env r now i =
      let r' = record r {
        successes = 0;
        failures = min (r.failures + 1) (2 ^ 32 - 1);
        status = offline;
      } in
      ground (arith, act-Inv env r' now)

  observed-Inv :
      (env : Surroundings) (p : Recovery × Bool) (answered : Bool) (now : ℕ)
      → Inv p.0
      → Inv (observed env p answered now).0
  unfolding observed
  observed-Inv env (r, false) answered now i = i
  observed-Inv env (r, true) true now i =
      on_online-Inv env (record r { last_check = now }) (ground arith)
  observed-Inv env (r, true) false now i =
      on_offline-Inv env (record r { last_check = now }) now (ground arith)

  observe-Inv :
      (env : Surroundings) (r : Recovery) (answered : Bool) (now : ℕ)
      → Inv r
      → Inv (observe env r answered now).0
  unfolding observe
  observe-Inv env r answered now i =
      observed-Inv env (may_probe env r now) answered now (may_probe-Inv env r now i)

  pub apply-Inv :
      (env : Surroundings) (now : ℕ) (e : Event) (r : Recovery)
      → Inv r
      → Inv (apply parsers env now e r).0
  unfolding apply
  apply-Inv env now (configure c) r i = update-Inv env r c now i
  apply-Inv env now resumed r i = resume-Inv env r now i
  apply-Inv env now (intended action) r i = manual_intent-Inv env r action now i
  apply-Inv env now checked r i = reserve_check-Inv r now i
  apply-Inv env now probing r i = may_probe-Inv env r now i
  apply-Inv env now held r i = hold-Inv r i
  apply-Inv env now (measured answered) r i = observe-Inv env r answered now i

  pub run-Inv : (r : Recovery) (samples : List Sample) → Inv r → Inv (run parsers r samples)
  unfolding run
  run-Inv r [] i = i
  run-Inv r (s ∷ samples) i =
      run-Inv (apply parsers s.surroundings s.now s.event r).0 samples
        (apply-Inv s.surroundings s.now s.event r i)

  pub load-Inv :
      (path : DiskFile) (now clock_generation : ℕ)
      → valid parsers default_config ≡ true
      → Inv (load parsers path now clock_generation)
  unfolding load loadable
  load-Inv missing now g h = ground arith
  load-Inv invalid now g h = ground arith
  load-Inv (holds s) now g h = ground arith
