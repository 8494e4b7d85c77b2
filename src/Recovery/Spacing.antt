-- ===== src/Recovery/Spacing.antt =====
-- Two planned actions are at least three minutes apart.
use zwrt_datad.Prelude.{
  ℕ, ◌+◌, ◌-◌, ◌≤◌, ◌<◌, ◌^◌, min, ◌≡◌, Bool, true, false, Option, none, some, List, [], ◌∷◌, arith,
  All,
}
use zwrt_datad.Recovery.Probe.{Parsers}
use zwrt_datad.Recovery.State.{
  Config, Recovery, Plan, Surroundings, DiskFile, default_config, valid, load, offline,
}
use zwrt_datad.Recovery.Trace.{
  Event, configure, resumed, intended, checked, probing, held, measured, Sample, apply, step,
  IsMonotone, planned_at, plan_times,
}
use zwrt_datad.Recovery.Invariant.{Inv, apply-Inv, may_probe-Inv, load-Inv}
use zwrt_datad.Recovery.{
  reserve_check, update, resume, manual_intent, after_clock_change, resync, may_probe, gate, hold,
  on_online, charged, act, on_offline, observed, observe, store, commit, resynced, planned,
}

-- A time with an hour of room below the end of `u64`.
abbrev pub IsTime : ℕ → Type 0
IsTime now = now + 3600 < 2 ^ 64

-- `lo` lies below the stored cooldown, and a plan comes at `lo` at the earliest and moves the
-- cooldown three minutes on.
abbrev HoldsOff : ℕ → ℕ → ℕ → Option Plan → Type 0
HoldsOff lo now after none = lo ≤ after
HoldsOff lo now after (some _) = (lo ≤ now) × (now + 180 ≤ after)

-- Times of which each is three minutes behind the one before, the first not before `lo`.
abbrev pub IsSpaced : ℕ → List ℕ → Type 0
IsSpaced lo [] = Unit
IsSpaced lo (t ∷ times) = (lo ≤ t) × IsSpaced (t + 180) times

planned_at-IsSpaced :
    (lo now after : ℕ) (plan : Option Plan) (times : List ℕ)
    → HoldsOff lo now after plan
    → ((lo' : ℕ) → lo' ≤ after → lo' ≤ now + 180 → IsSpaced lo' times)
    → lo ≤ now + 180
    → IsSpaced lo (planned_at now plan times)
planned_at-IsSpaced lo now after none times h rest k = rest lo h k
planned_at-IsSpaced lo now after (some p) times (early, late) rest k =
    (early, rest (now + 180) late (omega arith))

module _ (parsers : Parsers) where
  cooldown_range :
      (c : Config)
      → valid parsers c ≡ true
      → (180 ≤ c.cooldown_seconds) × (c.cooldown_seconds ≤ 3600)
  unfolding valid
  cooldown_range c h = ground arith

  resync_cooldown :
      (env : Surroundings) (r : Recovery) (now lo : ℕ)
      → Inv parsers r
      → IsTime now
      → lo ≤ r.stored.next_allowed
      → lo ≤ now + 180
      → lo ≤ (resync env r now).0.stored.next_allowed
  unfolding resync store resynced after_clock_change
  resync_cooldown env r now lo i t h k =
      ground (arith, cooldown_range r.stored.config i.config_valid)

  gate_cooldown :
      (p : Recovery × Bool) (now : ℕ) → (gate p now).0.stored.next_allowed ≡ p.0.stored.next_allowed
  unfolding gate
  gate_cooldown (r, false) now = ground arith
  gate_cooldown (r, true) now = ground arith

  may_probe_cooldown :
      (env : Surroundings) (r : Recovery) (now lo : ℕ)
      → Inv parsers r
      → IsTime now
      → lo ≤ r.stored.next_allowed
      → lo ≤ now + 180
      → lo ≤ (may_probe env r now).0.stored.next_allowed
  unfolding may_probe
  may_probe_cooldown env r now lo i t h k =
      ground (arith, resync_cooldown env r now lo i, gate_cooldown (resync env r now) now)

  act_cooldown :
      (env : Surroundings) (r : Recovery) (now lo : ℕ)
      → Inv parsers r
      → IsTime now
      → lo ≤ r.stored.next_allowed
      → r.stored.next_allowed ≤ now
      → HoldsOff lo now (act env r now).0.stored.next_allowed (act env r now).1
  unfolding act store charged planned
  act_cooldown env r now lo i t h k = ground (arith, cooldown_range r.stored.config i.config_valid)

  on_offline_cooldown :
      (env : Surroundings) (r : Recovery) (now lo : ℕ)
      → Inv parsers r
      → IsTime now
      → lo ≤ r.stored.next_allowed
      → HoldsOff lo now (on_offline env r now).0.stored.next_allowed (on_offline env r now).1
  unfolding on_offline
  on_offline_cooldown env r now lo i t h =
      let r' = record r {
        successes = 0;
        failures = min (r.failures + 1) (2 ^ 32 - 1);
        status = offline;
      } in
      let i' : Inv parsers r' = record {
        config_valid = i.config_valid;
        redials_le = i.redials_le;
        actions_le = i.actions_le;
        on_disk = i.on_disk;
      } in
      ground (arith, act_cooldown env r' now lo i')

  on_online_cooldown :
      (env : Surroundings) (r : Recovery)
      → (on_online env r).stored.next_allowed ≡ r.stored.next_allowed
  unfolding on_online store
  on_online_cooldown env r = ground arith

  observed_cooldown :
      (env : Surroundings) (p : Recovery × Bool) (answered : Bool) (now lo : ℕ)
      → Inv parsers p.0
      → IsTime now
      → lo ≤ p.0.stored.next_allowed
      → HoldsOff lo now
          (observed env p answered now).0.stored.next_allowed
          (observed env p answered now).1
  unfolding observed
  observed_cooldown env (r, false) answered now lo i t h = h
  observed_cooldown env (r, true) true now lo i t h =
      omega (arith, on_online_cooldown env (record r { last_check = now }))
  observed_cooldown env (r, true) false now lo i t h =
      on_offline_cooldown env (record r { last_check = now }) now lo (ground arith) t h

  apply_cooldown :
      (env : Surroundings) (now : ℕ) (e : Event) (r : Recovery) (lo : ℕ)
      → Inv parsers r
      → IsTime now
      → lo ≤ r.stored.next_allowed
      → lo ≤ now + 180
      → HoldsOff lo now
          (apply parsers env now e r).0.stored.next_allowed
          (apply parsers env now e r).1
  unfolding apply
  apply_cooldown env now (configure c) r lo i t h k = unfold update store commit in ground arith
  apply_cooldown env now resumed r lo i t h k = unfold resume store commit in ground arith
  apply_cooldown env now (intended action) r lo i t h k =
      unfold manual_intent store commit in ground arith
  apply_cooldown env now checked r lo i t h k = unfold reserve_check in ground arith
  apply_cooldown env now probing r lo i t h k = may_probe_cooldown env r now lo i t h k
  apply_cooldown env now held r lo i t h k = unfold hold in h
  apply_cooldown env now (measured answered) r lo i t h k =
      unfold observe in
      observed_cooldown env (may_probe env r now) answered now lo
        (may_probe-Inv parsers env r now i) t (may_probe_cooldown env r now lo i t h k)

  plan_times-IsSpaced :
      (r : Recovery) (samples : List Sample) (t lo : ℕ)
      → Inv parsers r
      → lo ≤ r.stored.next_allowed
      → lo ≤ t + 180
      → IsMonotone t samples
      → All (λ s. IsTime s.now) samples
      → IsSpaced lo (plan_times parsers r samples)
  unfolding plan_times
  plan_times-IsSpaced r [] t lo i h k m a = tt
  plan_times-IsSpaced r (s ∷ samples) t lo i h k (mt, m) (ht, a) =
      let (next, plan) = step parsers r s in
      planned_at-IsSpaced lo s.now next.stored.next_allowed plan (plan_times parsers next samples)
        (apply_cooldown s.surroundings s.now s.event r lo i ht h (omega arith))
        (λ lo' h' k'.
          plan_times-IsSpaced next samples s.now lo'
            (apply-Inv parsers s.surroundings s.now s.event r i) h' k' m a)
        (omega arith)

  -- Where the default settings are valid: from whatever the file held at the start, under any calls
  -- whose times never fall and stay an hour below the end of `u64`, each planned action comes at
  -- least 180 seconds behind the one before.
  pub plans-IsSpaced :
      (file : DiskFile) (started clock_generation : ℕ) (samples : List Sample)
      → valid parsers default_config ≡ true
      → IsMonotone 0 samples
      → All (λ s. IsTime s.now) samples
      → IsSpaced 0 (plan_times parsers (load parsers file started clock_generation) samples)
  plans-IsSpaced file started g samples h m a =
      plan_times-IsSpaced (load parsers file started g) samples 0 0
        (load-Inv parsers file started g h) (omega arith) (omega arith) m a
