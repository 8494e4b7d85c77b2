-- ===== src/Recovery/Offline.antt =====
-- An outage is answered: what it takes for unanswered probes to bring a plan.
use zwrt_datad.Prelude.{
  ℕ, ◌+◌, ◌-◌, ◌≤◌, ◌<◌, ◌^◌, min, ◌≡◌, ◌⊎◌, true, false, none, some, List, [], ◌∷◌, ◌++◌, map,
  arith, ltb, leb, any, All, length,
}
use zwrt_datad.Recovery.Probe.{Parsers}
use zwrt_datad.Recovery.State.{Recovery, Surroundings, offline}
use zwrt_datad.Recovery.Trace.{Sample, measured, apply, plan_times}
use zwrt_datad.Recovery.{
  resync, may_probe, gate, recent_actions, reboot_refused, act, on_offline, observed, observe,
  store, planned,
}

-- What `may_probe` asks for, apart from the clock's generation, which has not changed.
pub record IsReady (env : Surroundings) (r : Recovery) (now : ℕ) : Type 0 where
  pub clock_steady : env.clock_change_in_progress ≡ false
  pub clock_known : r.clock_generation ≡ env.clock_generation
  pub enabled : r.stored.config.enabled ≡ true
  pub running : r.stored.paused ≡ false
  pub storage_ok : r.storage_ok ≡ true
  pub clock_set : 1704067200 ≤ now
  pub actions_past : any (λ at. ltb now at) r.stored.action_times ≡ false
  pub reboot_past : r.stored.last_reboot ≤ now
  pub started : r.startup_until ≤ now

may_probe_ready :
    (env : Surroundings) (r : Recovery) (now : ℕ)
    → IsReady env r now
    → may_probe env r now ≡ (r, true)
unfolding may_probe resync gate
may_probe_ready env r now h = ground arith

-- The recovery behind an unanswered probe that is below the threshold.
abbrev counted : Recovery → ℕ → Recovery
counted r now = record r {
  last_check = now;
  successes = 0;
  failures = r.failures + 1;
  status = offline;
}

observe_counts :
    (env : Surroundings) (r : Recovery) (now : ℕ)
    → IsReady env r now
    → r.failures + 1 < r.stored.config.failure_threshold
    → r.stored.config.failure_threshold < 2 ^ 32
    → observe env r false now ≡ (counted r now, none)
unfolding observe on_offline observed
observe_counts env r now ready h b = rw (may_probe_ready env r now ready) (ground arith)

-- The tests between the threshold and the save.
pub record IsDue (r : Recovery) (now : ℕ) : Type 0 where
  pub cooled : r.stored.next_allowed ≤ now
  pub budget : length (recent_actions r.stored now) < 5
  pub redial_or_reboot :
      (r.stored.redials < r.stored.config.max_redials) ⊎ (reboot_refused r.stored now ≡ false)

act_due :
    (env : Surroundings) (r : Recovery) (now : ℕ)
    → IsDue r now
    → env.saves ≡ true
    → (act env r now).1
      ≡ some (record {
        generation = r.generation;
        reboot = leb r.stored.config.max_redials r.stored.redials;
      })
unfolding act store planned
act_due env r now due s = ground arith

observe_due :
    (env : Surroundings) (r : Recovery) (now : ℕ)
    → IsReady env r now
    → IsDue r now
    → env.saves ≡ true
    → r.stored.config.failure_threshold ≤ r.failures + 1
    → r.stored.config.failure_threshold < 2 ^ 32
    → (observe env r false now).1
      ≡ some (record {
        generation = r.generation;
        reboot = leb r.stored.config.max_redials r.stored.redials;
      })
unfolding observe on_offline observed
observe_due env r now ready due s h b =
    let r' = record r {
      last_check = now;
      successes = 0;
      failures = min (r.failures + 1) (2 ^ 32 - 1);
      status = offline;
    } in
    rw (may_probe_ready env r now ready) (ground (arith, act_due env r' now))

-- An unanswered probe at a time.
abbrev pub unanswered : Surroundings → ℕ → Sample
unanswered env now = record { surroundings = env; now = now; event = measured false }

-- `IsReady` and `IsDue` do not depend on what an unanswered probe counts.
counted-IsReady :
    (env : Surroundings) (r : Recovery) (at : ℕ) (times : List ℕ)
    → All (IsReady env r) times
    → All (IsReady env (counted r at)) times
counted-IsReady env r at [] a = tt
counted-IsReady env r at (t ∷ times) (h, a) = (ground arith, counted-IsReady env r at times a)

-- While the recovery is enabled, not paused, past its start and its storage and clock are fine, and
-- saves succeed: unanswered probes plan nothing until the failures reach the threshold, and the one
-- that reaches it plans an action, if the cooldown is over, the hour has room, and there are redials
-- left or a reboot is not refused.
pub outage_is_answered :
    (parsers : Parsers) (env : Surroundings) (r : Recovery) (times : List ℕ) (now : ℕ)
    → env.saves ≡ true
    → r.stored.config.failure_threshold < 2 ^ 32
    → r.failures + length times + 1 ≡ r.stored.config.failure_threshold
    → All (IsReady env r) times
    → IsReady env r now
    → IsDue r now
    → plan_times parsers r (map (unanswered env) (times ++ (now ∷ []))) ≡ now ∷ []
unfolding plan_times apply
outage_is_answered parsers env r [] now s b e a ready due =
    rw (observe_due env r now ready due s (omega arith) b)
outage_is_answered parsers env r (t ∷ times) now s b e (h, a) ready due =
    rw (observe_counts env r t h (omega arith) b) (
      outage_is_answered parsers env (counted r t) times now s b (omega arith)
        (counted-IsReady env r t times a) (ground arith) (ground arith))
