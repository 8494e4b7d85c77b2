-- ===== src/Recovery/Plans.antt =====
-- When `observe` plans an action, and what it has recorded by then.
use zwrt_datad.Prelude.{
  ℕ, ◌+◌, ◌-◌, ◌≤◌, ◌<◌, ◌≡◌, refl, ◌⊎◌, Bool, true, false, some, arith, length,
}
use zwrt_datad.Recovery.State.{Recovery, Plan, Surroundings, holds}
use zwrt_datad.Recovery.{
  may_probe, gate, resync, recent_actions, charged, reboot_refused, act, on_offline, observed,
  observe, allows, store, planned,
}

-- `r` is the recovery once `may_probe` has let the probe through, `r'` the one behind the plan.
pub record IsGranted (r r' : Recovery) (now : ℕ) (plan : Plan) : Type 0 where
  pub enabled : r.stored.config.enabled ≡ true
  pub running : r.stored.paused ≡ false
  pub threshold : r.stored.config.failure_threshold ≤ r.failures + 1
  pub cooled : r.stored.next_allowed ≤ now
  pub budget : length (recent_actions r.stored now) < 5
  pub recorded : r'.stored ≡ charged r.stored now plan.reboot
  pub on_disk : r'.path ≡ holds r'.stored
  pub reset : r'.failures ≡ 0
  pub redial : plan.reboot ≡ false → r.stored.redials < r.stored.config.max_redials
  pub reboot :
      plan.reboot ≡ true
      → (r.stored.config.max_redials ≤ r.stored.redials)
        × (r.stored.config.reboot_after_failures ≡ true)
        × ((r.stored.last_reboot ≡ 0) ⊎ (21600 ≤ now - r.stored.last_reboot))
  pub generation : plan.generation ≡ r'.generation
  pub storage_ok : r'.storage_ok ≡ true

gate_passed :
    (p : Recovery × Bool) (now : ℕ)
    → (gate p now).1 ≡ true
    → ((gate p now).0 ≡ p.0) × (p.0.stored.config.enabled ≡ true) × (p.0.stored.paused ≡ false)
unfolding gate
gate_passed (r, false) now h = cc
gate_passed (r, true) now h = ground arith

may_probe_passed :
    (env : Surroundings) (r : Recovery) (now : ℕ)
    → (may_probe env r now).1 ≡ true
    → ((may_probe env r now).0.stored.config.enabled ≡ true)
      × ((may_probe env r now).0.stored.paused ≡ false)
unfolding may_probe
may_probe_passed env r now h = ground (arith, gate_passed (resync env r now) now)

IsGranted-last_check :
    (now : ℕ) (plan : Plan) (r : Recovery) {r' : Recovery}
    → IsGranted (record r { last_check = now }) r' now plan
    → IsGranted r r' now plan
IsGranted-last_check now plan r g = record {
  enabled = g.enabled;
  running = g.running;
  threshold = g.threshold;
  cooled = g.cooled;
  budget = g.budget;
  recorded = g.recorded;
  on_disk = g.on_disk;
  reset = g.reset;
  redial = g.redial;
  reboot = g.reboot;
  generation = g.generation;
  storage_ok = g.storage_ok;
}

IsGranted-allows :
    {r r' : Recovery} (now : ℕ) (plan : Plan) → IsGranted r r' now plan → allows r' plan ≡ true
unfolding allows charged
IsGranted-allows now plan g = ground arith

on_offline-IsGranted :
    (env : Surroundings) (r : Recovery) (now : ℕ) (plan : Plan)
    → r.stored.config.enabled ≡ true
    → r.stored.paused ≡ false
    → (on_offline env r now).1 ≡ some plan
    → IsGranted r (on_offline env r now).0 now plan
unfolding on_offline act store planned reboot_refused
on_offline-IsGranted env r now plan e p h = ground arith

observed-IsGranted :
    (env : Surroundings) (p : Recovery × Bool) (answered : Bool) (now : ℕ) (plan : Plan)
    → (p.1 ≡ true → (p.0.stored.config.enabled ≡ true) × (p.0.stored.paused ≡ false))
    → (observed env p answered now).1 ≡ some plan
    → IsGranted p.0 (observed env p answered now).0 now plan
unfolding observed
observed-IsGranted env (r, false) answered now plan g h = cc
observed-IsGranted env (r, true) true now plan g h = cc
observed-IsGranted env (r, true) false now plan g h =
    IsGranted-last_check now plan r
      (on_offline-IsGranted env (record r { last_check = now }) now plan (g refl).0 (g refl).1 h)

-- A plan comes only of an unanswered probe while the recovery is enabled and not paused, with the
-- failures at their threshold, the cooldown over and fewer than five actions in the last hour. By
-- then the action is in the stored state and on disk, the failures start anew, and the plan is
-- allowed. A redial has redials left. A reboot has none left, was opted in to, and comes six hours
-- behind the last one.
pub observe-IsGranted :
    (env : Surroundings) (r : Recovery) (answered : Bool) (now : ℕ) (plan : Plan)
    → (observe env r answered now).1 ≡ some plan
    → IsGranted (may_probe env r now).0 (observe env r answered now).0 now plan
      × (allows (observe env r answered now).0 plan ≡ true)
unfolding observe
observe-IsGranted env r answered now plan h =
    let g =
      observed-IsGranted env (may_probe env r now) answered now plan (may_probe_passed env r now)
        h in
    (g, IsGranted-allows now plan g)
