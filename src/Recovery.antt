-- ===== src/Recovery.antt =====
-- network_recovery.rs: the operations of the opt-in network recovery.
-- Each takes the outcome of the saves that it makes from its `Surroundings`.
pub mod Eligible
pub mod Probe
pub mod State
pub mod Trace
pub mod Invariant
pub mod Restart
pub mod Plans
pub mod Budget
pub mod Spacing
pub mod Pause
pub mod Offline
use Probe.{Parsers}
use State.{
  Config, Stored, Recovery, Plan, Error, Surroundings, disabled, waiting, clock_unavailable,
  waiting_cellular, online, offline, cooldown, limit_reached, rebooting, redialing, storage_failed,
  invalid_recovery_config, save_failed, holds, valid,
}
use zwrt_datad.Prelude.{
  ℕ, ◌+◌, ◌-◌, ◌%◌, ◌^◌, min, max, Bool, true, false, not, ◌&&◌, ◌||◌, Option, none, some, List, [],
  ◌∷◌, ◌++◌, map, ltb, leb, ◌==◌, length, any, retain, if◌then◌else◌,
}
use zwrt_datad.Prelude.Words.{add_u64, saturating_add_u64}
use zwrt_datad.Prelude.Text.{Bytes, codes, text_eq, one_of}

-- `self.store(next)`, with the outcome of the save.
unfoldable pub store : Bool → Recovery → Stored → Recovery × Bool
store true r next = (record r { path = holds next; stored = next; storage_ok = true }, true)
store false r next = (record r { storage_ok = false; status = storage_failed }, false)

-- `next.next_allowed.max(now + 120)`
abbrev hold_off : Stored → ℕ → ℕ
hold_off s now = max s.next_allowed (add_u64 now 120)

-- What `update`, `resume` and `manual_intent` do once the state is stored.
abbrev restart_waiting : Recovery → Recovery
restart_waiting r = record r { generation = add_u64 r.generation 1; failures = 0; status = waiting }

unfoldable pub reserve_check : Recovery → ℕ → Recovery × Bool
reserve_check r now =
    if not (r.last_manual_check == 0) && ltb (now - r.last_manual_check) 10
    then (r, false)
    else (record r { last_manual_check = now }, true)

unfoldable pub commit : Recovery × Bool → Recovery × Option Error
commit (r, true) = (restart_waiting r, none)
commit (r, false) = (r, some save_failed)

unfoldable pub update : Parsers → Surroundings → Recovery → Config → ℕ → Recovery × Option Error
unfolding store commit
update parsers env r config now =
    if not (valid parsers config)
    then (r, some invalid_recovery_config)
    else commit (
        store env.saves r
          (record r.stored { config = config; next_allowed = hold_off r.stored now }))

unfoldable pub resume : Surroundings → Recovery → ℕ → Recovery × Option Error
unfolding store commit
resume env r now = commit (
    store env.saves r
      (record r.stored { paused = false; redials = 0; next_allowed = hold_off r.stored now }))

unfoldable pub paused_by : Bytes → Bool → Bool
paused_by action paused =
    if one_of action (codes "cellular.disconnect" ∷ codes "device.poweroff" ∷ [])
    then true
    else if text_eq action (codes "cellular.connect")
    then false
    else paused

unfoldable pub bool_eq : Bool → Bool → Bool
bool_eq true b = b
bool_eq false b = not b

unfoldable pub manual_intent : Surroundings → Recovery → Bytes → ℕ → Recovery × Option Error
unfolding store commit bool_eq
manual_intent env r action now =
    let paused = paused_by action r.stored.paused in
    let next = record r.stored { paused = paused; next_allowed = hold_off r.stored now } in
    if not (bool_eq paused r.stored.paused) || r.stored.config.enabled
    then commit (store env.saves r next)
    else (restart_waiting r, none)

-- The block of `may_probe` that answers a corrected wall clock.
unfoldable pub resynced : Surroundings → ℕ → Recovery × Bool → Recovery × Bool
resynced env now (r, false) = (r, false)
resynced env now (r, true) = (
  record r {
    clock_generation = env.clock_generation;
    generation = add_u64 r.generation 1;
    startup_until = saturating_add_u64 now 120;
    failures = 0;
    successes = 0;
  },
  true,
)

unfoldable pub after_clock_change : Stored → ℕ → Stored
after_clock_change s now = record s {
  action_times = map (λ _. now) s.action_times;
  last_reboot = if s.last_reboot == 0 then 0 else now;
  next_allowed = saturating_add_u64 now s.config.cooldown_seconds;
}

unfoldable pub resync : Surroundings → Recovery → ℕ → Recovery × Bool
unfolding store resynced after_clock_change
resync env r now =
    if r.clock_generation == env.clock_generation
    then (r, true)
    else resynced env now (store env.resync_saves r (after_clock_change r.stored now))

-- The tests of `may_probe` behind that block.
unfoldable pub gate : Recovery × Bool → ℕ → Recovery × Bool
gate (r, false) now = (r, false)
gate (r, true) now =
    if not r.stored.config.enabled || r.stored.paused || not r.storage_ok
    then (r, false)
    else if ltb now 1704067200
        || any (λ at. ltb now at) r.stored.action_times
        || ltb now r.stored.last_reboot
    then (record r { status = clock_unavailable }, false)
    else if ltb now r.startup_until
    then (record r { status = waiting }, false)
    else (r, true)

unfoldable pub may_probe : Surroundings → Recovery → ℕ → Recovery × Bool
may_probe env r now =
    if env.clock_change_in_progress
    then (record r { status = clock_unavailable }, false)
    else gate (resync env r now) now

unfoldable pub hold : Recovery → Recovery
hold r = record r { failures = 0; successes = 0; status = waiting_cellular }

-- `observe` on an answer; no plan comes of it.
unfoldable pub on_online : Surroundings → Recovery → Recovery
unfolding store
on_online env r =
    let r' = record r { failures = 0; successes = (r.successes + 1) % 2 ^ 32; status = online } in
    if leb 2 r'.successes && ltb 0 r'.stored.redials
    then (store env.saves r' (record r'.stored { redials = 0 })).0
    else r'

unfoldable pub planned : Bool → Recovery × Bool → Recovery × Option Plan
planned reboot (r, false) = (r, none)
planned reboot (r, true) = (
  record r { failures = 0; status = if reboot then rebooting else redialing },
  some (record { generation = r.generation; reboot = reboot }),
)

unfoldable pub recent_actions : Stored → ℕ → List ℕ
recent_actions s now = retain (λ at. ltb (now - at) 3600) s.action_times

-- The stored state once an action is taken at `now`.
unfoldable pub charged : Stored → ℕ → Bool → Stored
unfolding recent_actions
charged s now reboot = record s {
  action_times = recent_actions s now ++ (now ∷ []);
  next_allowed = add_u64 now s.config.cooldown_seconds;
  last_reboot = if reboot then now else s.last_reboot;
  redials = if reboot then s.redials else (s.redials + 1) % 2 ^ 32;
}

unfoldable pub reboot_refused : Stored → ℕ → Bool
reboot_refused s now =
    not s.config.reboot_after_failures
    || (not (s.last_reboot == 0) && ltb (now - s.last_reboot) 21600)

-- `observe` once the failures and the cooldown allow an action.
unfoldable pub act : Surroundings → Recovery → ℕ → Recovery × Option Plan
unfolding store planned
act env r now =
    let reboot = leb r.stored.config.max_redials r.stored.redials in
    if leb 5 (length (recent_actions r.stored now))
    then (record r { status = limit_reached }, none)
    else if reboot && reboot_refused r.stored now
    then (record r { status = limit_reached }, none)
    else planned reboot (store env.saves r (charged r.stored now reboot))

unfoldable pub on_offline : Surroundings → Recovery → ℕ → Recovery × Option Plan
on_offline env r now =
    let r' = record r {
      successes = 0;
      failures = min (r.failures + 1) (2 ^ 32 - 1);
      status = offline;
    } in
    if ltb r'.failures r'.stored.config.failure_threshold
    then (r', none)
    else if ltb now r'.stored.next_allowed
    then (record r' { status = cooldown }, none)
    else act env r' now

unfoldable pub observed : Surroundings → Recovery × Bool → Bool → ℕ → Recovery × Option Plan
observed env (r, false) answered now = (r, none)
observed env (r, true) answered now =
    let r' = record r { last_check = now } in
    if answered then (on_online env r', none) else on_offline env r' now

unfoldable pub observe : Surroundings → Recovery → Bool → ℕ → Recovery × Option Plan
observe env r answered now = observed env (may_probe env r now) answered now

unfoldable pub allows : Recovery → Plan → Bool
allows r plan =
    r.storage_ok
    && r.stored.config.enabled
    && not r.stored.paused
    && r.generation == plan.generation
