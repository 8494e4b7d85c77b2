-- ===== src/Tests/Recovery.antt =====
-- The network recovery at concrete inputs.
use zwrt_datad.Prelude.{
  ℕ, ◌≤◌, ◌≡◌, ◌≢◌, ◌⊎◌, refl, inl, true, false, none, some, List, [], ◌∷◌, ◌++◌, map, arith,
}
use zwrt_datad.Prelude.Text.{codes, one_of, text_eq, starts_with, uppercase}
use zwrt_datad.Prelude.Int.{pos}
use zwrt_datad.Json.{Fields, entry, end, object, string, as_object, as_str, get}
use zwrt_datad.Recovery.Eligible.{eligible, is_fresh, index, is_kind, any_reachable}
use zwrt_datad.Recovery.Probe.{Parsers, valid_probe_url}
use zwrt_datad.Recovery.State.{
  Config, Recovery, Plan, Surroundings, missing, default_config, default_stored, offline, valid,
  load, network_action,
}
use zwrt_datad.Recovery.{
  observe, may_probe, manual_intent, update, resume, allows, observed, gate, resync, on_offline,
  act, store, planned, charged, recent_actions, commit, paused_by, bool_eq,
}
use zwrt_datad.Recovery.Trace.{Sample, apply, configure, measured, run, plan_times}
use zwrt_datad.Recovery.Restart.{restart_keeps_stored}
use zwrt_datad.Recovery.Plans.{IsGranted, observe-IsGranted}
use zwrt_datad.Recovery.Budget.{in_hour, hourly_limit}
use zwrt_datad.Recovery.Spacing.{IsSpaced, plans-IsSpaced}
use zwrt_datad.Recovery.Pause.{stale_plan, disconnect_pauses}
use zwrt_datad.Recovery.Offline.{IsReady, IsDue, outage_is_answered, unanswered}

abbrev test_parsers : Parsers
test_parsers = record {
  parse_url = λ raw. some (record {
    scheme = codes "https";
    username = [];
    password = none;
    query = none;
    fragment = none;
    port = none;
    host_str = some (codes "www.example.com");
  });
  parse_ip = λ raw. none;
}

default_valid : valid test_parsers default_config ≡ true
unfolding valid
default_valid = refl

local_refused :
    valid_probe_url
      (record test_parsers {
        parse_url = λ raw. some (record {
          scheme = codes "https";
          username = [];
          password = none;
          query = none;
          fragment = none;
          port = none;
          host_str = some (codes "Router.LAN");
        });
      })
      (codes "https://Router.LAN/")
    ≡ false
unfolding valid_probe_url
local_refused = refl

apn_is_network : network_action (codes "apn.add") ≡ true
unfolding network_action text_eq
apn_is_network = refl

abbrev calm : Surroundings
calm = record {
  clock_change_in_progress = false;
  clock_generation = 0;
  resync_saves = true;
  saves = true;
}

abbrev enabled_config : Config
enabled_config = record default_config { enabled = true }

abbrev at : ℕ → Sample
at now = record { surroundings = calm; now = now; event = measured false }

abbrev outage : List Sample
outage =
    record { surroundings = calm; now = 1704067200; event = configure enabled_config }
    ∷ at 1704068000
    ∷ at 1704068060
    ∷ at 1704068120
    ∷ []

restart_keeps_stored_example :
    let r = run test_parsers (load test_parsers missing 1704067000 0) outage in
    (load test_parsers r.path 1704069000 0).stored ≡ r.stored
restart_keeps_stored_example =
    restart_keeps_stored test_parsers missing 1704067000 0 outage 1704069000 0 default_valid

hourly_limit_example :
    in_hour 1704068200 (plan_times test_parsers (load test_parsers missing 1704067000 0) outage) ≤ 5
hourly_limit_example =
    hourly_limit test_parsers missing 1704067000 0 outage 1704068200 default_valid (omega arith)
      (omega arith)

plans-IsSpaced_example :
    IsSpaced 0 (plan_times test_parsers (load test_parsers missing 1704067000 0) outage)
plans-IsSpaced_example =
    plans-IsSpaced test_parsers missing 1704067000 0 outage default_valid (omega arith)
      (omega arith)

outage_plans :
    plan_times test_parsers (load test_parsers missing 1704067000 0) outage ≡ 1704068120 ∷ []
unfolding plan_times apply load valid update commit observe observed may_probe gate resync
    on_offline act store planned charged recent_actions
outage_plans = refl

-- Two probes have failed, and nothing holds the recovery back.
abbrev down : Recovery
down = record {
  path = missing;
  stored = record default_stored { config = enabled_config };
  generation = 7;
  failures = 1;
  successes = 0;
  status = offline;
  last_check = 1704067200;
  storage_ok = true;
  startup_until = 0;
  last_manual_check = 0;
  clock_generation = 0;
}

down_plans :
    (observe calm (record down { failures = 2 }) false 1704068000).1
    ≡ some (record { generation = 7; reboot = false })
unfolding observe observed may_probe gate resync on_offline act store planned charged recent_actions
down_plans = refl

observe-IsGranted_example :
    IsGranted
      (may_probe calm (record down { failures = 2 }) 1704068000).0
      (observe calm (record down { failures = 2 }) false 1704068000).0
      1704068000
      (record { generation = 7; reboot = false })
    × (allows
          (observe calm (record down { failures = 2 }) false 1704068000).0
          (record { generation = 7; reboot = false })
        ≡ true)
observe-IsGranted_example =
    observe-IsGranted calm (record down { failures = 2 }) false 1704068000
      (record { generation = 7; reboot = false }) down_plans

down-IsReady : (now : ℕ) → 1704067200 ≤ now → IsReady calm down now
down-IsReady now h = ground arith

down-IsDue : IsDue down 1704068060
unfolding recent_actions
down-IsDue = record {
  cooled = omega arith;
  budget = omega arith;
  redial_or_reboot = inl (omega arith);
}

outage_is_answered_example :
    plan_times test_parsers down (map (unanswered calm) ((1704068000 ∷ []) ++ (1704068060 ∷ [])))
    ≡ 1704068060 ∷ []
outage_is_answered_example =
    outage_is_answered test_parsers calm down (1704068000 ∷ []) 1704068060 refl (omega arith)
      (omega arith) (down-IsReady 1704068000 (omega arith), tt)
      (down-IsReady 1704068060 (omega arith)) down-IsDue

abbrev stale : Plan
stale = record { generation = 7; reboot = false }

stale_plan_example :
    (((update test_parsers calm down default_config 9).1 ≢ none)
      ⊎ (allows (update test_parsers calm down default_config 9).0 stale ≡ false))
    × (((resume calm down 9).1 ≢ none) ⊎ (allows (resume calm down 9).0 stale ≡ false))
    × (((manual_intent calm down (codes "sim.set_slot") 9).1 ≢ none)
        ⊎ (allows (manual_intent calm down (codes "sim.set_slot") 9).0 stale ≡ false))
stale_plan_example =
    stale_plan test_parsers calm down stale default_config (codes "sim.set_slot") 9 (omega arith)
      refl

disconnect_stored : (manual_intent calm down (codes "cellular.disconnect") 1704068000).1 ≡ none
unfolding manual_intent store commit paused_by one_of text_eq bool_eq
disconnect_stored = refl

abbrev disconnected : Recovery
disconnected = (manual_intent calm down (codes "cellular.disconnect") 1704068000).0

is_disconnect :
    one_of
      (codes "cellular.disconnect")
      (codes "cellular.disconnect" ∷ codes "device.poweroff" ∷ [])
    ≡ true
unfolding one_of text_eq
is_disconnect = refl

disconnect_pauses_example :
    (plan_times test_parsers disconnected (at 1704069000 ∷ []) ≡ [])
    × (allows (run test_parsers disconnected (at 1704069000 ∷ [])) stale ≡ false)
disconnect_pauses_example =
    disconnect_pauses test_parsers calm down (codes "cellular.disconnect") 1704068000
      (at 1704069000 ∷ []) stale is_disconnect disconnect_stored (tt, tt)

abbrev online : Fields
online = entry (codes "net") (object (entry (codes "type") (string (codes "nr5g_SA")) end)) end

-- A snapshot of half a minute ago, and one that is a second older.
still_eligible : eligible (pos 1000) online 1030 ≡ true
unfolding eligible is_fresh index is_kind get as_object as_str text_eq starts_with uppercase
still_eligible = refl

too_old : eligible (pos 1000) online 1031 ≡ false
unfolding eligible is_fresh index is_kind get as_object as_str text_eq starts_with uppercase
too_old = refl

second_answers : any_reachable (false ∷ true ∷ []) ≡ true
unfolding any_reachable
second_answers = refl
