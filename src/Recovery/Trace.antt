-- ===== src/Recovery/Trace.antt =====
-- The calls that the daemon makes of a recovery, in any order, each with its time and outcome.
use zwrt_datad.Prelude.{ℕ, ◌≤◌, Bool, Option, none, some, List, [], ◌∷◌}
use zwrt_datad.Prelude.Text.{Bytes}
use zwrt_datad.Recovery.Probe.{Parsers}
use zwrt_datad.Recovery.State.{Config, Recovery, Plan, Surroundings}
use zwrt_datad.Recovery.{reserve_check, update, resume, manual_intent, may_probe, hold, observe}

-- `update`, `resume`, `manual_intent`, `reserve_check`, `may_probe`, `hold` and `observe`.
pub data Event : Type 0 where
  configure : Config → Event
  resumed checked probing held : Event
  intended : Bytes → Event
  measured : Bool → Event

pub record Sample : Type 0 where
  pub surroundings : Surroundings
  pub now : ℕ
  pub event : Event

unfoldable pub apply : Parsers → Surroundings → ℕ → Event → Recovery → Recovery × Option Plan
apply parsers env now (configure c) r = ((update parsers env r c now).0, none)
apply parsers env now resumed r = ((resume env r now).0, none)
apply parsers env now checked r = ((reserve_check r now).0, none)
apply parsers env now probing r = ((may_probe env r now).0, none)
apply parsers env now held r = (hold r, none)
apply parsers env now (intended action) r = ((manual_intent env r action now).0, none)
apply parsers env now (measured answered) r = observe env r answered now

abbrev pub step : Parsers → Recovery → Sample → Recovery × Option Plan
step parsers r s = apply parsers s.surroundings s.now s.event r

unfoldable pub run : Parsers → Recovery → List Sample → Recovery
run parsers r [] = r
run parsers r (s ∷ samples) = run parsers (step parsers r s).0 samples

-- The times never fall.
abbrev pub IsMonotone : ℕ → List Sample → Type 0
IsMonotone t [] = Unit
IsMonotone t (s ∷ samples) = (t ≤ s.now) × IsMonotone s.now samples

abbrev pub planned_at : ℕ → Option Plan → List ℕ → List ℕ
planned_at now none times = times
planned_at now (some _) times = now ∷ times

-- The times at which `observe` planned an action.
unfoldable pub plan_times : Parsers → Recovery → List Sample → List ℕ
plan_times parsers r [] = []
plan_times parsers r (s ∷ samples) =
    let (r', plan) = step parsers r s in planned_at s.now plan (plan_times parsers r' samples)
