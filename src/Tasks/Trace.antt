-- ===== src/Tasks/Trace.antt =====
-- The calls that the daemon makes of the task schedule, and its restarts, in any order.
use zwrt_datad.Prelude.{Bool, Option, none, some, List, [], ◌∷◌, ℕ, if◌then◌else◌}
use zwrt_datad.Prelude.Text.{Bytes, text_eq}
use zwrt_datad.Schedule.LocalClock.{Clock, local_clock}
use zwrt_datad.Schedule.Dates.{day_number}
use zwrt_datad.Tasks.{TaskSchedule, TaskInput, load, upsert, remove, observe, finish}

-- `upsert`, `remove`, `observe`, `finish`, and the `load` of a daemon that starts again.
pub data Event : Type 0 where
  upserted : TaskInput → Event
  removed : Bytes → Event
  observed : (changing : Bool) → Event
  finished : (id date : Bytes) (success : Bool) → Event
  restarted : Event

-- What `/bin/date` printed at a call, and whether a save succeeds at that time.
pub record Sample : Type 0 where
  pub date_output : Option Bytes
  pub saves : Bool
  pub event : Event

-- The second part is the task to run.
unfoldable pub apply : Sample → Event → TaskSchedule → TaskSchedule × Option TaskInput
apply p (upserted input) s = ((upsert p.saves (local_clock p.date_output) s input).0, none)
apply p (removed id) s = ((remove p.saves s id).0, none)
apply p (observed changing) s = observe changing p.saves s (local_clock p.date_output)
apply p (finished id date success) s = (finish p.saves s id date success, none)
apply p restarted s = (load s.path, none)

unfoldable pub run : TaskSchedule → List Sample → TaskSchedule
run s [] = s
run s (p ∷ samples) = run (apply p p.event s).0 samples

abbrev pub ran_on : Bytes → Option Clock → Option TaskInput → List ℕ → List ℕ
ran_on id (some clock) (some input) days =
    if text_eq input.id id then day_number clock.date ∷ days else days
ran_on id _ _ days = days

-- The days on which the task of the id was to run.
unfoldable pub run_days : Bytes → TaskSchedule → List Sample → List ℕ
run_days id s [] = []
run_days id s (p ∷ samples) =
    let (s', input) = apply p p.event s in
    ran_on id (local_clock p.date_output) input (run_days id s' samples)
