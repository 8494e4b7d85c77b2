-- ===== src/Schedule/Trace.antt =====
-- The calls that the daemon makes of the reboot schedule, and its restarts, in any order.
use zwrt_datad.Prelude.{Bool, true, false, Option, some, List, [], ◌∷◌, ℕ}
use zwrt_datad.Prelude.Text.{Bytes}
use zwrt_datad.Schedule.LocalClock.{Clock, local_clock}
use zwrt_datad.Schedule.Dates.{day_number}
use zwrt_datad.Schedule.{Schedule, load, set, set_environment, observe, reboot_failed}

-- `set`, `set_environment`, `observe`, `reboot_failed`, and the `load` of a daemon that starts again.
pub data Event : Type 0 where
  configured : (enabled : Bool) (time : Bytes) (conflict : Bool) → Event
  seen : (conflict : Bool) → Event
  observed : (changing conflict : Bool) → Event
  failed restarted : Event

-- What `/bin/date` printed at a call, and whether a save succeeds at that time.
pub record Sample : Type 0 where
  pub date_output : Option Bytes
  pub saves : Bool
  pub event : Event

-- The second part says whether a reboot is asked for.
unfoldable pub apply : Sample → Event → Schedule → Schedule × Bool
apply s (configured enabled time conflict) r = ((set s.saves r enabled time conflict).0, false)
apply s (seen conflict) r = (set_environment r (local_clock s.date_output) conflict, false)
apply s (observed changing conflict) r =
    observe changing s.saves r (local_clock s.date_output) conflict
apply s failed r = (reboot_failed r, false)
apply s restarted r = (load r.path (local_clock s.date_output), false)

abbrev pub asked_on : Option Clock → Bool → List ℕ → List ℕ
asked_on (some clock) true days = day_number clock.date ∷ days
asked_on _ _ days = days

-- The days on which a reboot was asked for.
unfoldable pub reboot_days : Schedule → List Sample → List ℕ
reboot_days r [] = []
reboot_days r (s ∷ samples) =
    let (r', asked) = apply s s.event r in
    asked_on (local_clock s.date_output) asked (reboot_days r' samples)
