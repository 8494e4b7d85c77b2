-- ===== src/Tests/Tasks.antt =====
-- The task schedule at concrete inputs.
use zwrt_datad.Prelude.{◌≡◌, refl, Bool, true, false, none, some, List, [], ◌∷◌, ◌++◌, All}
use zwrt_datad.Prelude.Text.{Bytes, codes, text_eq, text_lt, is_digit, one_of}
use zwrt_datad.Prelude.Utf8.{chars, is_control, trim, is_whitespace, utf16}
use zwrt_datad.Json.{
  object, entry, end, string, number, pos_int, size, as_object, as_i64, as_str, get,
}
use zwrt_datad.Storage.{missing}
use zwrt_datad.Schedule.LocalClock.{
  Clock, valid_date, valid_time, valid_offset, days_in, words, parse_clock, local_clock,
}
use zwrt_datad.Schedule.Once.{IsAscending}
use zwrt_datad.Tasks.{
  TaskSchedule, TaskInput, input_valid, load, stored_valid, upsert, observe, finish, fired, due,
  replaced, settled, distinct, task_valid, fresh_task,
}
use zwrt_datad.Tasks.Params.{
  action_valid, scheduled_sms_params, exact_object, scheduled_sms_valid, cell_lock_valid, sms_time,
  message_hex,
}
use zwrt_datad.Tasks.Trace.{
  Event, upserted, observed, finished, restarted, Sample, apply, run, run_days,
}
use zwrt_datad.Tasks.Distinct.{AreValid}
use zwrt_datad.Tasks.Valid.{tasks-AreValid}
use zwrt_datad.Tasks.Once.{runs-IsAscending}
use zwrt_datad.Tasks.Actions.{IsReviewed, runs-AreReviewed}
use zwrt_datad.Tasks.Failed.{runs, failed_attempt}

abbrev reboot : TaskInput
reboot = record {
  id = codes "night";
  time = codes "04:30";
  repeat_daily = true;
  action = codes "device.reboot";
  params = object end;
}

abbrev at : Bool → Bytes → Event → Sample
at saves line event = record { date_output = some line; saves = saves; event = event }

abbrev setup : List Sample
setup = at true (codes "2026-09-28 12:00 +0800") (upserted reboot) ∷ []

-- Observed twice in its minute with a restart between, and on the next day.
abbrev nights : List Sample
nights =
    at true (codes "2026-09-29 04:30 +0800") (observed false)
    ∷ at true (codes "2026-09-29 04:30 +0800") (finished (codes "night") (codes "2026-09-29") true)
    ∷ at true (codes "2026-09-29 04:30 +0800") restarted
    ∷ at true (codes "2026-09-29 04:30 +0800") (observed false)
    ∷ at true (codes "2026-09-30 04:30 +0800") (observed false)
    ∷ []

night_days : run_days (codes "night") (run (load missing) setup) nights ≡ 20260929 ∷ 20260930 ∷ []
unfolding run_days run apply load stored_valid task_valid distinct upsert input_valid action_valid
    replaced observe fired due finish settled local_clock parse_clock words valid_date days_in
    valid_time valid_offset is_digit text_eq text_lt one_of chars is_control is_whitespace trim size
    as_object
night_days = refl

runs-IsAscending_example :
    IsAscending 0 (run_days (codes "night") (run (load missing) setup) nights)
runs-IsAscending_example =
    runs-IsAscending missing setup nights (codes "night") (tt, (tt, (tt, (tt, (tt, tt)))))

tasks-AreValid_example :
    AreValid (run (load missing) (setup ++ nights)).stored.tasks
    × ((load (run (load missing) (setup ++ nights)).path).stored
        ≡ (run (load missing) (setup ++ nights)).stored)
tasks-AreValid_example = tasks-AreValid missing (setup ++ nights)

abbrev held : TaskSchedule
held = record {
  path = missing;
  stored = record { schema = 1; tasks = fresh_task reboot ∷ [] };
  error = none;
}

abbrev half_past : Clock
half_past = record { date = codes "2026-09-29"; time = codes "04:30"; offset = codes "+0800" }

failed_attempt_example :
    let (s', input) = observe false false held (some half_past) in
    (input ≡ none)
    × (s'.stored ≡ held.stored)
    × (s'.path ≡ held.path)
    × (runs s' (at true (codes "2026-09-29 04:30 +0800") (observed false) ∷ []) ≡ [])
unfolding fired due text_eq
failed_attempt_example =
    failed_attempt held half_past (at true (codes "2026-09-29 04:30 +0800") (observed false) ∷ [])
      refl (λ h. cc h) (tt, tt)

slot_two :
    action_valid (codes "sim.set_slot") (object (entry (codes "slot") (number (pos_int 2)) end))
    ≡ true
unfolding action_valid text_eq one_of exact_object as_object size get as_i64 cell_lock_valid
    scheduled_sms_valid
slot_two = refl

greeting :
    scheduled_sms_params
      (codes "sms.send_scheduled")
      (object (
        entry
          (codes "number")
          (string (codes "+123"))
          (entry (codes "text") (string (codes "hi")) end)))
      half_past
    ≡ some (
        object (
          entry (codes "message_hex") (string (codes "00680069")) (
            entry (codes "number") (string (codes "+123")) (
              entry
                (codes "sender")
                (string (codes "host"))
                (entry (codes "sms_time") (string (codes "26;09;29;04;30;00;+;0")) end)))))
unfolding scheduled_sms_params text_eq scheduled_sms_valid as_object size get as_str is_digit chars
    trim is_whitespace is_control utf16 valid_date days_in valid_time message_hex sms_time
greeting = refl

runs-AreReviewed_example : All IsReviewed (runs (load missing) (setup ++ nights))
runs-AreReviewed_example = runs-AreReviewed missing (setup ++ nights)
