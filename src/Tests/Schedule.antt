-- ===== src/Tests/Schedule.antt =====
-- The reboot schedule at concrete inputs.
use zwrt_datad.Prelude.{◌≡◌, refl, Bool, true, false, Option, none, some, List, [], ◌∷◌, ltb}
use zwrt_datad.Prelude.Utf8.{chars, is_whitespace}
use zwrt_datad.Prelude.Text.{Bytes, codes, text_eq, text_lt, is_digit}
use zwrt_datad.Storage.{missing}
use zwrt_datad.Schedule.LocalClock.{
  Clock, valid_date, valid_time, valid_offset, days_in, words, parse_clock, local_clock,
}
use zwrt_datad.Schedule.Dates.{day_number, text_lt-day_number}
use zwrt_datad.Schedule.Trace.{Sample, configured, seen, observed, restarted, reboot_days, apply}
use zwrt_datad.Schedule.Once.{IsAscending, reboots-IsAscending}
use zwrt_datad.Schedule.{load, set, observe, loadable}

text_lt-day_number_example :
    text_lt (codes "2026-02-28") (codes "2026-10-01")
    ≡ ltb (day_number (codes "2026-02-28")) (day_number (codes "2026-10-01"))
unfolding valid_date is_digit days_in
text_lt-day_number_example = text_lt-day_number (codes "2026-02-28") (codes "2026-10-01") refl refl

no_leap_day : valid_date (codes "2027-02-29") ≡ false
unfolding valid_date is_digit days_in
no_leap_day = refl

abbrev at : Bool → Bytes → Sample
at saves line = record { date_output = some line; saves = saves; event = observed false false }

-- Enabled for 04:30, observed twice in that minute with a restart between, and on the next day.
abbrev week : List Sample
week =
    record { date_output = none; saves = true; event = configured true (codes "04:30") false }
    ∷ at false (codes "2026-09-29 04:30 +0800")
    ∷ record {
      date_output = some (codes "2026-09-29 04:30 +0800");
      saves = true;
      event = restarted;
    }
    ∷ at true (codes "2026-09-29 04:30 +0800")
    ∷ at true (codes "2026-09-29 04:30 +0800")
    ∷ at true (codes "2026-09-30 04:30 +0800")
    ∷ []

abbrev some_clock : Option Clock
some_clock =
    some (record { date = codes "2026-09-28"; time = codes "12:00"; offset = codes "+0800" })

week_days : reboot_days (load missing some_clock) week ≡ 20260929 ∷ 20260930 ∷ []
unfolding reboot_days apply load loadable set observe local_clock parse_clock words chars
    is_whitespace valid_date days_in valid_time valid_offset is_digit text_eq text_lt
week_days = refl

reboots-IsAscending_example : IsAscending 0 (reboot_days (load missing some_clock) week)
reboots-IsAscending_example = reboots-IsAscending missing some_clock week

abbrev half_past : Clock
half_past = record { date = codes "2026-09-29"; time = codes "04:30"; offset = codes "+0800" }

-- Another minute, a clock change, a conflict, and no clock.
abbrev quiet : List Sample
quiet =
    at false (codes "2026-09-28 23:59 +0800")
    ∷ record {
      date_output = some (codes "2026-09-29 04:30 +0800");
      saves = true;
      event = observed true false;
    }
    ∷ record {
      date_output = some (codes "2026-09-29 04:30 +0800");
      saves = true;
      event = observed false true;
    }
    ∷ record { date_output = none; saves = false; event = seen true }
    ∷ record { date_output = none; saves = false; event = observed false false }
    ∷ []
