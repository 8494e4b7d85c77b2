-- ===== src/Schedule/Due.antt =====
-- When the reboot schedule asks for a reboot.
use zwrt_datad.Prelude.{◌≡◌, Bool, true, false, ◌||◌, Option, none, some, ◌⊎◌, List, [], ◌∷◌, All}
use zwrt_datad.Prelude.Text.{Bytes, text_eq, text_lt}
use zwrt_datad.Schedule.LocalClock.{Clock, local_clock}
use zwrt_datad.Schedule.Trace.{Event, seen, observed, Sample, apply}
use zwrt_datad.Schedule.{Schedule, is_empty, is_some}

-- What the plan is as long as no reboot was asked for.
record IsPlanned (time last : Bytes) (s : Schedule) : Type 0 where
  is_enabled : s.stored.enabled ≡ true
  same_time : s.stored.time ≡ time
  no_error : is_some s.error ≡ false
  same_last : s.stored.last_attempt_date ≡ last

-- There was no attempt, or the day comes after the last one.
abbrev pub is_later : Bytes → Clock → Bool
is_later last clock = is_empty last || text_lt last clock.date

-- There is no clock, or it shows another time or a day that does not come after the last attempt.
abbrev pub IsOther : Bytes → Bytes → Option Clock → Type 0
IsOther time last none = Unit
IsOther time last (some clock) = (text_eq clock.time time ≡ false) ⊎ (is_later last clock ≡ false)

-- Calls at which no reboot is due: `set_environment`, and an `observe` during a clock change, in a
-- conflict, or with such a clock. Whether a save would succeed does not matter.
abbrev pub IsEarly : Bytes → Bytes → Option Bytes → Event → Type 0
IsEarly time last output (seen conflict) = Unit
IsEarly time last output (observed changing conflict) =
    (changing ≡ true) ⊎ ((conflict ≡ true) ⊎ IsOther time last (local_clock output))
IsEarly time last output _ = ⊥

unfoldable pub run : Schedule → List Sample → Schedule
run s [] = s
run s (p ∷ samples) = run (apply p p.event s).0 samples

abbrev pub AreEarly : Bytes → Bytes → List Sample → Type 0
AreEarly time last samples = All (λ p. IsEarly time last p.date_output p.event) samples
