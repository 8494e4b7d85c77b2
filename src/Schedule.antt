-- ===== src/Schedule.antt =====
-- reboot_schedule.rs: the daily reboot plan.
pub mod LocalClock
pub mod Dates
pub mod Trace
pub mod Once
pub mod Due
use LocalClock.{Clock, valid_time, valid_date}
use zwrt_datad.Prelude.{
  ℕ, Bool, true, false, not, ◌&&◌, ◌||◌, Option, none, some, List, [], ◌∷◌, ◌==◌, if◌then◌else◌,
}
use zwrt_datad.Prelude.Text.{Bytes, codes, text_eq, text_lt}
use zwrt_datad.Storage.{DiskFile, missing, invalid, holds}

pub record Stored : Type 0 where
  pub schema : ℕ
  pub enabled : Bool
  pub time : Bytes
  pub last_attempt_date : Bytes

pub data Error : Type 0 where
  invalid_time oem_schedule_enabled device_clock_unavailable schedule_storage_failed : Error
  invalid_config device_reboot_failed : Error

pub record Schedule : Type 0 where
  pub path : DiskFile Stored
  pub stored : Stored
  pub clock : Option Clock
  pub conflict : Bool
  pub error : Option Error

abbrev pub default_stored : Stored
default_stored = record {
  schema = 1;
  enabled = false;
  time = codes "00:00";
  last_attempt_date = [];
}

abbrev pub is_empty : Bytes → Bool
is_empty [] = true
is_empty (_ ∷ _) = false

abbrev pub is_some {ℓ} : {A : Type ℓ} → Option A → Bool
is_some none = false
is_some (some _) = true

-- The filter of `load`.
unfoldable pub loadable : Stored → Bool
loadable s =
    s.schema == 1
    && valid_time s.time
    && (is_empty s.last_attempt_date || valid_date s.last_attempt_date)

loaded : DiskFile Stored → Option Stored
unfolding loadable
loaded (holds s) = if loadable s then some s else none
loaded _ = none

file_error : DiskFile Stored → Option Error
unfolding loaded
file_error missing = none
file_error file = elim (loaded file) [ some _ ↦ none | none ↦ some invalid_config ]

-- `clock` is what `local_clock` gives.
unfoldable pub load : DiskFile Stored → Option Clock → Schedule
unfolding loaded file_error
load path clock = record {
  path = path;
  stored = elim (loaded path) [ some s ↦ s | none ↦ default_stored ];
  clock = clock;
  conflict = false;
  error = file_error path;
}

-- `self.save(&next)` and then `self.stored = next`.
abbrev pub saved : Schedule → Stored → Schedule
saved s next = record s { path = holds next; stored = next }

bool_eq : Bool → Bool → Bool
bool_eq true b = b
bool_eq false b = not b

-- The part of `set` behind its checks; the first argument says whether the save succeeds.
changed : Bool → Schedule → Bool → Bytes → Schedule × Option Error
unfolding bool_eq
changed saves s enabled time =
    if not (bool_eq s.stored.enabled enabled) || not (text_eq s.stored.time time) || is_some s.error
    then if saves
      then (
        record (saved s (record s.stored { enabled = enabled; time = time })) { error = none },
        none,
      )
      else (s, some schedule_storage_failed)
    else (s, none)

unfoldable pub set : Bool → Schedule → Bool → Bytes → Bool → Schedule × Option Error
unfolding changed
set saves s enabled time conflict =
    let s' = record s { conflict = conflict } in
    if not (valid_time time)
    then (s, some invalid_time)
    else if enabled && conflict
    then (s', some oem_schedule_enabled)
    else if enabled && not (is_some s'.clock)
    then (s', some device_clock_unavailable)
    else changed saves s' enabled time

unfoldable pub set_environment : Schedule → Option Clock → Bool → Schedule
set_environment s clock conflict = record s { clock = clock; conflict = conflict }

due : Schedule → Clock → Bool
due s clock =
    s.stored.enabled
    && not s.conflict
    && not (is_some s.error)
    && text_eq clock.time s.stored.time
    && (is_empty s.stored.last_attempt_date || text_lt s.stored.last_attempt_date clock.date)

attempt : Bool → Schedule → Bytes → Schedule × Bool
attempt true s date = (saved s (record s.stored { last_attempt_date = date }), true)
attempt false s date = (record s { error = some schedule_storage_failed }, false)

observe_at : Bool → Schedule → Option Clock → Schedule × Bool
unfolding due attempt
observe_at saves s none = (s, false)
observe_at saves s (some clock) = if due s clock then attempt saves s clock.date else (s, false)

-- The first argument is `clock_change_in_progress()`, the second the outcome of the save.
unfoldable pub observe : Bool → Bool → Schedule → Option Clock → Bool → Schedule × Bool
unfolding observe_at set_environment
observe changing saves s clock conflict =
    if changing then (s, false) else observe_at saves (set_environment s clock conflict) clock

unfoldable pub reboot_failed : Schedule → Schedule
reboot_failed s = record s { error = some device_reboot_failed }
