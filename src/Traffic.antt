-- ===== src/Traffic.antt =====
-- traffic_history.rs: the daily totals of cellular traffic. The `BTreeMap` of days is the list of its
-- entries in key order.
pub mod Recorder
pub mod Dates
pub mod Table
pub mod Eviction
pub mod Counted
pub mod Trace
pub mod Kept
pub mod Saved
pub mod Growth
use zwrt_datad.Prelude.{
  ℕ, zero, suc, ◌+◌, ◌-◌, ◌/◌, ◌^◌, ◌≡◌, Bool, true, false, not, ◌&&◌, ◌||◌, Option, none, some,
  List, [], ◌∷◌, map, ltb, leb, ◌==◌, length, all, retain, last, if◌then◌else◌,
}
use zwrt_datad.Prelude.Int.{ℤ, pos, negsuc}
use zwrt_datad.Prelude.Words.{saturating_add_u64}
use zwrt_datad.Prelude.Text.{Bytes, codes, text_eq, text_lt}
use zwrt_datad.Json.{Value, as_object, as_u64, get}
use zwrt_datad.Storage.{DiskFile, missing, invalid, holds}
use zwrt_datad.Schedule.LocalClock.{valid_date}

abbrev pub sample_seconds : ℕ
sample_seconds = 300

abbrev pub max_days : ℕ
max_days = 400

abbrev pub max_file_bytes : ℕ
max_file_bytes = 98304

abbrev pub max_daily_bytes : ℕ
max_daily_bytes = 109951162777600

abbrev pub min_clock_seconds : ℕ
min_clock_seconds = 1704067200

pub record Day : Type 0 where
  pub bytes : ℕ
  pub last_counter : ℕ

abbrev pub Days : Type 0
Days = List (Bytes × Day)

pub record Stored : Type 0 where
  pub schema : ℕ
  pub last_sample_at : ℤ
  pub days : Days
  pub active_day : Option Bytes

pub record Usage : Type 0 where
  pub date : Bytes
  pub bytes : ℕ

-- The elapsed time counts nanoseconds.
pub record History : Type 0 where
  pub path : DiskFile Stored
  pub stored : Stored
  pub last_sample_elapsed : Option ℕ
  pub clock_generation : ℕ
  pub allow_relabel : Bool

abbrev pub default_stored : Stored
default_stored = record { schema = 1; last_sample_at = pos 0; days = []; active_day = none }

-- `BTreeMap::get`, `insert` and `remove`
unfoldable pub lookup : Bytes → Days → Option Day
lookup date [] = none
lookup date ((d, day) ∷ days) = if text_eq d date then some day else lookup date days

unfoldable pub put : Bytes → Day → Days → Days
put date new [] = (date, new) ∷ []
put date new ((d, day) ∷ days) =
    let rest = put date new days in
    if text_eq d date
    then (d, new) ∷ days
    else if text_lt date d
    then (date, new) ∷ (d, day) ∷ days
    else (d, day) ∷ rest

abbrev pub remove : Bytes → Days → Days
remove date = retain (λ entry. not (text_eq entry.0 date))

abbrev pub has_day : Bytes → Days → Bool
has_day date days = elim (lookup date days) [ none ↦ false | some day ↦ true ]

abbrev pub within : Day → Bool
within day = leb day.bytes max_daily_bytes && leb day.last_counter max_daily_bytes

unfoldable pub loadable : Stored → Bool
loadable value =
    value.schema == 1
    && (elim value.active_day [
      | none ↦ true
      | some date ↦ valid_date date && has_day date value.days
    ])
    && leb (length value.days) max_days
    && all (λ entry. valid_date entry.0) value.days
    && all (λ entry. within entry.1) value.days

unfoldable pub loaded : DiskFile Stored → Stored
unfolding loadable
loaded (holds value) = if loadable value then value else default_stored
loaded _ = default_stored

-- A file of more than `max_file_bytes` is `invalid`. The second argument is `clock_generation()`.
unfoldable pub load : DiskFile Stored → ℕ → History
unfolding loaded
load path generation = record {
  path = path;
  stored = loaded path;
  last_sample_elapsed = none;
  clock_generation = generation;
  allow_relabel = false;
}

unfoldable pub days : History → List Usage
days h = map (λ entry. record { date = entry.0; bytes = entry.1.bytes }) h.stored.days

abbrev pub last_date : Days → Option Bytes
last_date days = elim (last days) [ none ↦ none | some entry ↦ some entry.0 ]

abbrev pub last_value : Days → Option Day
last_value days = elim (last days) [ none ↦ none | some entry ↦ some entry.1 ]

-- `active_day`, or else the last key.
unfoldable pub latest_date : Stored → Option Bytes
latest_date stored = elim stored.active_day [ some date ↦ some date | none ↦ last_date stored.days ]

unfoldable pub latest_day : Stored → Option Day
latest_day stored =
    let active : Option Day = elim stored.active_day [
      | none ↦ none
      | some date ↦ lookup date stored.days
    ] in
    elim active [ some day ↦ some day | none ↦ last_value stored.days ]

-- `now < last`, and `now - last < SAMPLE_SECONDS`, which wraps in 64 bits.
abbrev pub earlier : ℕ → ℤ → Bool
earlier now (pos last) = ltb now last
earlier now (negsuc n) = false

abbrev pub too_soon : ℕ → ℤ → Bool
too_soon now (pos last) = ltb now (last + sample_seconds)
too_soon now (negsuc n) = ltb (now + suc n) sample_seconds || leb (2 ^ 63) (now + suc n)

abbrev pub goes_back : Bytes → Option Bytes → Bool
goes_back date none = false
goes_back date (some last) = text_lt date last

unfoldable pub refused : History → Bytes → ℕ → ℕ → Bool
unfolding latest_date
refused h date now counter =
    ltb now min_clock_seconds
    || not (valid_date date)
    || ltb max_daily_bytes counter
    || earlier now h.stored.last_sample_at
    || (not h.allow_relabel && goes_back date (latest_date h.stored))
    || (has_day date h.stored.days && too_soon now h.stored.last_sample_at)

abbrev pub is_date : Option Bytes → Bytes → Bool
is_date none date = false
is_date (some d) date = text_eq d date

abbrev pub is_counter : Option Day → ℕ → Bool
is_counter none counter = false
is_counter (some day) counter = day.last_counter == counter

unfoldable pub unchanged : Stored → Bytes → ℕ → Bool
unchanged stored date counter =
    is_date stored.active_day date && is_counter (lookup date stored.days) counter

unfoldable pub crossed_day : Stored → Bytes → Bool
unfolding latest_date
crossed_day stored date = elim (latest_date stored) [
  | none ↦ false
  | some previous ↦ not (text_eq previous date)
]

-- What the counter grew by, where a lower counter has started again.
abbrev pub delta : ℕ → ℕ → ℕ
delta previous counter = if leb previous counter then counter - previous else counter

unfoldable pub increment : History → Bytes → ℕ → ℕ
unfolding crossed_day latest_day
increment h date counter =
    if crossed_day h.stored date && not h.allow_relabel
    then counter
    else elim (latest_day h.stored) [ none ↦ counter | some day ↦ delta day.last_counter counter ]

-- The first day that is not the active one.
unfoldable pub oldest : Bytes → Days → Option Bytes
oldest active [] = none
oldest active ((d, day) ∷ days) =
    let rest = oldest active days in if text_eq d active then rest else some d

-- The loop that keeps `max_days` days; each round removes one, so as many rounds as days are enough.
unfoldable pub evict : ℕ → Bytes → Days → Days
unfolding oldest
evict zero active days = days
evict (suc fuel) active days = elim (oldest active days) [
  | none ↦ days
  | some d ↦
      let rest = evict fuel active (remove d days) in
      if ltb max_days (length days) then rest else days
]

-- `entry(date).or_insert(…)`
abbrev pub day_or_new : Option Day → Day
day_or_new none = record { bytes = 0; last_counter = 0 }
day_or_new (some day) = day

-- The part of `apply_sample` behind its early returns.
unfoldable pub counted : History → Bytes → ℕ → ℕ → History × Bool
unfolding increment evict
counted h date now counter =
    let day = day_or_new (lookup date h.stored.days) in
    let next = saturating_add_u64 day.bytes (increment h date counter) in
    let days = put date (record { bytes = next; last_counter = counter }) h.stored.days in
    let stored : Stored = record h.stored {
      last_sample_at = pos now;
      days = evict (length days) date days;
      active_day = some date;
    } in
    if ltb max_daily_bytes next
    then (record h { stored = record h.stored { days = put date day h.stored.days } }, false)
    else (record h { stored = stored; allow_relabel = false }, true)

unfoldable pub apply_sample : History → Bytes → ℕ → ℕ → History × Bool
unfolding refused unchanged counted
apply_sample h date now counter =
    if refused h date now counter || unchanged h.stored date counter
    then (h, false)
    else counted h date now counter
