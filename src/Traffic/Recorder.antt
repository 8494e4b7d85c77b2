-- ===== src/Traffic/Recorder.antt =====
-- traffic_history.rs: what `record` reads before it counts a sample, and the save behind it.
use zwrt_datad.Prelude.{
  ℕ, ◌+◌, ◌-◌, ◌/◌, ◌^◌, Bool, true, false, not, ◌&&◌, ◌||◌, Option, none, some, ltb, ◌==◌, length,
  if◌then◌else◌,
}
use zwrt_datad.Prelude.Int.{pos}
use zwrt_datad.Prelude.Text.{Bytes, codes}
use zwrt_datad.Prelude.Utf8.{chars, trim}
use zwrt_datad.Json.{Value, as_object, as_u64, get}
use zwrt_datad.Storage.{holds}
use zwrt_datad.Schedule.LocalClock.{valid_date}
use zwrt_datad.Traffic.{Stored, History, sample_seconds, max_file_bytes, earlier, apply_sample}

-- What a call reads: whether the lease of the clock is granted, `clock_change_in_progress`,
-- `clock_generation`, the elapsed time in nanoseconds, the `traffic` field of the snapshot, the
-- seconds since the epoch, what `/bin/date` printed if it succeeded and printed UTF-8, and whether
-- the file can be written.
pub record Surroundings : Type 0 where
  pub leased : Bool
  pub changing : Bool
  pub generation : ℕ
  pub elapsed : ℕ
  pub traffic : Option Value
  pub now : Option ℕ
  pub date_output : Option Bytes
  pub saves : Bool

unfoldable pub local_date : Option Bytes → Option Bytes
local_date none = none
local_date (some output) =
    let date = trim (chars output) in
    if ltb 32 (length output) then none else if valid_date date then some date else none

abbrev counter_field : Bytes → Option Value → Option ℕ
counter_field key none = none
counter_field key (some value) = elim (as_object value) [
  | none ↦ none
  | some fields ↦ elim (get key fields) [ none ↦ none | some v ↦ as_u64 v ]
]

-- `rx.checked_add(tx)`
unfoldable pub counter_of : Option Value → Option ℕ
counter_of traffic = elim (counter_field (codes "day_rx_bytes") traffic) [
  | none ↦ none
  | some rx ↦ elim (counter_field (codes "day_tx_bytes") traffic) [
    | none ↦ none
    | some tx ↦ if ltb (rx + tx) (2 ^ 64) then some (rx + tx) else none
  ]
]

-- `i64::try_from` of the seconds since the epoch.
unfoldable pub seconds_of : Option ℕ → Option ℕ
seconds_of none = none
seconds_of (some now) = if ltb now (2 ^ 63) then some now else none

abbrev pub relabelled : History → History
relabelled h = record h {
  stored = record h.stored { last_sample_at = pos 0 };
  allow_relabel = true;
}

unfoldable pub new_generation : History → ℕ → History
new_generation h generation =
    if generation == h.clock_generation
    then h
    else record (relabelled h) { clock_generation = generation }

unfoldable pub new_time : History → ℕ → History
new_time h now = if earlier now h.stored.last_sample_at then relabelled h else h

unfoldable pub is_early : History → ℕ → Bool
is_early h elapsed = elim h.last_sample_elapsed [
  | none ↦ false
  | some previous ↦ ltb ((elapsed - previous) / 1000000000) sample_seconds
]

-- `size` is the length of the JSON text that serde_json writes.
unfoldable pub persist : (Stored → ℕ) → Bool → History → History
persist size saves h =
    if not (ltb max_file_bytes (size h.stored)) && saves
    then record h { path = holds h.stored }
    else h

-- The part of `record` behind the time and the date.
unfoldable pub sampled : (Stored → ℕ) → Surroundings → History → Bytes → ℕ → ℕ → History × Bool
unfolding persist
sampled size p h date now counter =
    let (h', changed) = apply_sample h date now counter in
    let next : History = record h' { last_sample_elapsed = some p.elapsed } in
    (if changed then persist size p.saves next else next, changed)

-- The part of `record` behind the counter.
unfoldable pub timed : (Stored → ℕ) → Surroundings → History → ℕ → History × Bool
unfolding sampled new_time seconds_of local_date
timed size p h counter = elim (seconds_of p.now) [
  | none ↦ (h, false)
  | some now ↦ elim (local_date p.date_output) [
    | none ↦ (new_time h now, false)
    | some date ↦ sampled size p (new_time h now) date now counter
  ]
]

unfoldable pub read : (Stored → ℕ) → Surroundings → History → History × Bool
unfolding timed counter_of is_early
read size p h =
    if is_early h p.elapsed
    then (h, false)
    else elim (counter_of p.traffic) [ none ↦ (h, false) | some counter ↦ timed size p h counter ]

-- `record`
unfoldable pub record_sample : (Stored → ℕ) → Surroundings → History → History × Bool
unfolding read new_generation
record_sample size p h =
    if not p.leased || p.changing then (h, false) else read size p (new_generation h p.generation)
