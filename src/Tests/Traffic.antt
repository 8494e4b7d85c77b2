-- ===== src/Tests/Traffic.antt =====
-- The traffic history at concrete inputs.
use zwrt_datad.Prelude.{ℕ, ◌+◌, ◌*◌, ◌≡◌, refl, true, false, some, List, [], ◌∷◌, length, arith}
use zwrt_datad.Prelude.Int.{pos}
use zwrt_datad.Prelude.Text.{Bytes, codes, text_eq, text_lt, is_digit}
use zwrt_datad.Prelude.Utf8.{chars, trim, is_whitespace}
use zwrt_datad.Json.{object, entry, end, number, pos_int, as_object, as_u64, get}
use zwrt_datad.Storage.{missing, holds}
use zwrt_datad.Schedule.LocalClock.{valid_date, days_in}
use zwrt_datad.Traffic.{
  Stored, load, loaded, loadable, days, lookup, latest_date, put, refused, unchanged, crossed_day,
  latest_day, increment, oldest, evict, counted, apply_sample,
}
use zwrt_datad.Traffic.Recorder.{
  Surroundings, local_date, counter_of, seconds_of, new_generation, new_time, is_early, persist,
  sampled, timed, read, record_sample,
}
use zwrt_datad.Traffic.Counted.{IsHistory}
use zwrt_datad.Traffic.Trace.{Event, recorded, step, run}
use zwrt_datad.Traffic.Kept.{run-IsHistory}
use zwrt_datad.Traffic.Saved.{saved_sample}
use zwrt_datad.Traffic.Growth.{Reading, day_run}

-- A text of 100 bytes and 60 for each day.
abbrev size : Stored → ℕ
size s = 100 + 60 * length s.days

abbrev sample : Bytes → ℕ → ℕ → ℕ → Surroundings
sample date elapsed now counter = record {
  leased = true;
  changing = false;
  generation = 3;
  elapsed = elapsed * 1000000000;
  traffic = some (
      object (
        entry (codes "day_rx_bytes") (number (pos_int counter))
          (entry (codes "day_tx_bytes") (number (pos_int 1)) end)));
  now = some now;
  date_output = some date;
  saves = true;
}

abbrev evening : List Event
evening =
    recorded (sample (codes "2026-09-28\n") 100 1790000000 500)
    ∷ recorded (sample (codes "2026-09-28\n") 500 1790000400 700)
    ∷ []

abbrev midnight : Surroundings
midnight = sample (codes "2026-09-29\n") 900 1790000800 20

two_days :
    days (record_sample size midnight (run size (load missing 3) evening)).0
    ≡ record { date = codes "2026-09-28"; bytes = 701 }
      ∷ record { date = codes "2026-09-29"; bytes = 21 }
      ∷ []
unfolding days record_sample run step load loaded read timed sampled persist new_generation new_time
    is_early seconds_of counter_of local_date apply_sample counted refused unchanged increment
    crossed_day latest_date latest_day lookup put evict oldest chars trim is_whitespace valid_date
    days_in is_digit text_eq text_lt as_object as_u64 get
two_days = refl

run-IsHistory_example : IsHistory (run size (load missing 3) evening).stored
run-IsHistory_example = run-IsHistory size missing 3 evening tt

midnight_counted : (record_sample size midnight (run size (load missing 3) evening)).1 ≡ true
unfolding record_sample run step load loaded read timed sampled persist new_generation new_time
    is_early seconds_of counter_of local_date apply_sample counted refused unchanged increment
    crossed_day latest_date latest_day lookup put evict oldest chars trim is_whitespace valid_date
    days_in is_digit text_eq text_lt as_object as_u64 get
midnight_counted = refl

at_220 : size (record_sample size midnight (run size (load missing 3) evening)).0.stored ≡ 220
unfolding record_sample run step load loaded read timed sampled persist new_generation new_time
    is_early seconds_of counter_of local_date apply_sample counted refused unchanged increment
    crossed_day latest_date latest_day lookup put evict oldest chars trim is_whitespace valid_date
    days_in is_digit text_eq text_lt as_object as_u64 get
at_220 = refl

saved_sample_example :
    let h = (record_sample size midnight (run size (load missing 3) evening)).0 in
    (load h.path 4).stored ≡ h.stored
saved_sample_example =
    saved_sample size missing 3 evening midnight 4 tt midnight_counted refl (omega (arith, at_220))

abbrev yesterday : Stored
yesterday = record {
  schema = 1;
  last_sample_at = pos 1790000000;
  days = (codes "2026-09-28", record { bytes = 500; last_counter = 500 }) ∷ [];
  active_day = some (codes "2026-09-28");
}

abbrev today : List Reading
today =
    record { now = 1790000400; counter = 30 }
    ∷ record { now = 1790000500; counter = 40 }
    ∷ record { now = 1790000800; counter = 50 }
    ∷ record { now = 1790001200; counter = 10 }
    ∷ []

today_counted :
    (day_run (load (holds yesterday) 3) (codes "2026-09-29") today).1 ≡ 30 ∷ 50 ∷ 10 ∷ []
unfolding day_run load loaded loadable apply_sample counted refused unchanged increment crossed_day
    latest_date latest_day lookup put evict oldest valid_date days_in is_digit text_eq text_lt
today_counted = refl
