-- ===== src/Traffic/Growth.antt =====
-- What the samples of one day add up to.
use zwrt_datad.Prelude.{
  ℕ, ◌+◌, ◌≡◌, ◌-◌, Bool, true, false, some, List, [], ◌∷◌, ltb, if◌then◌else◌,
}
use zwrt_datad.Prelude.Text.{Bytes}
use zwrt_datad.Traffic.{Day, Days, History, lookup, day_or_new, apply_sample}
use zwrt_datad.Traffic.Counted.{IsHistory}

-- A time and the router's daily counter at that time.
pub record Reading : Type 0 where
  pub now : ℕ
  pub counter : ℕ

abbrev kept_if : Bool → ℕ → List ℕ → List ℕ
kept_if true counter counters = counter ∷ counters
kept_if false counter counters = counters

-- The readings of one day, one after the other; the second part are the counters that were counted.
unfoldable pub day_run : History → Bytes → List Reading → History × List ℕ
day_run h date [] = (h, [])
day_run h date (r ∷ readings) =
    let (h', changed) = apply_sample h date r.now r.counter in
    let (h'', counters) = day_run h' date readings in (h'', kept_if changed r.counter counters)

-- How far a counter moves on over its readings: a reading below the one before has started again from
-- zero and counts in full, any other counts by how far it is above the one before.
unfoldable pub growth : ℕ → List ℕ → ℕ
growth previous [] = 0
growth previous (counter ∷ counters) =
    (if ltb counter previous then counter else counter - previous) + growth counter counters

abbrev pub total : Bytes → Days → ℕ
total date days = (day_or_new (lookup date days)).bytes

record IsOnDay (h : History) (date : Bytes) (day : Day) : Type 0 where
  in_order : IsHistory h.stored
  no_relabel : h.allow_relabel ≡ false
  active_now : h.stored.active_day ≡ some date
  on_day : lookup date h.stored.days ≡ some day
