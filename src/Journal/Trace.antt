-- ===== src/Journal/Trace.antt =====
-- The calls that the daemon makes of the journal, and its restarts, in any order.
use zwrt_datad.Prelude.{ℕ, Bool, List, [], ◌∷◌}
use zwrt_datad.Prelude.Text.{Bytes}
use zwrt_datad.Storage.{missing}
use zwrt_datad.Journal.{Journal, Stored, Level, Report, load, push, flush, set_level, clear}

pub data Event : Type 0 where
  pushed : (now : ℕ) (device_time : Bytes) → Report → Event
  flushed cleared restarted : Event
  level_set : Level → Event

-- A call, and whether a save succeeds at that time.
pub record Sample : Type 0 where
  pub saves : Bool
  pub event : Event

unfoldable pub apply : (Stored → Bool) → Bool → Event → Journal → Journal
apply fits saves (pushed now device_time report) j = push saves now device_time j report
apply fits saves flushed j = flush saves j
apply fits saves cleared j = (clear saves j).0
apply fits saves (level_set level) j = (set_level saves j level).0
apply fits saves restarted j = load fits j.path

unfoldable pub run : (Stored → Bool) → Journal → List Sample → Journal
run fits j [] = j
run fits j (s ∷ samples) = run fits (apply fits s.saves s.event j) samples

-- The journal of a daemon that found no file.
abbrev pub started : (Stored → Bool) → List Sample → Journal
started fits samples = run fits (load fits missing) samples
