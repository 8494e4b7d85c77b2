-- ===== src/Traffic/Trace.antt =====
-- The calls that the daemon makes of the traffic history, and its restarts, in any order.
use zwrt_datad.Prelude.{ℕ, List, [], ◌∷◌}
use zwrt_datad.Traffic.{Stored, History, load}
use zwrt_datad.Traffic.Recorder.{Surroundings, record_sample}

-- `record`, and the `load` of a daemon that starts again at a generation of the clock.
pub data Event : Type 0 where
  recorded : Surroundings → Event
  restarted : ℕ → Event

unfoldable pub step : (Stored → ℕ) → Event → History → History
step size (recorded p) h = (record_sample size p h).0
step size (restarted generation) h = load h.path generation

unfoldable pub run : (Stored → ℕ) → History → List Event → History
unfolding step
run size h [] = h
run size h (e ∷ events) = run size (step size e h) events
