-- ===== src/Route/Trace.antt =====
-- The calls that the cloud connection makes of the route, and restarts, in any order.
use zwrt_datad.Prelude.{Bool, some, none, List, [], ◌∷◌, Option}
use zwrt_datad.Storage.{DiskFile, missing}
use zwrt_datad.Route.{Web, Saved, CloudConfig, SetCommand, MqttRoute, load, apply, set_on_fallback}

-- `apply` under the settings of that time, `set_on_fallback`, and the `load` of a new start.
pub data Event : Type 0 where
  commanded : CloudConfig → SetCommand → Event
  on_fallback : Bool → Event
  restarted : Event

-- A call, and whether a save succeeds at that time.
pub record Sample : Type 0 where
  pub saves : Bool
  pub event : Event

module _ (web : Web) where
  abbrev pub reload : Option (DiskFile Saved) → MqttRoute
  reload none = load web missing
  reload (some file) = load web file

  unfoldable pub step : Bool → Event → MqttRoute → MqttRoute
  step saves (commanded config command) s = (apply web saves config s command).0
  step saves (on_fallback value) s = set_on_fallback s value
  step saves restarted s = reload s.file

  unfoldable pub run : MqttRoute → List Sample → MqttRoute
  unfolding step
  run s [] = s
  run s (p ∷ samples) = run (step p.saves p.event s) samples
