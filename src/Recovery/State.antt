-- ===== src/Recovery/State.antt =====
-- network_recovery.rs: the settings of the network recovery, its state, and how it is loaded.
-- The file at `path` is modelled by what it holds. `activity::save` writes a temporary file and
-- renames it last, so a save replaces the file or leaves it; which of the two is an input.
use zwrt_datad.Prelude.{
  ℕ, Bool, true, false, not, ◌&&◌, ◌||◌, Option, none, some, List, [], ◌∷◌, leb, ◌==◌, length,
  if◌then◌else◌,
}
use zwrt_datad.Prelude.Words.{add_u64}
use zwrt_datad.Prelude.Text.{Bytes, codes, one_of, starts_with, lowercase}
use zwrt_datad.Recovery.Probe.{Parsers, valid_probe_url}

pub record Config : Type 0 where
  pub enabled : Bool
  pub interval_seconds : ℕ
  pub failure_threshold : ℕ
  pub cooldown_seconds : ℕ
  pub max_redials : ℕ
  pub reboot_after_failures : Bool
  pub probe_urls : List Bytes

pub record Stored : Type 0 where
  pub config : Config
  pub paused : Bool
  pub redials : ℕ
  pub next_allowed : ℕ
  pub last_reboot : ℕ
  pub action_times : List ℕ

pub data Status : Type 0 where
  disabled waiting clock_unavailable waiting_cellular online offline : Status
  cooldown limit_reached rebooting redialing storage_failed manual_pause : Status

-- The file: not there, there but not readable as a `Stored`, or holding one.
pub data DiskFile : Type 0 where
  missing invalid : DiskFile
  holds : Stored → DiskFile

pub record Recovery : Type 0 where
  pub path : DiskFile
  pub stored : Stored
  pub generation : ℕ
  pub failures : ℕ
  pub successes : ℕ
  pub status : Status
  pub last_check : ℕ
  pub storage_ok : Bool
  pub startup_until : ℕ
  pub last_manual_check : ℕ
  pub clock_generation : ℕ

pub record Plan : Type 0 where
  pub generation : ℕ
  pub reboot : Bool

pub data Error : Type 0 where
  invalid_recovery_config save_failed : Error

-- What an operation reads from the rest of the daemon: whether a clock change is in progress, the
-- clock generation, and whether the saves of `may_probe` and of the operation itself succeed.
pub record Surroundings : Type 0 where
  pub clock_change_in_progress : Bool
  pub clock_generation : ℕ
  pub resync_saves : Bool
  pub saves : Bool

abbrev default_probe_urls : List Bytes
default_probe_urls =
    codes "https://www.baidu.com/"
    ∷ codes "https://www.qq.com/"
    ∷ codes "https://cp.cloudflare.com/generate_204"
    ∷ []

abbrev pub default_config : Config
default_config = record {
  enabled = false;
  interval_seconds = 60;
  failure_threshold = 3;
  cooldown_seconds = 300;
  max_redials = 3;
  reboot_after_failures = false;
  probe_urls = default_probe_urls;
}

abbrev pub default_stored : Stored
default_stored = record {
  config = default_config;
  paused = false;
  redials = 0;
  next_allowed = 0;
  last_reboot = 0;
  action_times = [];
}

unfoldable pub network_action : Bytes → Bool
unfolding one_of starts_with
network_action action =
    one_of action (
      codes "cellular.connect"
      ∷ codes "cellular.disconnect"
      ∷ codes "cellular.set"
      ∷ codes "network.set_mode"
      ∷ codes "sim.set_slot"
      ∷ codes "device.reboot"
      ∷ codes "device.poweroff"
      ∷ [])
    || starts_with (codes "band.") action
    || starts_with (codes "cell.") action
    || one_of action (
        codes "apn.set_mode"
        ∷ codes "apn.add"
        ∷ codes "apn.modify"
        ∷ codes "apn.delete"
        ∷ codes "apn.enable"
        ∷ [])

module _ (parsers : Parsers) where
  -- The closure of `all`: `seen` holds the lowercase URLs met so far.
  unfoldable pub distinct_probe_urls : List Bytes → List Bytes → Bool
  unfolding one_of lowercase valid_probe_url
  distinct_probe_urls seen [] = true
  distinct_probe_urls seen (url ∷ urls) =
      let rest = distinct_probe_urls (lowercase url ∷ seen) urls in
      if valid_probe_url parsers url && not (one_of (lowercase url) seen) then rest else false

  -- `Config::valid`
  unfoldable pub valid : Config → Bool
  unfolding distinct_probe_urls
  valid c =
      (c.interval_seconds == 30 || c.interval_seconds == 60 || c.interval_seconds == 120)
      && (leb 3 c.failure_threshold && leb c.failure_threshold 10)
      && (leb 180 c.cooldown_seconds && leb c.cooldown_seconds 3600)
      && (leb 1 c.max_redials && leb c.max_redials 5)
      && (leb 1 (length c.probe_urls) && leb (length c.probe_urls) 4)
      && distinct_probe_urls [] c.probe_urls

  -- The filter on what `activity::read` gives.
  unfoldable pub loadable : Stored → Bool
  loadable s = valid s.config && leb s.redials 5 && leb (length s.action_times) 5

  unfoldable pub loaded : DiskFile → Option Stored
  unfolding loadable
  loaded (holds s) = if loadable s then some s else none
  loaded _ = none

  unfoldable pub storage_readable : DiskFile → Bool
  unfolding loaded
  storage_readable missing = true
  storage_readable file = elim (loaded file) [ none ↦ false | some _ ↦ true ]

  unfoldable pub load : DiskFile → ℕ → ℕ → Recovery
  unfolding loaded storage_readable
  load path now clock_generation = record {
    path = path;
    stored = elim (loaded path) [ none ↦ default_stored | some s ↦ s ];
    generation = 0;
    failures = 0;
    successes = 0;
    status = disabled;
    last_check = 0;
    storage_ok = storage_readable path;
    startup_until = add_u64 now 120;
    last_manual_check = 0;
    clock_generation = clock_generation;
  }
