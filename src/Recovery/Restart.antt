-- ===== src/Recovery/Restart.antt =====
-- What a restart of the daemon finds on disk.
use zwrt_datad.Prelude.{ℕ, ◌≡◌, inl, inr, true, List, arith}
use zwrt_datad.Recovery.Probe.{Parsers}
use zwrt_datad.Recovery.State.{Recovery, DiskFile, default_config, valid, loadable, load}
use zwrt_datad.Recovery.Trace.{Sample, run}
use zwrt_datad.Recovery.Invariant.{Inv, run-Inv, load-Inv}

module _ (parsers : Parsers) where
  load-stored :
      (r : Recovery) (now clock_generation : ℕ)
      → Inv parsers r
      → (load parsers r.path now clock_generation).stored ≡ r.stored
  unfolding load loadable
  load-stored r now g i = elim i.on_disk [ inl e ↦ ground arith | inr (e, d) ↦ ground arith ]

  -- Where the default settings are valid, whatever the file held when the daemon started and
  -- whatever was called since, with saves that failed or not: loading the file again gives the
  -- settings, the pause, the redials, the cooldowns and the action times that were in memory.
  pub restart_keeps_stored :
      (file : DiskFile) (started clock_generation : ℕ) (samples : List Sample) (now clock' : ℕ)
      → valid parsers default_config ≡ true
      → let r = run parsers (load parsers file started clock_generation) samples in
        (load parsers r.path now clock').stored ≡ r.stored
  restart_keeps_stored file started g samples now g' h =
      load-stored _ now g'
        (run-Inv parsers (load parsers file started g) samples (load-Inv parsers file started g h))
