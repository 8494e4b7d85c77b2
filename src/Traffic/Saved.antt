-- ===== src/Traffic/Saved.antt =====
-- A sample that was counted and saved is there behind a restart.
use zwrt_datad.Prelude.{
  ℕ, ◌≤◌, ◌≡◌, inl, inr, Bool, true, false, not, ◌||◌, List, ltb, arith, Bool-cases, Option-cases,
}
use zwrt_datad.Prelude.Text.{Bytes}
use zwrt_datad.Storage.{DiskFile}
use zwrt_datad.Traffic.{Stored, History, max_file_bytes, load}
use zwrt_datad.Traffic.Recorder.{
  Surroundings, local_date, counter_of, seconds_of, new_generation, new_time, is_early, persist,
  sampled, timed, read, record_sample,
}
use zwrt_datad.Traffic.Counted.{IsHistory, apply_sample_lem}
use zwrt_datad.Traffic.Kept.{
  IsKept, HasOrder, loaded_holds, load-IsKept, loaded-IsHistory, new_generation-IsKept,
  new_time-IsKept, run-IsKept,
}
use zwrt_datad.Traffic.Trace.{Event, run}

persist-stored :
    (size : Stored → ℕ) (saves : Bool) (h : History) → (persist size saves h).stored ≡ h.stored
unfolding persist
persist-stored size saves h = ground arith

persist-saved :
    (size : Stored → ℕ) (saves : Bool) (h : History) (generation : ℕ)
    → IsHistory h.stored
    → saves ≡ true
    → size (persist size saves h).stored ≤ max_file_bytes
    → (load (persist size saves h).path generation).stored ≡ (persist size saves h).stored
unfolding persist load
persist-saved size saves h generation i e l =
    let fits : size h.stored ≤ max_file_bytes = rw (persist-stored size saves h) at l in
    let small : ltb max_file_bytes (size h.stored) ≡ false = ground (arith, fits) in
    rw (persist, small, e, loaded_holds h.stored i)

-- The answer that a sample was counted, where the file can be written and takes the history, means
-- that a restart finds the history.
abbrev IsFound : (Stored → ℕ) → ℕ → Surroundings → History × Bool → Type 0
IsFound size generation p r =
    r.1 ≡ true
    → p.saves ≡ true
    → size r.0.stored ≤ max_file_bytes
    → (load r.0.path generation).stored ≡ r.0.stored

module _ (size : Stored → ℕ) (generation : ℕ) (p : Surroundings) where
  sampled-IsFound :
      (h : History) (date : Bytes) (now counter : ℕ)
      → IsKept h
      → IsFound size generation p (sampled size p h date now counter)
  unfolding sampled
  sampled-IsFound h date now counter k t s l =
      elim (apply_sample_lem h date now counter k.in_memory) [
        | inl e ↦ absurd (cc (rw (sampled, e) at t))
        | inr (c, _, i) ↦
            let fits = rw (sampled, c) at l in
            rw (sampled, c) (persist-saved size p.saves _ generation i s fits)
      ]

  timed-IsFound :
      (h : History) (counter : ℕ) → IsKept h → IsFound size generation p (timed size p h counter)
  unfolding timed
  timed-IsFound h counter k = elim (Option-cases (seconds_of p.now)) [
    | inl e ↦ rw (timed, e) (λ t. absurd (cc t))
    | inr (now, e) ↦ elim (Option-cases (local_date p.date_output)) [
      | inl d ↦ rw (timed, e, d) (λ t. absurd (cc t))
      | inr (date, d) ↦
          rw (timed, e, d)
            (sampled-IsFound (new_time h now) date now counter (new_time-IsKept h now k))
    ]
  ]

  read-IsFound : (h : History) → IsKept h → IsFound size generation p (read size p h)
  unfolding read
  read-IsFound h k = elim (Bool-cases (is_early h p.elapsed)) [
    | inl e ↦ rw (read, e) (λ t. absurd (cc t))
    | inr e ↦ elim (Option-cases (counter_of p.traffic)) [
      | inl c ↦ rw (read, e, c) (λ t. absurd (cc t))
      | inr (counter, c) ↦ rw (read, e, c) (timed-IsFound h counter k)
    ]
  ]

  record_sample-IsFound :
      (h : History) → IsKept h → IsFound size generation p (record_sample size p h)
  unfolding record_sample
  record_sample-IsFound h k = elim (Bool-cases (not p.leased || p.changing)) [
    | inl e ↦ rw (record_sample, e) (λ t. absurd (cc t))
    | inr e ↦
        rw (record_sample, e)
          (read-IsFound (new_generation h p.generation) (new_generation-IsKept h p.generation k))
  ]

-- Behind any calls, restarts included, from any file with its keys in order: where `record` answers
-- that a sample was counted, the file can be written and the history's text has 96 KiB at most, a
-- restart finds exactly the history that is in memory.
pub saved_sample :
    (size : Stored → ℕ) (path : DiskFile Stored) (generation : ℕ) (events : List Event)
    (p : Surroundings) (generation' : ℕ)
    → HasOrder path
    → (record_sample size p (run size (load path generation) events)).1 ≡ true
    → p.saves ≡ true
    → size (record_sample size p (run size (load path generation) events)).0.stored ≤ max_file_bytes
    → let h = (record_sample size p (run size (load path generation) events)).0 in
      (load h.path generation').stored ≡ h.stored
saved_sample size path generation events p generation' o =
    record_sample-IsFound size generation' p (run size (load path generation) events) (
      run-IsKept size (load path generation) events
        (load-IsKept path generation (loaded-IsHistory path o)))
