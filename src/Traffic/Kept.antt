-- ===== src/Traffic/Kept.antt =====
-- The history stays in order, in memory and on disk.
use zwrt_datad.Prelude.{
  ℕ, ◌≤◌, ◌≡◌, refl, sym, subst, inl, inr, Bool, true, not, ◌&&◌, ◌||◌, some, List, [], ◌∷◌, ltb,
  leb, ◌==◌, arith, length, all, All, Bool-cases, Option-cases,
}
use zwrt_datad.Prelude.Text.{Bytes}
use zwrt_datad.Storage.{DiskFile, missing, invalid, holds}
use zwrt_datad.Schedule.LocalClock.{valid_date}
use zwrt_datad.Traffic.{
  Days, Stored, History, max_days, max_file_bytes, default_stored, lookup, has_day, within,
  loadable, loaded, load, earlier,
}
use zwrt_datad.Traffic.Recorder.{
  Surroundings, local_date, counter_of, seconds_of, relabelled, new_generation, new_time, is_early,
  persist, sampled, timed, read, record_sample,
}
use zwrt_datad.Traffic.Table.{IsGood, Ascends}
use zwrt_datad.Traffic.Counted.{IsHistory, apply_sample_lem}
use zwrt_datad.Traffic.Trace.{Event, recorded, restarted, step, run}

no_days : IsHistory default_stored
unfolding Ascends
no_days = record {
  schema_one = refl;
  days_good = tt;
  ascending = tt;
  at_most = omega arith;
  active_held = inl refl;
}

all-IsGood :
    (days : Days)
    → All IsGood days
    → (all (λ entry. valid_date entry.0) days ≡ true) × (all (λ entry. within entry.1) days ≡ true)
all-IsGood [] g = (refl, refl)
all-IsGood ((d, day) ∷ days) ((v, w), g) =
    let (vs, ws) = all-IsGood days g in (ground arith, ground arith)

IsHistory-loadable : (s : Stored) → IsHistory s → loadable s ≡ true
unfolding loadable
IsHistory-loadable s i =
    let (v, w) = all-IsGood s.days i.days_good in
    let n : leb (length s.days) max_days ≡ true = ground (arith, i.at_most) in
    let o : (s.schema == 1) ≡ true = ground (arith, i.schema_one) in
    elim i.active_held [
      | inl a ↦ rw (loadable, a, n, o, v, w)
      | inr (date, a, d, (day, l)) ↦
          let has : has_day date s.days ≡ true = rw (has_day, l) in
          rw (loadable, a, d, has, n, o, v, w)
    ]

pub loaded_holds : (s : Stored) → IsHistory s → loaded (holds s) ≡ s
unfolding loaded
loaded_holds s i = rw (loaded, IsHistory-loadable s i)

-- In memory and on disk.
pub record IsKept (h : History) : Type 0 where
  pub in_memory : IsHistory h.stored
  pub on_disk : IsHistory (loaded h.path)

relabelled-IsHistory : (h : History) → IsHistory h.stored → IsHistory (relabelled h).stored
relabelled-IsHistory h i = record {
  schema_one = i.schema_one;
  days_good = i.days_good;
  ascending = i.ascending;
  at_most = i.at_most;
  active_held = i.active_held;
}

pub new_generation-IsKept :
    (h : History) (generation : ℕ) → IsKept h → IsKept (new_generation h generation)
unfolding new_generation
new_generation-IsKept h generation k = elim (Bool-cases (generation == h.clock_generation)) [
  | inl e ↦ rw (new_generation, e) k
  | inr e ↦
      rw (new_generation, e)
        (record { in_memory = relabelled-IsHistory h k.in_memory; on_disk = k.on_disk })
]

pub new_time-IsKept : (h : History) (now : ℕ) → IsKept h → IsKept (new_time h now)
unfolding new_time
new_time-IsKept h now k = elim (Bool-cases (earlier now h.stored.last_sample_at)) [
  | inl e ↦
      rw (new_time, e)
        (record { in_memory = relabelled-IsHistory h k.in_memory; on_disk = k.on_disk })
  | inr e ↦ rw (new_time, e) k
]

persist-IsKept :
    (size : Stored → ℕ) (saves : Bool) (h : History) → IsKept h → IsKept (persist size saves h)
unfolding persist
persist-IsKept size saves h k =
    elim (Bool-cases (not (ltb max_file_bytes (size h.stored)) && saves)) [
      | inl e ↦
          rw (persist, e)
            (record {
              in_memory = k.in_memory;
              on_disk = subst IsHistory (sym (loaded_holds h.stored k.in_memory)) k.in_memory;
            })
      | inr e ↦ rw (persist, e) k
    ]

module _ (size : Stored → ℕ) (p : Surroundings) where
  sampled-IsKept :
      (h : History) (date : Bytes) (now counter : ℕ)
      → IsKept h
      → IsKept (sampled size p h date now counter).0
  unfolding sampled
  sampled-IsKept h date now counter k = elim (apply_sample_lem h date now counter k.in_memory) [
    | inl e ↦ rw (sampled, e) (record { in_memory = k.in_memory; on_disk = k.on_disk })
    | inr (t, c, i) ↦
        rw (sampled, t)
          (persist-IsKept size p.saves _
            (record { in_memory = i; on_disk = rw c.path_kept k.on_disk }))
  ]

  timed-IsKept : (h : History) (counter : ℕ) → IsKept h → IsKept (timed size p h counter).0
  unfolding timed
  timed-IsKept h counter k = elim (Option-cases (seconds_of p.now)) [
    | inl e ↦ rw (timed, e) k
    | inr (now, e) ↦ elim (Option-cases (local_date p.date_output)) [
      | inl d ↦ rw (timed, e, d) (new_time-IsKept h now k)
      | inr (date, d) ↦
          rw (timed, e, d)
            (sampled-IsKept (new_time h now) date now counter (new_time-IsKept h now k))
    ]
  ]

  read-IsKept : (h : History) → IsKept h → IsKept (read size p h).0
  unfolding read
  read-IsKept h k = elim (Bool-cases (is_early h p.elapsed)) [
    | inl e ↦ rw (read, e) k
    | inr e ↦ elim (Option-cases (counter_of p.traffic)) [
      | inl c ↦ rw (read, e, c) k
      | inr (counter, c) ↦ rw (read, e, c) (timed-IsKept h counter k)
    ]
  ]

  pub record_sample-IsKept : (h : History) → IsKept h → IsKept (record_sample size p h).0
  unfolding record_sample
  record_sample-IsKept h k = elim (Bool-cases (not p.leased || p.changing)) [
    | inl e ↦ rw (record_sample, e) k
    | inr e ↦
        rw (record_sample, e)
          (read-IsKept (new_generation h p.generation) (new_generation-IsKept h p.generation k))
  ]

within-IsGood :
    (days : Days)
    → all (λ entry. valid_date entry.0) days ≡ true
    → all (λ entry. within entry.1) days ≡ true
    → All IsGood days
within-IsGood [] v w = tt
within-IsGood ((d, day) ∷ days) v w =
    ((ground arith, ground arith), within-IsGood days (ground arith) (ground arith))

loadable-parts :
    (s : Stored)
    → loadable s ≡ true
    → (s.schema ≡ 1)
      × (length s.days ≤ max_days)
      × (all (λ entry. valid_date entry.0) s.days ≡ true)
      × (all (λ entry. within entry.1) s.days ≡ true)
unfolding loadable
loadable-parts s h = ground arith

loadable-active :
    (s : Stored) (date : Bytes)
    → loadable s ≡ true
    → s.active_day ≡ some date
    → (valid_date date ≡ true) × (has_day date s.days ≡ true)
unfolding loadable
loadable-active s date h a = ground arith

loadable-IsHistory : (s : Stored) → loadable s ≡ true → Ascends 0 s.days → IsHistory s
loadable-IsHistory s h a =
    let (o, n, v, w) = loadable-parts s h in
    record {
      schema_one = o;
      days_good = within-IsGood s.days v w;
      ascending = a;
      at_most = n;
      active_held = elim (Option-cases s.active_day) [
        | inl e ↦ inl e
        | inr (date, e) ↦
            let (d, l) = loadable-active s date h e in
            elim (Option-cases (lookup date s.days)) [
              | inl f ↦ absurd (cc (rw (has_day, f) at l))
              | inr f ↦ inr (date, e, d, f)
            ]
      ];
    }

-- A `BTreeMap` has its keys in order, whatever file it was read from.
abbrev pub HasOrder : DiskFile Stored → Type 0
HasOrder (holds s) = Ascends 0 s.days
HasOrder _ = Unit

pub loaded-IsHistory : (path : DiskFile Stored) → HasOrder path → IsHistory (loaded path)
unfolding loaded
loaded-IsHistory missing a = no_days
loaded-IsHistory invalid a = no_days
loaded-IsHistory (holds s) a = elim (Bool-cases (loadable s)) [
  | inl e ↦ rw (loaded, e) (loadable-IsHistory s e a)
  | inr e ↦ rw (loaded, e) no_days
]

pub load-IsKept :
    (path : DiskFile Stored) (generation : ℕ)
    → IsHistory (loaded path)
    → IsKept (load path generation)
unfolding load
load-IsKept path generation i = record { in_memory = i; on_disk = i }

pub run-IsKept :
    (size : Stored → ℕ) (h : History) (events : List Event) → IsKept h → IsKept (run size h events)
unfolding run step
run-IsKept size h [] k = k
run-IsKept size h (recorded p ∷ events) k =
    run-IsKept size (record_sample size p h).0 events (record_sample-IsKept size p h k)
run-IsKept size h (restarted generation ∷ events) k =
    run-IsKept size (load h.path generation) events (load-IsKept h.path generation k.on_disk)

-- Whatever the file held, with its keys in order as a `BTreeMap` has them, and whatever is called
-- since, restarts included, with saves that fail or not: the history has 400 days at most, valid, in
-- strictly rising order and each within 100 TiB, and the active day is one of them.
pub run-IsHistory :
    (size : Stored → ℕ) (path : DiskFile Stored) (generation : ℕ) (events : List Event)
    → HasOrder path
    → IsHistory (run size (load path generation) events).stored
run-IsHistory size path generation events o =
    (run-IsKept size (load path generation) events
      (load-IsKept path generation (loaded-IsHistory path o))).in_memory
