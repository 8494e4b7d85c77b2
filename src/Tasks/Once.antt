-- ===== src/Tasks/Once.antt =====
-- A task runs at most once a day, and the daemon's restarts do not change that.
use zwrt_datad.Prelude.{
  ℕ, ◌≤◌, ◌≡◌, refl, ap, ◌⊎◌, inl, inr, Bool, true, false, not, Option, none, some, List, [], ◌∷◌,
  ◌++◌, arith, All, retain, Bool-cases, Option-cases,
}
use zwrt_datad.Prelude.Text.{Bytes, text_eq}
use zwrt_datad.Storage.{DiskFile}
use zwrt_datad.Schedule.LocalClock.{Clock, local_clock, local_clock_valid, valid_date}
use zwrt_datad.Schedule.Dates.{day_number}
use zwrt_datad.Schedule.Once.{IsAscending, IsAscending-weaken}
use zwrt_datad.Tasks.{
  TaskSchedule, TaskInput, Task, Stored, load, committed, replaced, upserted, upsert, remove,
  fresh_task, fired, stored_attempt, observe_at, observe, is_some, stored_result, finish,
}
use zwrt_datad.Tasks.Valid.{Inv, load-Inv, load-stored, apply-Inv, run-Inv}
use zwrt_datad.Tasks.Trace.{
  Event, removed, observed, finished, restarted, Sample, apply, run, ran_on, run_days,
}
use zwrt_datad.Tasks.Trace
use zwrt_datad.Tasks.LastDay.{
  last_day, last_day-replaced, last_day-append, last_day-retain, last_day-settled, Moves,
  fired-Moves,
}

-- Nothing was to run, or the task of the id was to run on a later day, which is now its last.
abbrev Ran : Bytes → ℕ → TaskSchedule → Option Clock → Option TaskInput → Type 0
Ran id day s (some clock) (some input) =
    Moves id day (last_day id s.stored.tasks) (day_number clock.date) input
Ran id day s _ _ = day ≤ last_day id s.stored.tasks

ran_on-IsAscending :
    (id : Bytes) (day : ℕ) (s : TaskSchedule) (clock : Option Clock) (input : Option TaskInput)
    (days : List ℕ)
    → Ran id day s clock input
    → ((d : ℕ) → d ≤ last_day id s.stored.tasks → IsAscending d days)
    → IsAscending day (ran_on id clock input days)
ran_on-IsAscending id day s none input days h rest = rest day h
ran_on-IsAscending id day s (some c) none days h rest = rest day h
ran_on-IsAscending id day s (some c) (some input) days (inl (t, l, e)) rest =
    rw t (l, rest (day_number c.date) (omega arith))
ran_on-IsAscending id day s (some c) (some input) days (inr (f, e)) rest =
    rw f (rest day (omega arith))

-- Calls that leave the task of the id where it is.
abbrev pub Spares : Bytes → Event → Type 0
Spares id (Trace.upserted input) = text_eq input.id id ≡ false
Spares id (removed other) = text_eq other id ≡ false
Spares id _ = Unit

module _ (id : Bytes) where
  last_day-committed :
      (saves : Bool) (s : TaskSchedule) (tasks : List Task)
      → last_day id tasks ≡ last_day id s.stored.tasks
      → last_day id (committed saves s tasks).0.stored.tasks ≡ last_day id s.stored.tasks
  unfolding committed
  last_day-committed true s tasks h = h
  last_day-committed false s tasks h = refl

  last_day-upserted :
      (saves : Bool) (s : TaskSchedule) (input : TaskInput)
      → text_eq input.id id ≡ false
      → last_day id (upserted saves s input).0.stored.tasks ≡ last_day id s.stored.tasks
  unfolding upserted
  last_day-upserted saves s input n = elim (Option-cases (replaced input s.stored.tasks)) [
    | inl r ↦ ground (
      arith,
      r,
      last_day-committed saves s (s.stored.tasks ++ (fresh_task input ∷ [])),
      last_day-append id input s.stored.tasks n,
    )
    | inr ((found, tasks), r) ↦ ground (
      arith,
      r,
      last_day-committed saves s tasks,
      last_day-replaced id input s.stored.tasks found tasks n r,
    )
  ]

  last_day-upsert :
      (saves : Bool) (clock : Option Clock) (s : TaskSchedule) (input : TaskInput)
      → text_eq input.id id ≡ false
      → last_day id (upsert saves clock s input).0.stored.tasks ≡ last_day id s.stored.tasks
  unfolding upsert
  last_day-upsert saves clock s input n = ground (arith, last_day-upserted saves s input n)

  last_day-remove :
      (saves : Bool) (s : TaskSchedule) (other : Bytes)
      → text_eq other id ≡ false
      → last_day id (remove saves s other).0.stored.tasks ≡ last_day id s.stored.tasks
  unfolding remove
  last_day-remove saves s other n =
      let tasks = retain (λ task. not (text_eq task.input.id other)) s.stored.tasks in
      ground (arith, last_day-committed saves s tasks (last_day-retain id other s.stored.tasks n))

  last_day-result :
      (saves : Bool) (s : TaskSchedule) (found : Option (List Task))
      → ((tasks : List Task) → found ≡ some tasks → last_day id tasks ≡ last_day id s.stored.tasks)
      → last_day id (stored_result saves s found).stored.tasks ≡ last_day id s.stored.tasks
  unfolding stored_result
  last_day-result saves s none h = refl
  last_day-result true s (some tasks) h = h tasks refl
  last_day-result false s (some tasks) h = refl

  last_day-finish :
      (saves : Bool) (s : TaskSchedule) (name date : Bytes) (success : Bool)
      → last_day id (finish saves s name date success).stored.tasks ≡ last_day id s.stored.tasks
  unfolding finish
  last_day-finish saves s name date success =
      last_day-result saves s _ (λ tasks e. last_day-settled id name date _ s.stored.tasks tasks e)

  observe_at-Ran :
      (saves : Bool) (s : TaskSchedule) (clock : Option Clock)
      → ((c : Clock) → clock ≡ some c → valid_date c.date ≡ true)
      → Inv s
      → let (s', input) = observe_at saves s clock in
        Ran id (last_day id s.stored.tasks) s' clock input
  unfolding observe_at
  observe_at-Ran saves s none v i = omega arith
  observe_at-Ran saves s (some c) v i = elim (Bool-cases (is_some s.error)) [
    | inl e ↦ rw e (omega arith)
    | inr e ↦ rw e (attempt saves (Option-cases (fired c s.stored.tasks)))
  ]
    where
      attempt :
          (saves : Bool)
          → (fired c s.stored.tasks ≡ none)
            ⊎ ((p : TaskInput × List Task) × (fired c s.stored.tasks ≡ some p))
          → let (s', input) = stored_attempt saves s (fired c s.stored.tasks) in
            Ran id (last_day id s.stored.tasks) s' (some c) input
      attempt saves (inl n) = rw n (unfold stored_attempt in omega arith)
      attempt true (inr ((input, tasks), f)) = rw f (
          unfold stored_attempt in
          fired-Moves id c [] s.stored.tasks input tasks (v c refl) i.tasks_valid.each_valid
            i.tasks_valid.apart f)
      attempt false (inr ((input, tasks), f)) = rw f (unfold stored_attempt in omega arith)

  observe-Ran :
      (changing saves : Bool) (s : TaskSchedule) (clock : Option Clock)
      → ((c : Clock) → clock ≡ some c → valid_date c.date ≡ true)
      → Inv s
      → let (s', input) = observe changing saves s clock in
        Ran id (last_day id s.stored.tasks) s' clock input
  unfolding observe
  observe-Ran true saves s none v i = omega arith
  observe-Ran true saves s (some c) v i = omega arith
  observe-Ran false saves s clock v i = observe_at-Ran saves s clock v i

  quiet-Ran :
      (s s' : TaskSchedule) (clock : Option Clock)
      → last_day id s'.stored.tasks ≡ last_day id s.stored.tasks
      → Ran id (last_day id s.stored.tasks) s' clock none
  quiet-Ran s s' none e = omega arith
  quiet-Ran s s' (some c) e = omega arith

  apply-Ran :
      (p : Sample) (e : Event) (s : TaskSchedule)
      → Spares id e
      → Inv s
      → let (s', input) = apply p e s in
        Ran id (last_day id s.stored.tasks) s' (local_clock p.date_output) input
  unfolding apply
  apply-Ran p (Trace.upserted input) s n i =
      quiet-Ran s (upsert p.saves (local_clock p.date_output) s input).0 (local_clock p.date_output)
        (last_day-upsert p.saves (local_clock p.date_output) s input n)
  apply-Ran p (removed other) s n i =
      quiet-Ran s (remove p.saves s other).0 (local_clock p.date_output)
        (last_day-remove p.saves s other n)
  apply-Ran p (observed changing) s n i =
      observe-Ran changing p.saves s (local_clock p.date_output)
        (λ c e. (local_clock_valid p.date_output c e).0) i
  apply-Ran p (finished name date success) s n i =
      quiet-Ran s (finish p.saves s name date success) (local_clock p.date_output)
        (last_day-finish p.saves s name date success)
  apply-Ran p restarted s n i =
      quiet-Ran s (load s.path) (local_clock p.date_output)
        (ap (λ t. last_day id t.tasks) (load-stored s i))

  days-IsAscending :
      (s : TaskSchedule) (samples : List Sample) (day : ℕ)
      → All (λ p. Spares id p.event) samples
      → Inv s
      → day ≤ last_day id s.stored.tasks
      → IsAscending day (run_days id s samples)
  unfolding run_days
  days-IsAscending s [] day a i h = tt
  days-IsAscending s (p ∷ samples) day (n, a) i h =
      let s' = (apply p p.event s).0 in
      IsAscending-weaken day (last_day id s.stored.tasks) _ h (
        ran_on-IsAscending id (last_day id s.stored.tasks) s' (local_clock p.date_output)
          (apply p p.event s).1 (run_days id s' samples) (apply-Ran p p.event s n i)
          (λ d k. days-IsAscending s' samples d a (apply-Inv p p.event s i) k))

-- Whatever the file held at the start and whatever was called, as long as nothing writes or removes
-- the task of an id: the days on which it is to run are each later than the one before, restarts
-- included and whether saves fail or not.
pub runs-IsAscending :
    (file : DiskFile Stored) (before samples : List Sample) (id : Bytes)
    → All (λ p. Spares id p.event) samples
    → IsAscending 0 (run_days id (run (load file) before) samples)
runs-IsAscending file before samples id a =
    days-IsAscending id (run (load file) before) samples 0 a
      (run-Inv (load file) before (load-Inv file)) (omega arith)
