-- ===== src/Tasks/Valid.antt =====
-- What is stored of the tasks stays valid, and a restart finds it.
use zwrt_datad.Prelude.{
  ltb, ◌≡◌, refl, ◌⊎◌, inl, inr, Bool, true, false, not, ◌&&◌, ◌||◌, Option, none, some, List, [],
  ◌∷◌, arith, length, ◌==◌, Option-cases, if◌then◌else◌, retain,
}
use zwrt_datad.Prelude.Text.{Bytes, codes, text_eq}
use zwrt_datad.Storage.{DiskFile, missing, invalid, holds}
use zwrt_datad.Schedule.{is_empty}
use zwrt_datad.Schedule.LocalClock.{Clock, local_clock, local_clock_valid, valid_date}
use zwrt_datad.Tasks.{
  TaskSchedule, TaskInput, Task, Stored, Error, invalid_task, task_not_found, default_stored,
  input_valid, stored_valid, loaded, load, committed, replaced, upserted, upsert, remove, fired,
  stored_attempt, observe_at, observe, settled, stored_result, finish, input_eq, is_some, distinct,
  max_tasks,
}
use zwrt_datad.Tasks.Kept.{fired-Kept, settled-Kept, replaced-Kept}
use zwrt_datad.Tasks.Distinct.{
  AreValid, stored_valid-AreValid, AreValid-stored_valid, Kept-AreValid, retain-AreValid,
  append-AreValid,
}
use zwrt_datad.Tasks.Trace.{Event, removed, observed, finished, restarted, Sample, apply, run}
use zwrt_datad.Tasks.Trace

-- The tasks are valid, and the file holds them, unless nothing but the defaults is there.
pub record Inv (s : TaskSchedule) : Type 0 where
  pub schema_one : s.stored.schema ≡ 1
  pub tasks_valid : AreValid s.stored.tasks
  pub on_disk : (s.path ≡ holds s.stored) ⊎ ((loaded s.path ≡ none) × (s.stored ≡ default_stored))

no_tasks : AreValid []
unfolding distinct
no_tasks = record { at_most = omega arith; each_valid = refl; apart = refl }

loaded-valid :
    (path : DiskFile Stored) (s : Stored)
    → loaded path ≡ some s
    → (stored_valid s ≡ true) × (path ≡ holds s)
unfolding loaded
loaded-valid missing s h = cc
loaded-valid invalid s h = cc
loaded-valid (holds t) s h = ground arith

pub load-Inv : (path : DiskFile Stored) → Inv (load path)
unfolding load
load-Inv path = elim (Option-cases (loaded path)) [
  | inl e ↦ rw e (record { schema_one = refl; tasks_valid = no_tasks; on_disk = inr (e, refl) })
  | inr (s, e) ↦
      let (l, d) = loaded-valid path s e in
      let (o, v) = stored_valid-AreValid s l in
      rw e (record { schema_one = o; tasks_valid = v; on_disk = inl d })
]

loaded_holds : (s : Stored) → stored_valid s ≡ true → loaded (holds s) ≡ some s
unfolding loaded
loaded_holds s h = ground arith

pub load-stored : (s : TaskSchedule) → Inv s → (load s.path).stored ≡ s.stored
unfolding load
load-stored s i = elim i.on_disk [
  | inl e ↦
      ground
        (arith, loaded_holds s.stored (AreValid-stored_valid s.stored i.schema_one i.tasks_valid))
  | inr (e, d) ↦ ground arith
]

committed-Inv :
    (saves : Bool) (s : TaskSchedule) (tasks : List Task)
    → AreValid tasks
    → Inv s
    → Inv (committed saves s tasks).0
unfolding committed
committed-Inv true s tasks v i = record {
  schema_one = i.schema_one;
  tasks_valid = v;
  on_disk = inl refl;
}
committed-Inv false s tasks v i = i

Inv-if {ℓ} :
    {A : Type ℓ} (test : Bool) (x y : TaskSchedule × A)
    → Inv x.0
    → (test ≡ false → Inv y.0)
    → Inv (if test then x else y).0
Inv-if true x y i j = i
Inv-if false x y i j = j refl

upserted-Inv :
    (saves : Bool) (s : TaskSchedule) (input : TaskInput)
    → input_valid input ≡ true
    → Inv s
    → Inv (upserted saves s input).0
unfolding upserted
upserted-Inv saves s input v i = elim (Option-cases (replaced input s.stored.tasks)) [
  | inl n ↦
      rw (n, upserted)
        (Inv-if (length s.stored.tasks == max_tasks) _ _ i (λ f.
          committed-Inv saves s _ (append-AreValid input s.stored.tasks v n f i.tasks_valid) i))
  | inr ((found, tasks), e) ↦
      rw (e, upserted)
        (Inv-if (input_eq found.input input && not (is_some s.error)) _ _ i (λ _.
          committed-Inv saves s tasks
            (Kept-AreValid s.stored.tasks tasks (replaced-Kept input s.stored.tasks found tasks v e)
              i.tasks_valid)
            i))
]

upsert-Inv :
    (saves : Bool) (clock : Option Clock) (s : TaskSchedule) (input : TaskInput)
    → Inv s
    → Inv (upsert saves clock s input).0
unfolding upsert
upsert-Inv saves clock s input i = Inv-if (not (input_valid input)) _ _ i (λ v.
    Inv-if (not (is_some clock)) _ _ i (λ _. upserted-Inv saves s input (ground (arith, v)) i))

remove-Inv : (saves : Bool) (s : TaskSchedule) (id : Bytes) → Inv s → Inv (remove saves s id).0
unfolding remove
remove-Inv saves s id i =
    let tasks = retain (λ task. not (text_eq task.input.id id)) s.stored.tasks in
    Inv-if (is_empty id || ltb 80 (length id)) (s, some invalid_task) (not_found tasks) i
      (λ _.
        Inv-if (length tasks == length s.stored.tasks) (s, some task_not_found)
          (committed saves s tasks) i
          (λ _. committed-Inv saves s tasks (retain-AreValid _ s.stored.tasks i.tasks_valid) i))
  where
    not_found : List Task → TaskSchedule × Option Error
    not_found tasks =
        if length tasks == length s.stored.tasks
        then (s, some task_not_found)
        else committed saves s tasks

attempt-Inv :
    (saves : Bool) (s : TaskSchedule) (input : TaskInput) (tasks : List Task)
    → AreValid tasks
    → Inv s
    → Inv (stored_attempt saves s (some (input, tasks))).0
unfolding stored_attempt
attempt-Inv true s input tasks v i = record {
  schema_one = i.schema_one;
  tasks_valid = v;
  on_disk = inl refl;
}
attempt-Inv false s input tasks v i = record {
  schema_one = i.schema_one;
  tasks_valid = i.tasks_valid;
  on_disk = i.on_disk;
}

observe_at-Inv :
    (saves : Bool) (s : TaskSchedule) (clock : Option Clock)
    → ((c : Clock) → clock ≡ some c → valid_date c.date ≡ true)
    → Inv s
    → Inv (observe_at saves s clock).0
unfolding observe_at
observe_at-Inv saves s none v i = i
observe_at-Inv saves s (some c) v i = Inv-if (is_some s.error) _ _ i (λ _.
    elim (Option-cases (fired c s.stored.tasks)) [
      | inl n ↦ rw n (unfold stored_attempt in i)
      | inr ((input, tasks), e) ↦ rw e (
          attempt-Inv saves s input tasks
            (Kept-AreValid s.stored.tasks tasks
              (fired-Kept c s.stored.tasks input tasks (v c refl) e) i.tasks_valid)
            i)
    ])

observe-Inv :
    (changing saves : Bool) (s : TaskSchedule) (clock : Option Clock)
    → ((c : Clock) → clock ≡ some c → valid_date c.date ≡ true)
    → Inv s
    → Inv (observe changing saves s clock).0
unfolding observe
observe-Inv changing saves s clock v i =
    Inv-if changing _ _ i (λ _. observe_at-Inv saves s clock v i)

result-Inv :
    (saves : Bool) (s : TaskSchedule) (tasks : List Task)
    → AreValid tasks
    → Inv s
    → Inv (stored_result saves s (some tasks))
unfolding stored_result
result-Inv true s tasks v i = record {
  schema_one = i.schema_one;
  tasks_valid = v;
  on_disk = inl refl;
}
result-Inv false s tasks v i = record {
  schema_one = i.schema_one;
  tasks_valid = i.tasks_valid;
  on_disk = i.on_disk;
}

finish-Inv :
    (saves : Bool) (s : TaskSchedule) (id date : Bytes) (success : Bool)
    → Inv s
    → Inv (finish saves s id date success)
unfolding finish
finish-Inv saves s id date success i =
    elim (Option-cases
      (settled id date (if success then codes "ok" else codes "failed") s.stored.tasks)) [
        | inl n ↦ rw n (unfold stored_result in i)
        | inr (tasks, e) ↦ rw e (
            result-Inv saves s tasks
              (Kept-AreValid s.stored.tasks tasks
                (settled-Kept id date success s.stored.tasks tasks e) i.tasks_valid)
              i)
      ]

pub apply-Inv : (p : Sample) (e : Event) (s : TaskSchedule) → Inv s → Inv (apply p e s).0
unfolding apply
apply-Inv p (Trace.upserted input) s i = upsert-Inv p.saves (local_clock p.date_output) s input i
apply-Inv p (removed id) s i = remove-Inv p.saves s id i
apply-Inv p (observed changing) s i =
    observe-Inv changing p.saves s (local_clock p.date_output)
      (λ c e. (local_clock_valid p.date_output c e).0) i
apply-Inv p (finished id date success) s i = finish-Inv p.saves s id date success i
apply-Inv p restarted s i = load-Inv s.path

pub run-Inv : (s : TaskSchedule) (samples : List Sample) → Inv s → Inv (run s samples)
unfolding run
run-Inv s [] i = i
run-Inv s (p ∷ samples) i = run-Inv (apply p p.event s).0 samples (apply-Inv p p.event s i)

-- Whatever the file held at the start, and whatever is called since, restarts included, with saves
-- that fail or not: there are 16 tasks at most, their inputs, dates and results are valid, their ids
-- are distinct, and loading the file again gives exactly what is in memory.
pub tasks-AreValid :
    (file : DiskFile Stored) (samples : List Sample)
    → let s = run (load file) samples in AreValid s.stored.tasks × ((load s.path).stored ≡ s.stored)
tasks-AreValid file samples =
    let i = run-Inv (load file) samples (load-Inv file) in (i.tasks_valid, load-stored _ i)
