-- ===== src/Tasks/Kept.antt =====
-- What recording an attempt, a result or an input keeps of a list of tasks.
use zwrt_datad.Prelude.{
  ◌≡◌, refl, sym, inl, inr, Bool, true, false, ◌&&◌, some, List, [], ◌∷◌, arith, length, all,
  Bool-cases, Option-cases, if◌then◌else◌,
}
use zwrt_datad.Prelude.Text.{Bytes, codes, text_eq, text_eq_iff, one_of}
use zwrt_datad.Schedule.LocalClock.{Clock, valid_date}
use zwrt_datad.Tasks.{
  TaskInput, Task, input_valid, task_valid, distinct, replaced, fresh_task, attempted, due, fired,
  settled,
}

-- Distinctness depends on the ids alone.
module _ (task task' : Task) (same : task'.input.id ≡ task.input.id) where
  distinct-head :
      (seen : List Bytes) (tasks : List Task)
      → distinct seen (task' ∷ tasks) ≡ distinct seen (task ∷ tasks)
  unfolding distinct
  distinct-head seen tasks = rw same

-- What `fired` and `settled` keep of a list of tasks.
pub record Kept (tasks tasks' : List Task) : Type 0 where
  pub length_kept : length tasks' ≡ length tasks
  pub valid_kept : all task_valid tasks ≡ true → all task_valid tasks' ≡ true
  pub distinct_kept : (seen : List Bytes) → distinct seen tasks' ≡ distinct seen tasks

pub Kept-cons :
    (task : Task) (tasks tasks' : List Task)
    → Kept tasks tasks'
    → Kept (task ∷ tasks) (task ∷ tasks')
unfolding distinct
Kept-cons task tasks tasks' k = record {
  length_kept = omega (arith, k.length_kept);
  valid_kept = λ h. ground (arith, k.valid_kept);
  distinct_kept = λ seen. rw (k.distinct_kept (task.input.id ∷ seen));
}

pub Kept-head :
    (task task' : Task) (tasks : List Task)
    → task'.input.id ≡ task.input.id
    → (task_valid task ≡ true → task_valid task' ≡ true)
    → Kept (task ∷ tasks) (task' ∷ tasks)
Kept-head task task' tasks e v = record {
  length_kept = refl;
  valid_kept = λ h. ground (arith, v);
  distinct_kept = λ seen. distinct-head task task' e seen tasks;
}

pub attempted_valid :
    (clock : Clock) (task : Task)
    → valid_date clock.date ≡ true
    → task_valid task ≡ true
    → task_valid (attempted clock task) ≡ true
unfolding task_valid one_of text_eq
attempted_valid clock task v h = ground arith

pub fired-Kept :
    (clock : Clock) (tasks : List Task) (input : TaskInput) (tasks' : List Task)
    → valid_date clock.date ≡ true
    → fired clock tasks ≡ some (input, tasks')
    → Kept tasks tasks'
unfolding fired
fired-Kept clock [] input tasks' v h = absurd (cc h)
fired-Kept clock (task ∷ tasks) input tasks' v h = elim (Bool-cases (due clock task)) [
  | inl e ↦
      rw (← head e)
        (Kept-head task (attempted clock task) tasks refl (attempted_valid clock task v))
  | inr e ↦ elim (Option-cases (fired clock tasks)) [
    | inl n ↦ absurd (ground (arith, e, n, h))
    | inr ((input', rest), f) ↦
        rw (← later e rest input' f)
          (Kept-cons task tasks rest (fired-Kept clock tasks input' rest v f))
  ]
]
  where
    head : due clock task ≡ true → attempted clock task ∷ tasks ≡ tasks'
    head e = ground (arith, e, h)

    later :
        due clock task ≡ false
        → (rest : List Task) (input' : TaskInput) → fired clock tasks ≡ some (input', rest)
        → task ∷ rest ≡ tasks'
    later e rest input' f = ground (arith, e, f, h)

pub result_valid :
    (task : Task) (success : Bool)
    → task_valid task ≡ true
    → task_valid (record task { last_result = if success then codes "ok" else codes "failed" })
      ≡ true
unfolding task_valid one_of text_eq
result_valid task true h = ground arith
result_valid task false h = ground arith

pub settled-Kept :
    (id date : Bytes) (success : Bool) (tasks tasks' : List Task)
    → settled id date (if success then codes "ok" else codes "failed") tasks ≡ some tasks'
    → Kept tasks tasks'
unfolding settled
settled-Kept id date success [] tasks' h = absurd (cc h)
settled-Kept id date success (task ∷ tasks) tasks' h =
    elim (Bool-cases (text_eq task.input.id id && text_eq task.last_attempt_date date)) [
      | inl e ↦ rw (← head e) (Kept-head task _ tasks refl (result_valid task success))
      | inr e ↦ elim (Option-cases (settled id date result tasks)) [
        | inl n ↦ absurd (ground (arith, e, n, h))
        | inr (rest, f) ↦
            rw (← later e rest f)
              (Kept-cons task tasks rest (settled-Kept id date success tasks rest f))
      ]
    ]
  where
    result : Bytes
    result = if success then codes "ok" else codes "failed"

    head :
        (text_eq task.input.id id && text_eq task.last_attempt_date date) ≡ true
        → record task { last_result = result } ∷ tasks ≡ tasks'
    head e = ground (arith, e, h)

    later :
        (text_eq task.input.id id && text_eq task.last_attempt_date date) ≡ false
        → (rest : List Task) → settled id date result tasks ≡ some rest
        → task ∷ rest ≡ tasks'
    later e rest f = ground (arith, e, f, h)

pub fresh_valid :
    (input : TaskInput) → input_valid input ≡ true → task_valid (fresh_task input) ≡ true
unfolding task_valid one_of text_eq
fresh_valid input h = ground arith

pub replaced-Kept :
    (input : TaskInput) (tasks : List Task) (found : Task) (tasks' : List Task)
    → input_valid input ≡ true
    → replaced input tasks ≡ some (found, tasks')
    → Kept tasks tasks'
unfolding replaced
replaced-Kept input [] found tasks' v h = absurd (cc h)
replaced-Kept input (task ∷ tasks) found tasks' v h =
    elim (Bool-cases (text_eq task.input.id input.id)) [
      | inl e ↦ rw (← head e) (
          Kept-head task (fresh_task input) tasks (sym ((text_eq_iff task.input.id input.id).0 e))
            (λ _. fresh_valid input v))
      | inr e ↦ elim (Option-cases (replaced input tasks)) [
        | inl n ↦ absurd (ground (arith, e, n, h))
        | inr ((found', rest), f) ↦
            rw (← later e rest found' f)
              (Kept-cons task tasks rest (replaced-Kept input tasks found' rest v f))
      ]
    ]
  where
    head : text_eq task.input.id input.id ≡ true → fresh_task input ∷ tasks ≡ tasks'
    head e = ground (arith, e, h)

    later :
        text_eq task.input.id input.id ≡ false
        → (rest : List Task) (found' : Task) → replaced input tasks ≡ some (found', rest)
        → task ∷ rest ≡ tasks'
    later e rest found' f = ground (arith, e, f, h)
