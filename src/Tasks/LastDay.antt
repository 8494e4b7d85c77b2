-- ===== src/Tasks/LastDay.antt =====
-- The day of a task's last attempt, and what the operations do to it.
use zwrt_datad.Prelude.{
  ℕ, ◌<◌, ◌≡◌, refl, ◌⊎◌, inl, inr, true, false, not, some, List, [], ◌∷◌, ◌++◌, arith, all, retain,
  Bool-cases, Option-cases, if◌then◌else◌,
}
use zwrt_datad.Prelude.Text.{Bytes, text_eq, text_eq_iff, one_of}
use zwrt_datad.Schedule.LocalClock.{Clock, valid_date}
use zwrt_datad.Schedule.Dates.{day_number}
use zwrt_datad.Schedule.Once.{later_day}
use zwrt_datad.Tasks.{
  TaskInput, Task, task_valid, distinct, replaced, fresh_task, due, fired, settled,
}

module _ (id : Bytes) where
  -- The day of the last attempt of the first task with the id; 0 without one.
  abbrev pub last_day : List Task → ℕ
  last_day [] = 0
  last_day (task ∷ tasks) =
      if text_eq task.input.id id then day_number task.last_attempt_date else last_day tasks

  pub last_day-replaced :
      (input : TaskInput) (tasks : List Task) (found : Task) (tasks' : List Task)
      → text_eq input.id id ≡ false
      → replaced input tasks ≡ some (found, tasks')
      → last_day tasks' ≡ last_day tasks
  unfolding replaced
  last_day-replaced input [] found tasks' n h = cc h
  last_day-replaced input (task ∷ tasks) found tasks' n h =
      elim (Option-cases (replaced input tasks)) [
        | inl r ↦ ground (arith, r, h, n, text_eq_iff task.input.id input.id)
        | inr ((found', rest), r) ↦ ground (
          arith,
          r,
          h,
          n,
          text_eq_iff task.input.id input.id,
          last_day-replaced input tasks found' rest n r,
        )
      ]

  pub last_day-append :
      (input : TaskInput) (tasks : List Task)
      → text_eq input.id id ≡ false
      → last_day (tasks ++ (fresh_task input ∷ [])) ≡ last_day tasks
  last_day-append input [] n = ground arith
  last_day-append input (task ∷ tasks) n = ground (arith, last_day-append input tasks n)

  pub last_day-retain :
      (other : Bytes) (tasks : List Task)
      → text_eq other id ≡ false
      → last_day (retain (λ task. not (text_eq task.input.id other)) tasks) ≡ last_day tasks
  last_day-retain other [] n = refl
  last_day-retain other (task ∷ tasks) n =
      ground (arith, n, text_eq_iff task.input.id other, last_day-retain other tasks n)

  pub last_day-settled :
      (name date result : Bytes) (tasks tasks' : List Task)
      → settled name date result tasks ≡ some tasks'
      → last_day tasks' ≡ last_day tasks
  unfolding settled
  last_day-settled name date result [] tasks' h = cc h
  last_day-settled name date result (task ∷ tasks) tasks' h =
      elim (Option-cases (settled name date result tasks)) [
        | inl r ↦ ground (arith, r, h)
        | inr (rest, r) ↦ ground (arith, r, h, last_day-settled name date result tasks rest r)
      ]

pub fired-unseen :
    (clock : Clock) (seen : List Bytes) (tasks : List Task) (input : TaskInput) (tasks' : List Task)
    → distinct seen tasks ≡ true
    → fired clock tasks ≡ some (input, tasks')
    → one_of input.id seen ≡ false
unfolding distinct fired one_of
fired-unseen clock seen [] input tasks' d h = absurd (cc h)
fired-unseen clock seen (task ∷ tasks) input tasks' d h = elim (Option-cases (fired clock tasks)) [
  | inl r ↦ ground (arith, r, h)
  | inr ((input', rest), r) ↦
      ground
        (arith, r, h, fired-unseen clock (task.input.id ∷ seen) tasks input' rest (ground arith) r)
]

pub due-later :
    (clock : Clock) (task : Task)
    → valid_date clock.date ≡ true
    → task_valid task ≡ true
    → due clock task ≡ true
    → day_number task.last_attempt_date < day_number clock.date
unfolding due task_valid
due-later clock task v t d =
    later_day task.last_attempt_date clock.date (ground arith) v (ground arith)

-- What `fired` does to the last day of an id.
abbrev pub Moves : Bytes → ℕ → ℕ → ℕ → TaskInput → Type 0
Moves id before after day input =
    ((text_eq input.id id ≡ true) × (before < day) × (after ≡ day))
    ⊎ ((text_eq input.id id ≡ false) × (after ≡ before))

pub fired-Moves :
    (id : Bytes) (clock : Clock) (seen : List Bytes) (tasks : List Task) (input : TaskInput)
    (tasks' : List Task)
    → valid_date clock.date ≡ true
    → all task_valid tasks ≡ true
    → distinct seen tasks ≡ true
    → fired clock tasks ≡ some (input, tasks')
    → Moves id (last_day id tasks) (last_day id tasks') (day_number clock.date) input
unfolding fired distinct one_of
fired-Moves id clock seen [] input tasks' v t d h = absurd (cc h)
fired-Moves id clock seen (task ∷ tasks) input tasks' v t d h = elim (Bool-cases (due clock task)) [
  | inl e ↦ elim (Bool-cases (text_eq task.input.id id)) [
    | inl s ↦ inl (
      ground (arith, e, h, s),
      ground (arith, e, s, due-later clock task v),
      ground (arith, e, h, s),
    )
    | inr s ↦ inr (ground (arith, e, h, s), ground (arith, e, h, s))
  ]
  | inr e ↦ elim (Option-cases (fired clock tasks)) [
    | inl n ↦ absurd (ground (arith, e, n, h))
    | inr ((input', rest), f) ↦
        rw (← same_input e input' rest f, ← same_tasks e input' rest f)
          (passed input' rest
            (fired-unseen clock (task.input.id ∷ seen) tasks input' rest (ground arith) f)
            (fired-Moves id clock (task.input.id ∷ seen) tasks input' rest v (ground arith)
              (ground arith) f))
  ]
]
  where
    same_input :
        due clock task ≡ false
        → (input' : TaskInput) (rest : List Task) → fired clock tasks ≡ some (input', rest)
        → input' ≡ input
    same_input e input' rest f = ground (arith, e, f, h)

    same_tasks :
        due clock task ≡ false
        → (input' : TaskInput) (rest : List Task) → fired clock tasks ≡ some (input', rest)
        → task ∷ rest ≡ tasks'
    same_tasks e input' rest f = ground (arith, e, f, h)

    passed :
        (input' : TaskInput) (rest : List Task)
        → one_of input'.id (task.input.id ∷ seen) ≡ false
        → Moves id (last_day id tasks) (last_day id rest) (day_number clock.date) input'
        → Moves id
            (last_day id (task ∷ tasks))
            (last_day id (task ∷ rest))
            (day_number clock.date)
            input'
    passed input' rest u m = elim (Bool-cases (text_eq task.input.id id)) [
      | inl s ↦ inr (
        ground (
          arith,
          s,
          u,
          text_eq_iff task.input.id id,
          text_eq_iff input'.id id,
          text_eq_iff input'.id task.input.id,
        ),
        ground (arith, s),
      )
      | inr s ↦ rw s m
    ]
