-- ===== src/Tasks/Actions.antt =====
-- The tasks that run are of the reviewed actions.
use zwrt_datad.Prelude.{
  ◌≡◌, refl, inl, inr, Bool, true, false, Option, none, some, List, [], ◌∷◌, arith, all, All,
  Bool-cases, Option-cases,
}
use zwrt_datad.Prelude.Text.{Bytes, codes, one_of}
use zwrt_datad.Json.{Value}
use zwrt_datad.Storage.{DiskFile}
use zwrt_datad.Schedule.LocalClock.{Clock, local_clock}
use zwrt_datad.Tasks.Params.{action_valid, bare_actions}
use zwrt_datad.Tasks.{
  TaskSchedule, TaskInput, Task, Stored, input_valid, task_valid, load, fired, due, stored_attempt,
  observe_at, observe, is_some,
}
use zwrt_datad.Tasks.Valid.{Inv, load-Inv, apply-Inv}
use zwrt_datad.Tasks.Failed.{runs}
use zwrt_datad.Tasks.Trace.{Event, removed, observed, finished, restarted, Sample, apply}
use zwrt_datad.Tasks.Trace

-- `ACTIONS`
abbrev pub actions : List Bytes
actions =
    codes "device.reboot"
    ∷ codes "device.poweroff"
    ∷ codes "cellular.connect"
    ∷ codes "cellular.disconnect"
    ∷ codes "network.set_mode"
    ∷ codes "sim.set_slot"
    ∷ codes "cellular.set"
    ∷ codes "wifi.set_module"
    ∷ codes "wifi.set_chip"
    ∷ codes "nfc.set"
    ∷ codes "sms.send_scheduled"
    ∷ codes "sms.forward.device_info"
    ∷ codes "cell.lock_lte"
    ∷ codes "cell.lock_nr"
    ∷ codes "cell.unlock_all"
    ∷ []

one_of-bare : (action : Bytes) → one_of action bare_actions ≡ true → one_of action actions ≡ true
unfolding one_of
one_of-bare action h = ground arith

one_of-actions :
    (action : Bytes) (params : Value)
    → action_valid action params ≡ true
    → one_of action actions ≡ true
unfolding action_valid
one_of-actions action params h = elim (Bool-cases (one_of action bare_actions)) [
  | inl e ↦ one_of-bare action e
  | inr e ↦ unfold one_of in ground (arith, e, h)
]

-- The input is valid, and its action is in the list.
abbrev pub IsReviewed : TaskInput → Type 0
IsReviewed input = (input_valid input ≡ true) × (one_of input.action actions ≡ true)

task_valid-IsReviewed : (task : Task) → task_valid task ≡ true → IsReviewed task.input
unfolding task_valid input_valid
task_valid-IsReviewed task h =
    (ground arith, one_of-actions task.input.action task.input.params (ground arith))

fired-IsReviewed :
    (clock : Clock) (tasks : List Task) (input : TaskInput) (tasks' : List Task)
    → all task_valid tasks ≡ true
    → fired clock tasks ≡ some (input, tasks')
    → IsReviewed input
unfolding fired
fired-IsReviewed clock [] input tasks' v h = absurd (cc h)
fired-IsReviewed clock (task ∷ tasks) input tasks' v h = elim (Option-cases (fired clock tasks)) [
  | inl n ↦ rw (← only n) (task_valid-IsReviewed task (ground arith))
  | inr ((input', rest), f) ↦ elim (Bool-cases (due clock task)) [
    | inl e ↦ rw (← first e) (task_valid-IsReviewed task (ground arith))
    | inr e ↦
        rw (← later e input' rest f) (fired-IsReviewed clock tasks input' rest (ground arith) f)
  ]
]
  where
    only : fired clock tasks ≡ none → task.input ≡ input
    only n = ground (arith, n, h)

    first : due clock task ≡ true → task.input ≡ input
    first e = ground (arith, e, h)

    later :
        due clock task ≡ false
        → (input' : TaskInput) (rest : List Task) → fired clock tasks ≡ some (input', rest)
        → input' ≡ input
    later e input' rest f = ground (arith, e, f, h)

-- What is to run, if anything, is reviewed.
abbrev MayRun : Option TaskInput → Type 0
MayRun none = Unit
MayRun (some input) = IsReviewed input

attempt-MayRun :
    (saves : Bool) (s : TaskSchedule) (found : Option (TaskInput × List Task))
    → ((input : TaskInput) (tasks : List Task) → found ≡ some (input, tasks) → IsReviewed input)
    → MayRun (stored_attempt saves s found).1
unfolding stored_attempt
attempt-MayRun saves s none h = tt
attempt-MayRun true s (some (input, tasks)) h = h input tasks refl
attempt-MayRun false s (some (input, tasks)) h = tt

observe_at-MayRun :
    (saves : Bool) (s : TaskSchedule) (clock : Option Clock)
    → Inv s
    → MayRun (observe_at saves s clock).1
unfolding observe_at
observe_at-MayRun saves s none i = tt
observe_at-MayRun saves s (some c) i = elim (Bool-cases (is_some s.error)) [
  | inl e ↦ rw e tt
  | inr e ↦ rw e (
      attempt-MayRun saves s _
        (λ input tasks f. fired-IsReviewed c s.stored.tasks input tasks i.tasks_valid.each_valid f))
]

observe-MayRun :
    (changing saves : Bool) (s : TaskSchedule) (clock : Option Clock)
    → Inv s
    → MayRun (observe changing saves s clock).1
unfolding observe
observe-MayRun true saves s clock i = tt
observe-MayRun false saves s clock i = observe_at-MayRun saves s clock i

apply-MayRun : (p : Sample) (e : Event) (s : TaskSchedule) → Inv s → MayRun (apply p e s).1
unfolding apply
apply-MayRun p (Trace.upserted input) s i = tt
apply-MayRun p (removed id) s i = tt
apply-MayRun p (observed changing) s i =
    observe-MayRun changing p.saves s (local_clock p.date_output) i
apply-MayRun p (finished id date success) s i = tt
apply-MayRun p restarted s i = tt

All-run :
    (input : Option TaskInput) (rest : List TaskInput)
    → MayRun input
    → All IsReviewed rest
    → All IsReviewed (elim input [ none ↦ rest | some i ↦ i ∷ rest ])
All-run none rest m a = a
All-run (some input) rest m a = (m, a)

runs-All : (s : TaskSchedule) (samples : List Sample) → Inv s → All IsReviewed (runs s samples)
unfolding runs
runs-All s [] i = tt
runs-All s (p ∷ samples) i =
    All-run (apply p p.event s).1 _ (apply-MayRun p p.event s i)
      (runs-All (apply p p.event s).0 samples (apply-Inv p p.event s i))

-- Whatever the file held at the start and whatever is called since, restarts included, with saves
-- that fail or not: every task that is to run has a valid input, whose action is one of the fifteen
-- of `ACTIONS`.
pub runs-AreReviewed :
    (file : DiskFile Stored) (samples : List Sample) → All IsReviewed (runs (load file) samples)
runs-AreReviewed file samples = runs-All (load file) samples (load-Inv file)
