-- ===== src/Tasks/Failed.antt =====
-- What a failed save does to the tasks.
use zwrt_datad.Prelude.{
  ◌≡◌, ◌≢◌, refl, inl, inr, Bool, true, false, Option, none, some, List, [], ◌∷◌, arith, All,
  Option-cases,
}
use zwrt_datad.Prelude.Text.{Bytes}
use zwrt_datad.Schedule.LocalClock.{Clock, local_clock}
use zwrt_datad.Tasks.{
  TaskSchedule, task_storage_failed, TaskInput, is_some, fired, stored_attempt, observe_at, observe,
  stored_result, finish,
}
use zwrt_datad.Tasks.Trace.{Event, removed, observed, finished, restarted, Sample, apply}
use zwrt_datad.Tasks.Trace

-- The tasks that are to run, in order.
unfoldable pub runs : TaskSchedule → List Sample → List TaskInput
runs s [] = []
runs s (p ∷ samples) =
    let (s', input) = apply p p.event s in
    elim input [ none ↦ runs s' samples | some i ↦ i ∷ runs s' samples ]

-- `observe` and `finish`: calls that write no settings, and no restart.
abbrev pub IsBackground : Event → Type 0
IsBackground (observed changing) = Unit
IsBackground (finished id date success) = Unit
IsBackground _ = ⊥

finish-error :
    (saves : Bool) (s : TaskSchedule) (id date : Bytes) (success : Bool)
    → is_some s.error ≡ true
    → is_some (finish saves s id date success).error ≡ true
unfolding finish stored_result
finish-error saves s id date success h = ground arith

observe-error :
    (changing saves : Bool) (s : TaskSchedule) (clock : Option Clock)
    → is_some s.error ≡ true
    → observe changing saves s clock ≡ (s, none)
unfolding observe observe_at
observe-error changing saves s none h = ground arith
observe-error changing saves s (some c) h = ground arith

background-error :
    (p : Sample) (e : Event) (s : TaskSchedule)
    → IsBackground e
    → is_some s.error ≡ true
    → ((apply p e s).1 ≡ none) × (is_some (apply p e s).0.error ≡ true)
unfolding apply
background-error p (Trace.upserted input) s b h = absurd b
background-error p (removed id) s b h = absurd b
background-error p (observed changing) s b h =
    rw (observe-error changing p.saves s (local_clock p.date_output) h) (refl, h)
background-error p (finished id date success) s b h =
    (refl, finish-error p.saves s id date success h)
background-error p restarted s b h = absurd b

runs-error :
    (s : TaskSchedule) (samples : List Sample)
    → All (λ p. IsBackground p.event) samples
    → is_some s.error ≡ true
    → runs s samples ≡ []
unfolding runs
runs-error s [] a h = refl
runs-error s (p ∷ samples) (b, a) h =
    let (n, h') = background-error p p.event s b h in
    let rest = runs-error (apply p p.event s).0 samples a h' in rw (runs, n) rest

-- Where a task is due and the save of its attempt fails: it is not run, what is stored and the file
-- stay, and nothing runs as long as only `observe` and `finish` are called.
pub failed_attempt :
    (s : TaskSchedule) (clock : Clock) (samples : List Sample)
    → is_some s.error ≡ false
    → fired clock s.stored.tasks ≢ none
    → All (λ p. IsBackground p.event) samples
    → let (s', input) = observe false false s (some clock) in
      (input ≡ none) × (s'.stored ≡ s.stored) × (s'.path ≡ s.path) × (runs s' samples ≡ [])
unfolding observe runs
failed_attempt s clock samples e f a = elim (Option-cases (fired clock s.stored.tasks)) [
  | inl n ↦ absurd (f n)
  | inr ((input, tasks), r) ↦
      rw (observe, observe_at, e, r)
        (unfold stored_attempt in
          (
            refl,
            refl,
            refl,
            runs-error (record s { error = some task_storage_failed }) samples a refl,
          ))
]
