-- ===== src/Tasks.antt =====
-- task_schedule.rs: the tasks of the panel, at most one run a day each.
pub mod Params
pub mod Trace
pub mod Kept
pub mod Distinct
pub mod Valid
pub mod LastDay
pub mod Once
pub mod Failed
pub mod Actions
use Params.{action_valid}
use zwrt_datad.Prelude.{
  ℕ, ◌+◌, Bool, true, false, not, ◌&&◌, ◌||◌, Option, none, some, List, [], ◌∷◌, ◌++◌, ltb, leb,
  ◌==◌, length, all, any, retain, if◌then◌else◌,
}
use zwrt_datad.Prelude.Text.{Bytes, codes, text_eq, text_lt, one_of}
use zwrt_datad.Prelude.Utf8.{chars, is_control, trim}
use zwrt_datad.Json.{Value, value_eq}
use zwrt_datad.Storage.{DiskFile, missing, invalid, holds}
use zwrt_datad.Schedule.{is_empty}
use zwrt_datad.Schedule.LocalClock.{Clock, valid_time, valid_date}

abbrev pub max_tasks : ℕ
max_tasks = 16

pub record TaskInput : Type 0 where
  pub id : Bytes
  pub time : Bytes
  pub repeat_daily : Bool
  pub action : Bytes
  pub params : Value

pub record Task : Type 0 where
  pub input : TaskInput
  pub last_attempt_date : Bytes
  pub has_triggered : Bool
  pub last_result : Bytes

pub record Stored : Type 0 where
  pub schema : ℕ
  pub tasks : List Task

pub data Error : Type 0 where
  invalid_task device_clock_unavailable task_limit task_not_found task_storage_failed : Error
  invalid_config : Error

pub record TaskSchedule : Type 0 where
  pub path : DiskFile Stored
  pub stored : Stored
  pub error : Option Error

abbrev pub default_stored : Stored
default_stored = record { schema = 1; tasks = [] }

abbrev pub is_some {ℓ} : {A : Type ℓ} → Option A → Bool
is_some none = false
is_some (some _) = true

unfoldable pub input_valid : TaskInput → Bool
input_valid input =
    not (length (trim (chars input.id)) == 0)
    && text_eq (trim (chars input.id)) (chars input.id)
    && leb (length input.id) 80
    && not (any is_control (chars input.id))
    && valid_time input.time
    && action_valid input.action input.params

-- The last tests of `stored_valid` on one task.
unfoldable pub task_valid : Task → Bool
task_valid task =
    input_valid task.input
    && (is_empty task.last_attempt_date || valid_date task.last_attempt_date)
    && one_of task.last_result ([] ∷ codes "requested" ∷ codes "ok" ∷ codes "failed" ∷ [])

-- The tasks' ids are neither among those seen nor among one another: `seen.insert`.
unfoldable pub distinct : List Bytes → List Task → Bool
distinct seen [] = true
distinct seen (task ∷ tasks) =
    not (one_of task.input.id seen) && distinct (task.input.id ∷ seen) tasks

unfoldable pub stored_valid : Stored → Bool
stored_valid stored =
    stored.schema == 1
    && leb (length stored.tasks) max_tasks
    && all task_valid stored.tasks
    && distinct [] stored.tasks

unfoldable pub loaded : DiskFile Stored → Option Stored
loaded (holds s) = if stored_valid s then some s else none
loaded _ = none

unfoldable pub file_error : DiskFile Stored → Option Error
unfolding loaded
file_error missing = none
file_error file = elim (loaded file) [ some _ ↦ none | none ↦ some invalid_config ]

unfoldable pub load : DiskFile Stored → TaskSchedule
unfolding loaded file_error
load path = record {
  path = path;
  stored = elim (loaded path) [ some s ↦ s | none ↦ default_stored ];
  error = file_error path;
}

-- `self.save(&next)?`, then `stored = next` and `error = None`.
unfoldable pub committed : Bool → TaskSchedule → List Task → TaskSchedule × Option Error
committed true s tasks =
    let next = record s.stored { tasks = tasks } in
    (record { path = holds next; stored = next; error = none }, none)
committed false s tasks = (s, some task_storage_failed)

unfoldable pub bool_eq : Bool → Bool → Bool
bool_eq true b = b
bool_eq false b = not b

-- `==` on inputs
unfoldable pub input_eq : TaskInput → TaskInput → Bool
unfolding bool_eq
input_eq a b =
    text_eq a.id b.id
    && text_eq a.time b.time
    && bool_eq a.repeat_daily b.repeat_daily
    && text_eq a.action b.action
    && value_eq a.params b.params

abbrev pub fresh_task : TaskInput → Task
fresh_task input = record {
  input = input;
  last_attempt_date = [];
  has_triggered = false;
  last_result = [];
}

-- The first task with the id, and the tasks with a fresh one of the input in its place.
unfoldable pub replaced : TaskInput → List Task → Option (Task × List Task)
replaced input [] = none
replaced input (task ∷ tasks) =
    let later = replaced input tasks in
    if text_eq task.input.id input.id
    then some (task, fresh_task input ∷ tasks)
    else elim later [ none ↦ none | some (found, rest) ↦ some (found, task ∷ rest) ]

-- The part of `upsert` behind its checks.
unfoldable pub upserted : Bool → TaskSchedule → TaskInput → TaskSchedule × Option Error
unfolding committed input_eq
upserted saves s input = elim (replaced input s.stored.tasks) [
  | some (found, tasks) ↦
      if input_eq found.input input && not (is_some s.error)
      then (s, none)
      else committed saves s tasks
  | none ↦
      if length s.stored.tasks == max_tasks
      then (s, some task_limit)
      else committed saves s (s.stored.tasks ++ (fresh_task input ∷ []))
]

-- `clock` is what `local_clock` gives.
unfoldable pub upsert : Bool → Option Clock → TaskSchedule → TaskInput → TaskSchedule × Option Error
unfolding upserted
upsert saves clock s input =
    if not (input_valid input)
    then (s, some invalid_task)
    else if not (is_some clock)
    then (s, some device_clock_unavailable)
    else upserted saves s input

unfoldable pub remove : Bool → TaskSchedule → Bytes → TaskSchedule × Option Error
unfolding committed
remove saves s id =
    let tasks = retain (λ task. not (text_eq task.input.id id)) s.stored.tasks in
    if is_empty id || ltb 80 (length id)
    then (s, some invalid_task)
    else if length tasks == length s.stored.tasks
    then (s, some task_not_found)
    else committed saves s tasks

unfoldable pub due : Clock → Task → Bool
due clock task =
    text_eq task.input.time clock.time
    && (is_empty task.last_attempt_date || text_lt task.last_attempt_date clock.date)
    && (task.input.repeat_daily || not task.has_triggered)

abbrev attempted : Clock → Task → Task
attempted clock task = record task {
  last_attempt_date = clock.date;
  last_result = codes "requested";
  has_triggered = if task.input.repeat_daily then task.has_triggered else true;
}

-- The first due task's input, and the tasks with its attempt recorded.
unfoldable pub fired : Clock → List Task → Option (TaskInput × List Task)
fired clock [] = none
fired clock (task ∷ tasks) =
    let later = fired clock tasks in
    if due clock task
    then some (task.input, attempted clock task ∷ tasks)
    else elim later [ none ↦ none | some (input, rest) ↦ some (input, task ∷ rest) ]

unfoldable pub stored_attempt :
    Bool → TaskSchedule → Option (TaskInput × List Task) → TaskSchedule × Option TaskInput
stored_attempt saves s none = (s, none)
stored_attempt true s (some (input, tasks)) =
    let next = record s.stored { tasks = tasks } in
    (record s { path = holds next; stored = next }, some input)
stored_attempt false s (some (input, tasks)) = (record s { error = some task_storage_failed }, none)

unfoldable pub observe_at : Bool → TaskSchedule → Option Clock → TaskSchedule × Option TaskInput
unfolding stored_attempt
observe_at saves s none = (s, none)
observe_at saves s (some clock) =
    if is_some s.error then (s, none) else stored_attempt saves s (fired clock s.stored.tasks)

-- The first argument is `clock_change_in_progress()`, the second the outcome of the save.
unfoldable pub observe : Bool → Bool → TaskSchedule → Option Clock → TaskSchedule × Option TaskInput
unfolding observe_at
observe changing saves s clock = if changing then (s, none) else observe_at saves s clock

-- The tasks with the result of the first one of that id and attempt.
unfoldable pub settled : Bytes → Bytes → Bytes → List Task → Option (List Task)
settled id date result [] = none
settled id date result (task ∷ tasks) =
    let later = settled id date result tasks in
    if text_eq task.input.id id && text_eq task.last_attempt_date date
    then some (record task { last_result = result } ∷ tasks)
    else elim later [ none ↦ none | some rest ↦ some (task ∷ rest) ]

unfoldable pub stored_result : Bool → TaskSchedule → Option (List Task) → TaskSchedule
stored_result saves s none = s
stored_result true s (some tasks) =
    let next = record s.stored { tasks = tasks } in record s { path = holds next; stored = next }
stored_result false s (some tasks) = record s { error = some task_storage_failed }

unfoldable pub finish : Bool → TaskSchedule → Bytes → Bytes → Bool → TaskSchedule
unfolding stored_result
finish saves s id date success =
    stored_result saves s
      (settled id date (if success then codes "ok" else codes "failed") s.stored.tasks)
