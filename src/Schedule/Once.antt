-- ===== src/Schedule/Once.antt =====
-- The reboot schedule asks for one reboot a day at most.
use zwrt_datad.Prelude.{
  ℕ, ◌+◌, ◌*◌, ◌≤◌, ◌<◌, ◌≡◌, refl, ◌⊎◌, inl, inr, Bool, true, false, Option, none, some, List, [],
  ◌∷◌, arith, Option-cases, Bool-cases, leb, ◌&&◌, ◌||◌, ◌==◌, sym, ◌∙◌, ap, not, ltb→lt,
}
use zwrt_datad.Prelude.Text.{Bytes, text_lt, text_eq, is_digit}
use zwrt_datad.Storage.{DiskFile, missing, invalid, holds}
use zwrt_datad.Schedule.LocalClock.{
  Clock, local_clock, local_clock_valid, valid_date, valid_time, four, two, days_in,
}
use zwrt_datad.Schedule.Dates.{day_number, text_lt-day_number}
use zwrt_datad.Schedule.Trace.{
  Event, configured, seen, observed, failed, restarted, Sample, apply, asked_on, reboot_days,
}
use zwrt_datad.Schedule.{
  Schedule, Stored, default_stored, loadable, loaded, load, set, changed, set_environment, due,
  attempt, observe_at, observe, reboot_failed, is_empty, is_some,
}

-- The file holds what is in memory, unless nothing but the defaults is there.
record Inv (s : Schedule) : Type 0 where
  stored_loadable : loadable s.stored ≡ true
  on_disk : (s.path ≡ holds s.stored) ⊎ ((loaded s.path ≡ none) × (s.stored ≡ default_stored))

-- Days of which each is behind the one before, the first behind `day`.
abbrev pub IsAscending : ℕ → List ℕ → Type 0
IsAscending day [] = Unit
IsAscending day (d ∷ days) = (day < d) × IsAscending d days

abbrev last_day : Schedule → ℕ
last_day s = day_number s.stored.last_attempt_date

default_loadable : loadable default_stored ≡ true
unfolding loadable valid_time valid_date is_digit
default_loadable = refl

loaded-loadable :
    (path : DiskFile Stored) (s : Stored)
    → loaded path ≡ some s
    → (loadable s ≡ true) × (path ≡ holds s)
unfolding loaded
loaded-loadable missing s h = cc
loaded-loadable invalid s h = cc
loaded-loadable (holds t) s h = ground arith

load-Inv : (path : DiskFile Stored) (clock : Option Clock) → Inv (load path clock)
unfolding load
load-Inv path clock = elim (Option-cases (loaded path)) [
  | inl e ↦ rw e (record { stored_loadable = default_loadable; on_disk = inr (e, refl) })
  | inr (s, e) ↦
      let (l, d) = loaded-loadable path s e in
      rw e (record { stored_loadable = l; on_disk = inl d })
]

loaded_holds : (s : Stored) → loadable s ≡ true → loaded (holds s) ≡ some s
unfolding loaded
loaded_holds s h = ground arith

load-stored : (s : Schedule) (clock : Option Clock) → Inv s → (load s.path clock).stored ≡ s.stored
unfolding load
load-stored s clock i = elim i.on_disk [
  | inl e ↦ ground (arith, loaded_holds s.stored i.stored_loadable)
  | inr (e, d) ↦ ground arith
]

changed-Inv :
    (saves : Bool) (s : Schedule) (enabled : Bool) (time : Bytes)
    → valid_time time ≡ true
    → Inv s
    → Inv (changed saves s enabled time).0
unfolding changed loadable
changed-Inv saves s enabled time v i = ground arith

set-Inv :
    (saves : Bool) (s : Schedule) (enabled : Bool) (time : Bytes) (conflict : Bool)
    → Inv s
    → Inv (set saves s enabled time conflict).0
unfolding set
set-Inv saves s enabled time conflict i =
    ground (arith, changed-Inv saves (record s { conflict = conflict }) enabled time)

set-last_day :
    (saves : Bool) (s : Schedule) (enabled : Bool) (time : Bytes) (conflict : Bool)
    → last_day (set saves s enabled time conflict).0 ≡ last_day s
unfolding set changed
set-last_day saves s enabled time conflict = ground arith

sixth : (a b c d e f g h : Bool) → (a && b && c && d && e && f && g && h) ≡ true → f ≡ true
sixth a b c d e f g h v = ground arith

year_positive : (year m d : ℕ) → leb 2024 year ≡ true → 0 < year * 10000 + m + d
year_positive year m d h = ground arith

pub day_number-positive : (date : Bytes) → valid_date date ≡ true → 0 < day_number date
unfolding valid_date
day_number-positive (y ∷ y1 ∷ y2 ∷ y3 ∷ dash ∷ m ∷ m1 ∷ dash1 ∷ d ∷ d1 ∷ []) v =
    year_positive (four y y1 y2 y3) (two m m1 * 100) (two d d1) (
      sixth (dash == b'-') (dash1 == b'-') (is_digit y && is_digit y1 && is_digit y2 && is_digit y3)
        (is_digit m && is_digit m1) (is_digit d && is_digit d1) (leb 2024 (four y y1 y2 y3))
        (leb 1 (two m m1) && leb (two m m1) 12)
        (leb 1 (two d d1) && leb (two d d1) (days_in (four y y1 y2 y3) (two m m1))) v)
day_number-positive _ v = cc

-- `day` is not behind the last attempt, and a request comes on a later day and moves the last
-- attempt to it.
abbrev Moves : ℕ → Schedule → Option Clock → Bool → Type 0
Moves day s (some clock) true = (day < day_number clock.date) × (last_day s ≡ day_number clock.date)
Moves day s _ _ = day ≤ last_day s

asked_on-IsAscending :
    (day : ℕ) (s : Schedule) (clock : Option Clock) (asked : Bool) (days : List ℕ)
    → Moves day s clock asked
    → ((d : ℕ) → d ≤ last_day s → IsAscending d days)
    → IsAscending day (asked_on clock asked days)
asked_on-IsAscending day s none asked days h rest = rest day h
asked_on-IsAscending day s (some clock) false days h rest = rest day h
asked_on-IsAscending day s (some clock) true days (later, e) rest =
    (later, rest (day_number clock.date) (omega arith))

pub later_day :
    (before date : Bytes)
    → (is_empty before || valid_date before) ≡ true
    → valid_date date ≡ true
    → (is_empty before || text_lt before date) ≡ true
    → day_number before < day_number date
later_day [] date vb v h = day_number-positive date v
later_day (b ∷ t) date vb v h = ltb→lt _ _ (sym (text_lt-day_number (b ∷ t) date vb v) ∙ h)

third : (a b c : Bool) → (a && b && c) ≡ true → c ≡ true
third a b c h = ground arith

fifth : (a b c d e : Bool) → (a && b && c && d && e) ≡ true → e ≡ true
fifth a b c d e h = ground arith

loadable-dated :
    (s : Stored)
    → loadable s ≡ true
    → (is_empty s.last_attempt_date || valid_date s.last_attempt_date) ≡ true
unfolding loadable
loadable-dated s h = third (s.schema == 1) (valid_time s.time) _ h

pub IsAscending-weaken :
    (day day' : ℕ) (days : List ℕ) → day ≤ day' → IsAscending day' days → IsAscending day days
IsAscending-weaken day day' [] h a = tt
IsAscending-weaken day day' (d ∷ days) h (l, a) = (omega arith, a)

due-later :
    (s : Schedule) (clock : Clock)
    → Inv s
    → valid_date clock.date ≡ true
    → due s clock ≡ true
    → last_day s < day_number clock.date
unfolding due
due-later s clock i v d =
    later_day s.stored.last_attempt_date clock.date (loadable-dated s.stored i.stored_loadable) v (
      fifth s.stored.enabled (not s.conflict) (not (is_some s.error))
        (text_eq clock.time s.stored.time) _ d)

redated-loadable :
    (s : Stored) (date : Bytes)
    → loadable s ≡ true
    → valid_date date ≡ true
    → loadable (record s { last_attempt_date = date }) ≡ true
unfolding loadable
redated-loadable s date h v = ground arith

attempt-Moves :
    (saves : Bool) (s : Schedule) (c : Clock)
    → valid_date c.date ≡ true
    → due s c ≡ true
    → Inv s
    → let (s', asked) = attempt saves s c.date in Inv s' × Moves (last_day s) s' (some c) asked
unfolding attempt
attempt-Moves true s c v d i = (
  record {
    stored_loadable = redated-loadable s.stored c.date i.stored_loadable v;
    on_disk = inl refl;
  },
  (due-later s c i v d, refl),
)
attempt-Moves false s c v d i =
    (record { stored_loadable = i.stored_loadable; on_disk = i.on_disk }, omega arith)

observe_at-Moves :
    (saves : Bool) (s : Schedule) (clock : Option Clock)
    → ((c : Clock) → clock ≡ some c → valid_date c.date ≡ true)
    → Inv s
    → let (s', asked) = observe_at saves s clock in Inv s' × Moves (last_day s) s' clock asked
unfolding observe_at
observe_at-Moves saves s none v i = (i, omega arith)
observe_at-Moves saves s (some c) v i = elim (Bool-cases (due s c)) [
  | inl e ↦ rw e (attempt-Moves saves s c (v c refl) e i)
  | inr e ↦ rw e (i, omega arith)
]

observe-Moves :
    (changing saves : Bool) (s : Schedule) (clock : Option Clock) (conflict : Bool)
    → ((c : Clock) → clock ≡ some c → valid_date c.date ≡ true)
    → Inv s
    → let (s', asked) = observe changing saves s clock conflict in
      Inv s' × Moves (last_day s) s' clock asked
unfolding observe set_environment
observe-Moves true saves s none conflict v i = (i, omega arith)
observe-Moves true saves s (some c) conflict v i = (i, omega arith)
observe-Moves false saves s clock conflict v i =
    observe_at-Moves saves (record s { clock = clock; conflict = conflict }) clock v
      (record { stored_loadable = i.stored_loadable; on_disk = i.on_disk })

-- Nothing is asked for, and the day of the last attempt stays.
quiet-Moves :
    (s s' : Schedule) (clock : Option Clock)
    → Inv s'
    → last_day s' ≡ last_day s
    → Inv s' × Moves (last_day s) s' clock false
quiet-Moves s s' none i e = (i, omega arith)
quiet-Moves s s' (some c) i e = (i, omega arith)

apply-Moves :
    (p : Sample) (e : Event) (s : Schedule)
    → Inv s
    → let (s', asked) = apply p e s in
      Inv s' × Moves (last_day s) s' (local_clock p.date_output) asked
unfolding apply
apply-Moves p (configured enabled time conflict) s i =
    quiet-Moves s _ (local_clock p.date_output) (set-Inv p.saves s enabled time conflict i)
      (set-last_day p.saves s enabled time conflict)
apply-Moves p (seen conflict) s i =
    unfold set_environment in
    quiet-Moves s _ (local_clock p.date_output)
      (record { stored_loadable = i.stored_loadable; on_disk = i.on_disk }) refl
apply-Moves p (observed changing conflict) s i =
    observe-Moves changing p.saves s (local_clock p.date_output) conflict
      (λ c e. (local_clock_valid p.date_output c e).0) i
apply-Moves p failed s i =
    unfold reboot_failed in
    quiet-Moves s _ (local_clock p.date_output)
      (record { stored_loadable = i.stored_loadable; on_disk = i.on_disk }) refl
apply-Moves p restarted s i =
    quiet-Moves s _ (local_clock p.date_output) (load-Inv s.path (local_clock p.date_output))
      (ap (λ t. day_number t.last_attempt_date) (load-stored s (local_clock p.date_output) i))

days-IsAscending :
    (s : Schedule) (samples : List Sample) (day : ℕ)
    → Inv s
    → day ≤ last_day s
    → IsAscending day (reboot_days s samples)
unfolding reboot_days
days-IsAscending s [] day i h = tt
days-IsAscending s (p ∷ samples) day i h =
    let (i', m) = apply-Moves p p.event s i in
    IsAscending-weaken day (last_day s) _ h (
      asked_on-IsAscending (last_day s) (apply p p.event s).0 (local_clock p.date_output)
        (apply p p.event s).1 (reboot_days (apply p p.event s).0 samples) m
        (λ d k. days-IsAscending (apply p p.event s).0 samples d i' k))

-- Whatever the schedule's file held when the daemon started, and whatever is called since, restarts
-- included, with saves that fail or not: the days on which a reboot is asked for are each later than
-- the one before, so no day has two.
pub reboots-IsAscending :
    (file : DiskFile Stored) (clock : Option Clock) (samples : List Sample)
    → IsAscending 0 (reboot_days (load file clock) samples)
reboots-IsAscending file clock samples =
    days-IsAscending (load file clock) samples 0 (load-Inv file clock) (omega arith)
