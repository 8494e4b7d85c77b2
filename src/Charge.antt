-- ===== src/Charge.antt =====
-- charge_protection.rs: how the battery driver's long-charge protection is released and set. What the
-- driver's files show, read after read, what the stock services answer and which writes succeed are
-- inputs of each call.
pub mod Reads
pub mod Holding
pub mod Release
pub mod Hold
use zwrt_datad.Prelude.{
  ℕ, zero, suc, ◌≡◌, Bool, true, false, not, ◌&&◌, ◌||◌, Option, none, some, ◌⊎◌, inl, inr, List,
  [], ◌∷◌, ◌++◌, ◌==◌, leb, if◌then◌else◌,
}
use zwrt_datad.Prelude.Int.{ℤ, pos, negsuc}
use zwrt_datad.Prelude.Text.{codes}
use zwrt_datad.Prelude.Utf8.{chars, trim}
use zwrt_datad.Json.{Value, number, string, as_i64}
use zwrt_datad.Device.{Answer, answered, failed, value_field, parse_i64}

abbrev pub disabled_threshold_minutes : ℕ
disabled_threshold_minutes = 71582

abbrev pub long_charging_mode : ℕ
long_charging_mode = 2

abbrev pub zgd_policy : ℕ
zgd_policy = 5

pub record Kernel : Type 0 where
  pub mode : ℤ
  pub threshold_minutes : ℤ
  pub debug : ℤ
  pub policy : ℤ

-- What is written to the driver: `ui_chg_policy_mode`, and `customer_mode` with "2 N" or "1 1".
pub data Command : Type 0 where
  charge_policy : ℤ → Command
  charge_threshold : ℕ → Command
  charge_default : Command

pub data Error : Type 0 where
  write_failed policy_differs still_active unreadable threshold_differs default_differs : Error

-- The reads and the outcomes of writes to come, and the writes that have succeeded, the newest last.
-- A read that is not listed finds nothing; a write that is not listed fails.
pub record Driver : Type 0 where
  pub reads : List (Option Kernel)
  pub outcomes : List Bool
  pub written : List Command

unfoldable pub int_eq : ℤ → ℤ → Bool
int_eq (pos a) (pos b) = a == b
int_eq (negsuc a) (negsuc b) = a == b
int_eq _ _ = false

-- The mode in the field `bat_mode`.
unfoldable pub reported_mode : Option Value → Option ℤ
unfolding parse_i64
reported_mode (some (string text)) = parse_i64 (trim (chars text))
reported_mode (some (number n)) = as_i64 (number n)
reported_mode _ = none

abbrev pub is_long : Option ℤ → Bool
is_long (some (pos mode)) = leb long_charging_mode mode
is_long _ = false

-- The first argument is what `get_device_info` answers.
unfoldable pub holding : Answer → Kernel → Bool
unfolding int_eq reported_mode value_field
holding info kernel = int_eq kernel.mode (pos long_charging_mode) || (elim info [
  | answered value ↦ is_long (reported_mode (value_field (codes "bat_mode") value))
  | failed error ↦ false
])

unfoldable pub read : Driver → Driver × Option Kernel
read d = elim d.reads [ [] ↦ (d, none) | k ∷ reads ↦ (record d { reads = reads }, k) ]

-- The second part is whether the write succeeded.
unfoldable pub write : Driver → Command → Driver × Bool
write d command = elim d.outcomes [
  | [] ↦ (d, false)
  | ok ∷ outcomes ↦
      if ok
      then (record d { outcomes = outcomes; written = d.written ++ (command ∷ []) }, true)
      else (record d { outcomes = outcomes }, false)
]

abbrev pub accepted_by : (Kernel → Bool) → Option Kernel → Bool
accepted_by accept none = false
accepted_by accept (some k) = accept k

-- The loop of `settle`, with the number of attempts left and the last kernel read.
unfoldable pub settle_loop : ℕ → (Kernel → Bool) → Driver → Option Kernel → Driver × Option Kernel
unfolding read
settle_loop zero accept d last = (d, last)
settle_loop (suc attempts) accept d last =
    let (d', k) = read d in
    let rest = settle_loop attempts accept d' k in if accepted_by accept k then (d', k) else rest

unfoldable pub settle : (Kernel → Bool) → Driver → Driver × Option Kernel
unfolding settle_loop
settle accept d = settle_loop 10 accept d none

-- What `release_hold` makes of the last kernel read; `restored` is whether the policy was written back.
unfoldable pub released : Kernel → Bool → Option Kernel → Error ⊎ Kernel
unfolding int_eq
released kernel restored after = if not restored then inl write_failed else elim after [
  | none ↦ inl unreadable
  | some k ↦
      if not (int_eq k.policy kernel.policy)
      then inl policy_differs
      else if int_eq k.mode (pos long_charging_mode)
      then inl still_active
      else inr k
]

abbrev pub is_released : Kernel → Kernel → Bool
is_released kernel k = not (int_eq k.mode (pos long_charging_mode)) && int_eq k.policy kernel.policy

abbrev pub other_policy : Kernel → ℤ
other_policy kernel = if int_eq kernel.policy (pos 0) then pos 1 else pos 0

unfoldable pub release_hold : Driver → Kernel → Driver × (Error ⊎ Kernel)
unfolding write settle released
release_hold d kernel =
    let (d', switched) = write d (charge_policy (other_policy kernel)) in
    let (d'', restored) = write d' (charge_policy kernel.policy) in
    let (d''', after) = settle (is_released kernel) d'' in
    if switched then (d''', released kernel restored after) else (d', inl write_failed)

abbrev pub confirmed : (Kernel → Bool) → Error → Option Kernel → Error ⊎ Kernel
confirmed accept error none = inl error
confirmed accept error (some k) = if accept k then inr k else inl error

unfoldable pub set_threshold : Driver → ℕ → Driver × (Error ⊎ Kernel)
unfolding write settle
set_threshold d minutes =
    let accept : Kernel → Bool = λ k. int_eq k.threshold_minutes (pos minutes) in
    let (d', ok) = write d (charge_threshold minutes) in
    let (d'', after) = settle accept d' in
    if ok then (d'', confirmed accept threshold_differs after) else (d', inl write_failed)

unfoldable pub restore_default : Driver → Driver × (Error ⊎ Kernel)
unfolding write settle
restore_default d =
    let accept : Kernel → Bool = λ k. int_eq k.debug (pos 0) in
    let (d', ok) = write d charge_default in
    let (d'', after) = settle accept d' in
    if ok then (d'', confirmed accept default_differs after) else (d', inl write_failed)

-- The part of `enforce` behind the threshold; the first argument is what `holding` answered before.
unfoldable pub enforce_release : Bool → Driver → Error ⊎ Kernel → Driver × (Error ⊎ (Kernel × Bool))
unfolding release_hold
enforce_release held d (inl error) = (d, inl error)
enforce_release held d (inr kernel) =
    if held && not (int_eq kernel.policy (pos zgd_policy))
    then (let (d', after) = release_hold d kernel in
        (d', elim after [ inl error ↦ inl error | inr k ↦ inr (k, true) ]))
    else (d, inr (kernel, false))

-- The first argument is what `get_device_info` answers.
unfoldable pub enforce : Answer → Driver → Kernel → Driver × (Error ⊎ (Kernel × Bool))
unfolding holding enforce_release set_threshold
enforce info d kernel =
    let held = holding info kernel in
    let (d', after) = set_threshold d disabled_threshold_minutes in
    if int_eq kernel.debug (pos 0)
      || not (int_eq kernel.threshold_minutes (pos disabled_threshold_minutes))
    then enforce_release held d' after
    else enforce_release held d (inr kernel)
