-- ===== src/Tests/Charge.antt =====
-- The charge protection at concrete inputs.
use zwrt_datad.Prelude.{◌≡◌, refl, inr, true, some, none, [], ◌∷◌}
use zwrt_datad.Prelude.Int.{pos}
use zwrt_datad.Prelude.Text.{codes, text_eq, is_digit}
use zwrt_datad.Prelude.Utf8.{chars, trim, is_whitespace}
use zwrt_datad.Json.{object, entry, end, string, as_object, get}
use zwrt_datad.Tasks.Params.{decimal_value}
use zwrt_datad.Device.{Answer, answered, value_field, parse_i64}
use zwrt_datad.Charge.{
  Kernel, Driver, charge_policy, charge_threshold, int_eq, read, write, settle_loop, settle,
  holding, reported_mode, released, release_hold, set_threshold, restore_default, enforce_release,
  enforce,
}
use zwrt_datad.Charge.Hold.{IsEnforced, enforce-IsEnforced}

-- In the hold, which only the stock services still report, with the default period.
abbrev holding_kernel : Kernel
holding_kernel = record { mode = pos 1; threshold_minutes = pos 960; debug = pos 0; policy = pos 0 }

abbrev long_kernel : Kernel
long_kernel = record { mode = pos 1; threshold_minutes = pos 71582; debug = pos 1; policy = pos 0 }

abbrev info : Answer
info = answered (object (entry (codes "bat_mode") (string (codes "2")) end))

-- The period and the policy are there at the second look.
abbrev driver : Driver
driver = record {
  reads = some holding_kernel ∷ some long_kernel ∷ none ∷ some long_kernel ∷ [];
  outcomes = true ∷ true ∷ true ∷ [];
  written = [];
}

enforced : (enforce info driver holding_kernel).1 ≡ inr (long_kernel, true)
unfolding enforce enforce_release holding reported_mode value_field as_object get text_eq parse_i64
    chars trim is_whitespace decimal_value is_digit set_threshold release_hold released settle
    settle_loop read write int_eq
enforced = refl

written_back :
    (enforce info driver holding_kernel).0.written
    ≡ charge_threshold 71582 ∷ charge_policy (pos 1) ∷ charge_policy (pos 0) ∷ []
unfolding enforce enforce_release holding reported_mode value_field as_object get text_eq parse_i64
    chars trim is_whitespace decimal_value is_digit set_threshold release_hold released settle
    settle_loop read write int_eq
written_back = refl

default_restored :
    (restore_default (record driver { reads = some holding_kernel ∷ [] })).1 ≡ inr holding_kernel
unfolding restore_default settle settle_loop read write int_eq
default_restored = refl

enforce-IsEnforced_example :
    IsEnforced info driver (enforce info driver holding_kernel).0 holding_kernel long_kernel true
enforce-IsEnforced_example = enforce-IsEnforced info driver holding_kernel long_kernel true enforced
