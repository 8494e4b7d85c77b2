-- ===== src/Device/Trace.antt =====
-- The calls that the daemon makes of the vendor session, in any order.
use zwrt_datad.Prelude.{ℕ, Bool, true, false, List, [], ◌∷◌}
use zwrt_datad.Prelude.Text.{Bytes}
use zwrt_datad.Device.{State, Vendor, Answer, VendorCall, login, active}

-- `login` with a password, and `active`, with what the vendor answers.
pub data Event : Type 0 where
  logged_in : Vendor → Bytes → Event
  queried : Answer → Event

-- The time is that of the monotonic clock, in nanoseconds.
pub record Sample : Type 0 where
  pub now : ℕ
  pub event : Event

module _ (sha : Bytes → Bytes) where
  unfoldable pub step : ℕ → Event → State → State
  step now (logged_in vendor password) s = (login sha vendor now s password).0
  step now (queried listed) s = (active listed s).0

  unfoldable pub run : State → List Sample → State
  unfolding step
  run s [] = s
  run s (p ∷ samples) = run (step p.now p.event s) samples

-- The calls of the vendor's services that a login makes.
unfoldable pub login_calls : (Bytes → Bytes) → ℕ → Event → State → List VendorCall
login_calls sha now (logged_in vendor password) s = (login sha vendor now s password).1
login_calls sha now (queried listed) s = []

abbrev pub is_called : List VendorCall → Bool
is_called [] = false
is_called (call ∷ calls) = true

abbrev pub call_if : Bool → ℕ → List ℕ → List ℕ
call_if true now calls = now ∷ calls
call_if false now calls = calls

-- The times of the logins that made a call of the vendor's services.
unfoldable pub vendor_calls : (Bytes → Bytes) → State → List Sample → List ℕ
unfolding login_calls
vendor_calls sha s [] = []
vendor_calls sha s (p ∷ samples) =
    call_if (is_called (login_calls sha p.now p.event s)) p.now
      (vendor_calls sha (step sha p.now p.event s) samples)
