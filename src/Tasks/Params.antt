-- ===== src/Tasks/Params.antt =====
-- task_schedule.rs: which actions a task may have, and with which parameters.
use zwrt_datad.Prelude.{
  ℕ, ◌+◌, ◌-◌, ◌*◌, ◌/◌, ◌%◌, Bool, true, false, not, ◌&&◌, ◌||◌, Option, none, some, List, [], ◌∷◌,
  ◌++◌, ltb, leb, ◌==◌, length, all, any, take, drop, if◌then◌else◌,
}
use zwrt_datad.Prelude.Int.{ℤ, pos, negsuc}
use zwrt_datad.Prelude.Text.{Bytes, codes, text_eq, one_of, is_digit}
use zwrt_datad.Prelude.Utf8.{chars, is_control, trim, utf16}
use zwrt_datad.Json.{
  Value, Fields, end, entry, string, object, as_str, as_bool, as_object, as_i64, size, get,
}
use zwrt_datad.Schedule.LocalClock.{Clock, valid_time, valid_date}

abbrev is_some {ℓ} : {A : Type ℓ} → Option A → Bool
is_some none = false
is_some (some _) = true

-- `is_some_and`
abbrev holds_for {ℓ} : {A : Type ℓ} → Option A → (A → Bool) → Bool
holds_for none p = false
holds_for (some a) p = p a

abbrev then_get : Option Value → (Value → Option Value) → Option Value
then_get none f = none
then_get (some v) f = f v

unfoldable pub is_int : ℕ → ℤ → Bool
is_int n (pos m) = m == n
is_int n (negsuc m) = false

unfoldable pub string_one_of : Value → List Bytes → Bool
string_one_of value values = holds_for (as_str value) (λ name. one_of name values)

-- An object with one field, of that key.
unfoldable pub exact_object : Value → Bytes → Option Value
exact_object params key = elim (as_object params) [
  | none ↦ none
  | some fields ↦ if size fields == 1 then get key fields else none
]

unfoldable pub decimal_value : ℕ → Bytes → ℕ
decimal_value acc [] = acc
decimal_value acc (b ∷ text) = decimal_value (acc * 10 + (b - b'0')) text

unfoldable pub decimal_parameter : Option Value → ℕ → ℕ → ℕ → Bool
unfolding decimal_value
decimal_parameter value digits min max = holds_for value (λ v. holds_for (as_str v) (λ text.
    not (length text == 0)
    && leb (length text) digits
    && all is_digit text
    && leb min (decimal_value 0 text)
    && leb (decimal_value 0 text) max))

unfoldable pub cell_lock_valid : Value → Bool → Bool
cell_lock_valid params nr = holds_for (as_object params) (λ fields.
    size fields == (if nr then 3 else 2)
    && decimal_parameter (get (codes "pci") fields) 4 0 1007
    && decimal_parameter (get (if nr then codes "arfcn" else codes "earfcn") fields) 8 1 99999999
    && (not nr || decimal_parameter (get (codes "band") fields) 3 1 999))

-- `strip_prefix('+').unwrap_or(number)`
unfoldable pub strip_plus : Bytes → Bytes
strip_plus [] = []
strip_plus (b ∷ number) = if b == b'+' then number else b ∷ number

unfoldable pub valid_number : Bytes → Bool
unfolding strip_plus
valid_number number =
    leb 3 (length number)
    && leb (length number) 32
    && not (length (strip_plus number) == 0)
    && all is_digit (strip_plus number)

-- The tests on the text of a message; a line feed is the one control character allowed.
unfoldable pub valid_text : Bytes → Bool
valid_text text =
    not (length (trim (chars text)) == 0)
    && not (any (λ c. is_control c && not (c == 10)) (chars text))
    && leb (length (utf16 (chars text))) 280

unfoldable pub string_field : Bytes → Fields → Option Bytes
string_field key fields = elim (get key fields) [ none ↦ none | some v ↦ as_str v ]

unfoldable pub scheduled_sms_valid : Value → Bool
unfolding valid_number valid_text string_field
scheduled_sms_valid params = holds_for (as_object params) (λ fields.
    size fields == 2
    && holds_for (string_field (codes "number") fields) (λ number.
      holds_for (string_field (codes "text") fields)
        (λ text. valid_number number && valid_text text)))

unfoldable pub int_field : Option Value → ℕ → ℕ → Bool
unfolding is_int
int_field value a b = holds_for value (λ v. holds_for (as_i64 v) (λ n. is_int a n || is_int b n))

unfoldable pub valid_chip : Value → Bool
unfolding int_field
valid_chip params = holds_for (as_object params) (λ fields.
    size fields == 2
    && holds_for (string_field (codes "chip") fields)
        (λ chip. one_of chip (codes "chip1" ∷ codes "chip2" ∷ []))
    && int_field (get (codes "guest_enabled") fields) 0 0)

abbrev pub network_modes : List Bytes
network_modes =
    codes "WL_AND_5G"
    ∷ codes "LTE_AND_5G"
    ∷ codes "Only_5G"
    ∷ codes "WCDMA_AND_LTE"
    ∷ codes "Only_LTE"
    ∷ codes "Only_WCDMA"
    ∷ []

abbrev pub bare_actions : List Bytes
bare_actions =
    codes "device.reboot"
    ∷ codes "device.poweroff"
    ∷ codes "sms.forward.device_info"
    ∷ codes "cellular.connect"
    ∷ codes "cellular.disconnect"
    ∷ codes "cell.unlock_all"
    ∷ []

unfoldable pub action_valid : Bytes → Value → Bool
unfolding int_field valid_chip
action_valid action params =
    if one_of action bare_actions
    then holds_for (as_object params) (λ fields. size fields == 0)
    else if text_eq action (codes "cell.lock_lte")
    then cell_lock_valid params false
    else if text_eq action (codes "cell.lock_nr")
    then cell_lock_valid params true
    else if text_eq action (codes "sms.send_scheduled")
    then scheduled_sms_valid params
    else if text_eq action (codes "cellular.set")
    then int_field (exact_object params (codes "roaming")) 0 1
    else if text_eq action (codes "network.set_mode")
    then holds_for (exact_object params (codes "mode")) (λ v. string_one_of v network_modes)
    else if text_eq action (codes "nfc.set")
    then holds_for (exact_object params (codes "enabled")) (λ v. is_some (as_bool v))
    else if text_eq action (codes "sim.set_slot")
    then int_field (exact_object params (codes "slot")) 1 2
    else if text_eq action (codes "wifi.set_module")
    then int_field (exact_object params (codes "enabled")) 0 1
    else if text_eq action (codes "wifi.set_chip")
    then valid_chip params
    else false

unfoldable pub hex_upper : ℕ → ℕ
hex_upper d = if ltb d 10 then b'0' + d else b'A' + (d - 10)

-- `{unit:04X}` of each unit.
unfoldable pub message_hex : List ℕ → Bytes
unfolding hex_upper
message_hex [] = []
message_hex (u ∷ units) =
    hex_upper (u / 4096 % 16)
    ∷ hex_upper (u / 256 % 16)
    ∷ hex_upper (u / 16 % 16)
    ∷ hex_upper (u % 16)
    ∷ message_hex units

-- `text[from..from + 2]`
unfoldable pub slice_two : ℕ → Bytes → Bytes
slice_two from text = take 2 (drop from text)

unfoldable pub sms_time : Clock → Bytes
unfolding slice_two
sms_time clock =
    slice_two 2 clock.date
    ++ (b';' ∷ slice_two 5 clock.date)
    ++ (b';' ∷ slice_two 8 clock.date)
    ++ (b';' ∷ slice_two 0 clock.time)
    ++ (b';' ∷ slice_two 3 clock.time)
    ++ codes ";00;+;0"

unfoldable pub sms_object : Bytes → Bytes → Clock → Value
unfolding sms_time message_hex
sms_object number text clock = object (
    entry (codes "message_hex") (string (message_hex (utf16 (chars text)))) (
      entry (codes "number") (string number) (
        entry (codes "sender") (string (codes "host"))
          (entry (codes "sms_time") (string (sms_time clock)) end))))

-- The arguments are the action and the parameters of the input.
unfoldable pub scheduled_sms_params : Bytes → Value → Clock → Option Value
unfolding sms_object string_field
scheduled_sms_params action params clock =
    if not (text_eq action (codes "sms.send_scheduled"))
      || not (scheduled_sms_valid params)
      || not (valid_date clock.date)
      || not (valid_time clock.time)
    then none
    else elim (as_object params) [
      | none ↦ none
      | some fields ↦ elim (string_field (codes "number") fields) [
        | none ↦ none
        | some number ↦ elim (string_field (codes "text") fields) [
          | none ↦ none
          | some text ↦ some (sms_object number text clock)
        ]
      ]
    ]
