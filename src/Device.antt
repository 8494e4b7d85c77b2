-- ===== src/Device.antt =====
-- device_session.rs: the session at the vendor's web service that a password opens. SHA-256 is a
-- parameter, and so is what the vendor's services answer.
pub mod Trace
pub mod Attempts
pub mod Paced
pub mod Opened
use zwrt_datad.Prelude.{
  ℕ, zero, suc, ◌+◌, ◌-◌, ◌*◌, ◌^◌, Bool, true, false, not, ◌&&◌, ◌||◌, Option, none, some, List,
  [], ◌∷◌, ◌++◌, ltb, leb, ◌==◌, length, all, retain, if◌then◌else◌,
}
use zwrt_datad.Prelude.Int.{ℤ, pos, negsuc}
use zwrt_datad.Prelude.Text.{Bytes, codes, text_eq, starts_with, contains, is_digit}
use zwrt_datad.Prelude.Utf8.{chars, trim}
use zwrt_datad.Json.{Value, number, string, as_str, as_object, as_i64, get, size}
use zwrt_datad.Schedule.{is_empty}
use zwrt_datad.Tasks.{is_some}
use zwrt_datad.Tasks.Params.{decimal_value}
use zwrt_datad.Route.{is_alphanumeric}

abbrev pub max_password_bytes : ℕ
max_password_bytes = 1024

abbrev pub max_attempts : ℕ
max_attempts = 3

-- In nanoseconds.
abbrev pub attempt_window : ℕ
attempt_window = 60000000000

pub data LoginError : Type 0 where
  invalid invalid_credentials rate_limited unavailable : LoginError

pub record Session : Type 0 where
  pub id : Bytes
  pub checkable : Bool

pub record State : Type 0 where
  pub session : Option Session
  pub expired : Bool
  pub attempts : List ℕ

abbrev pub initial : State
initial = record { session = none; expired = false; attempts = [] }

-- What a call over ubus gives: a value, or the text of an error.
pub data Answer : Type 0 where
  answered : Value → Answer
  failed : Bytes → Answer

-- The answers of `web_login_info`, of `web_login` to the hashed password, of `web_login_info` again,
-- and of `session list`.
pub record Vendor : Type 0 where
  pub info : Answer
  pub web_login : Bytes → Answer
  pub info_after : Answer
  pub listed : Answer

-- The calls of the vendor's services that `login` makes: `web_login_info`, `web_login` with the hashed
-- password, and `session list` with an id.
pub data VendorCall : Type 0 where
  asked_info : VendorCall
  sent_password asked_session : Bytes → VendorCall

unfoldable pub valid_password : Bytes → Bool
valid_password password =
    not (is_empty password)
    && leb (length password) max_password_bytes
    && not (contains 10 password || contains 13 password || contains 0 password)

unfoldable pub value_field : Bytes → Value → Option Value
value_field key value = elim (as_object value) [ none ↦ none | some fields ↦ get key fields ]

unfoldable pub text_field : Bytes → Value → Option Bytes
unfolding value_field
text_field key value = elim (value_field key value) [ none ↦ none | some v ↦ as_str v ]

unfoldable pub password_param : Value → Option Bytes
unfolding text_field
password_param params = elim (as_object params) [
  | none ↦ none
  | some fields ↦ if size fields == 1 then text_field (codes "password") params else none
]

-- `str::parse` for `i64`
unfoldable pub parse_i64 : Bytes → Option ℤ
parse_i64 [] = none
parse_i64 (b ∷ text) =
    let digits = if b == b'+' || b == b'-' then text else b ∷ text in
    let n = decimal_value 0 digits in
    if is_empty digits || not (all is_digit digits)
    then none
    else if b == b'-'
    then (if n == 0 then some (pos 0) else if leb n (2 ^ 63) then some (negsuc (n - 1)) else none)
    else if ltb n (2 ^ 63)
    then some (pos n)
    else none

unfoldable pub text_or_number : Value → Option ℤ
unfolding parse_i64
text_or_number (number n) = as_i64 (number n)
text_or_number (string text) = parse_i64 (trim (chars text))
text_or_number _ = none

abbrev pub is_positive : Option ℤ → Bool
is_positive (some (pos (suc n))) = true
is_positive _ = false

abbrev pub is_zero : Option ℤ → Bool
is_zero (some (pos zero)) = true
is_zero _ = false

unfoldable pub number_field : Bytes → Value → Option ℤ
unfolding value_field text_or_number
number_field key value = elim (value_field key value) [ none ↦ none | some v ↦ text_or_number v ]

unfoldable pub locked : Value → Bool
unfolding number_field
locked info = is_positive (number_field (codes "login_fail_lock_lefttime") info)

unfoldable pub id_valid : Bytes → Bool
unfolding is_alphanumeric
id_valid id = leb 8 (length id) && leb (length id) 64 && all is_alphanumeric id

unfoldable pub session_id : Value → Option Bytes
unfolding text_field id_valid
session_id reply = elim (text_field (codes "ubus_rpc_session") reply) [
  | none ↦ none
  | some id ↦ if id_valid id then some id else none
]

-- `str::contains` of a text
unfoldable pub contains_text : Bytes → Bytes → Bool
contains_text part [] = is_empty part
contains_text part (b ∷ text) = starts_with part (b ∷ text) || contains_text part text

abbrev pub is_text : Option Bytes → Bytes → Bool
is_text none id = false
is_text (some text) id = text_eq text id

unfoldable pub session_exists : Bytes → Answer → Option Bool
unfolding text_field contains_text
session_exists id (answered value) = some (is_text (text_field (codes "ubus_rpc_session") value) id)
session_exists id (failed error) =
    if contains_text (codes "exit status: 252") error then some false else none

unfoldable pub salt_of : Value → Option Bytes
unfolding text_field
salt_of info = elim (text_field (codes "zte_web_sault") info) [
  | none ↦ none
  | some salt ↦ if not (is_empty salt) && leb (length salt) 256 then some salt else none
]

unfoldable pub accepted_id : Answer → Option Bytes
unfolding number_field session_id
accepted_id (answered value) =
    if is_zero (number_field (codes "result") value) then session_id value else none
accepted_id (failed error) = none

unfoldable pub refusal : Answer → Answer → LoginError
unfolding value_field locked
refusal reply info_after =
    let lockout : Bool = elim info_after [ answered info ↦ locked info | failed error ↦ false ] in
    let refused : Bool = elim reply [
      | answered value ↦ is_some (value_field (codes "result") value)
      | failed error ↦ false
    ] in
    if lockout then rate_limited else if refused then invalid_credentials else unavailable

abbrev pub is_true : Option Bool → Bool
is_true (some true) = true
is_true _ = false

-- The part of `login` behind the reply to `web_login`. The second part are the calls that it makes.
unfoldable pub concluded : Vendor → State → Answer → State × List VendorCall × Option LoginError
unfolding accepted_id session_exists refusal
concluded vendor s reply = elim (accepted_id reply) [
  | none ↦ (s, asked_info ∷ [], some (refusal reply vendor.info_after))
  | some id ↦
      let session : Session = record {
        id = id;
        checkable = is_true (session_exists id vendor.listed);
      } in
      (record s { session = some session; expired = false }, asked_session id ∷ [], none)
]

-- The part of `login` behind the attempts.
unfoldable pub tried :
    (Bytes → Bytes) → Vendor → State → Bytes → State × List VendorCall × Option LoginError
unfolding concluded locked salt_of
tried sha vendor s password = elim vendor.info [
  | failed error ↦ (s, asked_info ∷ [], some unavailable)
  | answered info ↦
      if locked info then (s, asked_info ∷ [], some rate_limited) else elim (salt_of info) [
        | none ↦ (s, asked_info ∷ [], some unavailable)
        | some salt ↦
            let response = sha (sha password ++ salt) in
            let (s', calls, error) = concluded vendor s (vendor.web_login response) in
            (s', asked_info ∷ sent_password response ∷ calls, error)
      ]
]

unfoldable pub recent : ℕ → List ℕ → List ℕ
recent now attempts = retain (λ attempt. ltb (now - attempt) attempt_window) attempts

-- `sha` gives the hexadecimal digits of the SHA-256 of its argument, in capitals. The second part of
-- the result are the calls of the vendor's services.
unfoldable pub login :
    (Bytes → Bytes) → Vendor → ℕ → State → Bytes → State × List VendorCall × Option LoginError
unfolding valid_password recent tried
login sha vendor now s password =
    let attempts = recent now s.attempts in
    if not (valid_password password)
    then (s, [], some invalid)
    else if leb max_attempts (length attempts)
    then (record s { attempts = attempts }, [], some rate_limited)
    else tried sha vendor (record s { attempts = attempts ++ (now ∷ []) }) password

unfoldable pub checked : Answer → State → Session → State × Option Bool
unfolding session_exists
checked listed s session =
    if not session.checkable then (s, none) else elim (session_exists session.id listed) [
      | none ↦ (s, none)
      | some true ↦ (s, some true)
      | some false ↦ (record s { session = none; expired = true }, some false)
    ]

unfoldable pub active : Answer → State → State × Option Bool
unfolding checked
active listed s =
    if s.expired
    then (s, some false)
    else elim s.session [ none ↦ (s, none) | some session ↦ checked listed s session ]

unfoldable pub has_expired : Answer → State → State × Bool
unfolding active
has_expired listed s =
    let (s', known) = active listed s in
    (s', elim known [ none ↦ false | some exists ↦ not exists ])
