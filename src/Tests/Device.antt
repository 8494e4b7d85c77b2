-- ===== src/Tests/Device.antt =====
-- The vendor session at concrete inputs.
use zwrt_datad.Prelude.{ℕ, ◌*◌, ◌≡◌, refl, true, false, none, some, List, [], ◌∷◌, arith}
use zwrt_datad.Prelude.Text.{Bytes, codes, text_eq, starts_with, contains, is_digit}
use zwrt_datad.Prelude.Utf8.{chars, trim, is_whitespace}
use zwrt_datad.Json.{
  object, entry, end, string, number, pos_int, as_object, as_i64, as_str, get, size,
}
use zwrt_datad.Tasks.Params.{decimal_value}
use zwrt_datad.Route.{is_alphanumeric}
use zwrt_datad.Device.{
  Vendor, Answer, answered, failed, initial, login, active, checked, concluded, tried, recent,
  valid_password, password_param, parse_i64, text_or_number, value_field, text_field, number_field,
  locked, id_valid, session_id, contains_text, session_exists, salt_of, accepted_id, refusal,
  has_expired,
}
use zwrt_datad.Device.Trace.{Sample, logged_in, step, run, login_calls, vendor_calls}
use zwrt_datad.Device.Attempts.{ArePaced}
use zwrt_datad.Device.Paced.{logins-ArePaced}
use zwrt_datad.Device.Opened.{Opens, login-Opens, succeeds, has_succeeded, active-unknown}

-- A stand-in for SHA-256.
abbrev digest : Bytes → Bytes
digest text = codes "0123"

abbrev session : Answer
session = answered (
    object (
      entry (codes "result") (string (codes " 0 "))
        (entry (codes "ubus_rpc_session") (string (codes "abcdef0123456789")) end)))

abbrev router : Vendor
router = record {
  info = answered (
      object (
        entry (codes "login_fail_lock_lefttime") (string (codes "-1"))
          (entry (codes "zte_web_sault") (string (codes "salt")) end)));
  web_login = λ response. session;
  info_after = failed (codes "timeout");
  listed = session;
}

abbrev wrong : Vendor
wrong = record router {
  web_login = λ response. answered (object (entry (codes "result") (number (pos_int 3)) end));
}

abbrev at : ℕ → Vendor → Sample
at seconds vendor = record { now = seconds * 1000000000; event = logged_in vendor (codes "secret") }

-- The fourth comes too early.
abbrev guesses : List Sample
guesses = at 10 wrong ∷ at 20 wrong ∷ at 30 wrong ∷ at 69 wrong ∷ at 70 wrong ∷ []

guesses_made :
    vendor_calls digest initial guesses ≡ 10000000000 ∷ 20000000000 ∷ 30000000000 ∷ 70000000000 ∷ []
unfolding vendor_calls login_calls step login recent tried concluded valid_password contains locked
    number_field value_field text_or_number parse_i64 as_object as_i64 get text_eq salt_of
    text_field as_str accepted_id session_id refusal chars trim is_whitespace decimal_value is_digit
guesses_made = refl

opened : (login digest router 5 initial (codes "secret")).2 ≡ none
unfolding login recent tried concluded valid_password contains locked number_field value_field
    text_or_number parse_i64 as_object as_i64 get text_eq salt_of text_field as_str accepted_id
    session_id refusal chars trim is_whitespace decimal_value is_digit id_valid is_alphanumeric
    session_exists
opened = refl

-- The session that was opened is gone.
gone :
    (has_expired
      (failed (codes "exit status: 252"))
      (login digest router 5 initial (codes "secret")).0).1
    ≡ true
unfolding has_expired active checked contains_text starts_with login recent tried concluded
    valid_password contains locked number_field value_field text_or_number parse_i64 as_object
    as_i64 get text_eq salt_of text_field as_str accepted_id session_id refusal chars trim
    is_whitespace decimal_value is_digit id_valid is_alphanumeric session_exists
gone = refl

only_password :
    password_param (object (entry (codes "password") (string (codes "secret")) end))
    ≡ some (codes "secret")
unfolding password_param as_object size text_field value_field get text_eq as_str
only_password = refl

logins-ArePaced_example : ArePaced (vendor_calls digest initial guesses)
logins-ArePaced_example =
    logins-ArePaced digest guesses
      (omega arith, (omega arith, (omega arith, (omega arith, (omega arith, tt)))))

login-Opens_example : Opens initial (login digest router 5 initial (codes "secret"))
login-Opens_example = login-Opens digest router 5 initial (codes "secret")

none_succeeded : has_succeeded digest initial guesses ≡ false
unfolding has_succeeded succeeds step login recent tried concluded valid_password contains locked
    number_field value_field text_or_number parse_i64 as_object as_i64 get text_eq salt_of
    text_field as_str accepted_id session_id refusal chars trim is_whitespace decimal_value is_digit
none_succeeded = refl

active-unknown_example : (active session (run digest initial guesses)).1 ≡ none
active-unknown_example = active-unknown digest guesses session none_succeeded
