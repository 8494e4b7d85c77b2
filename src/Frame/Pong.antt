-- ===== src/Frame/Pong.antt =====
-- mesh/frame.rs: the reply to a text ping.
use zwrt_datad.Prelude.{
  ◌≡◌, refl, sym, inl, inr, Bool, true, false, not, Option, none, some, Bool-cases, Option-cases,
  if◌then◌else◌,
}
use zwrt_datad.Prelude.Text.{Bytes, codes, text_eq}
use zwrt_datad.Json.{Value, number, string, object, entry, end, as_str, as_object, get}

abbrev is_number : Value → Bool
is_number (number n) = true
is_number _ = false

abbrev pub value_get : Bytes → Value → Option Value
value_get key value = elim (as_object value) [ none ↦ none | some fields ↦ get key fields ]

abbrev is_ping : Option Value → Bool
is_ping none = false
is_ping (some value) = elim (as_str value) [
  | none ↦ false
  | some text ↦ text_eq text (codes "ping")
]

-- The value whose text is sent back; `value` is what serde_json reads.
unfoldable pub pong_value : Value → Option Value
pong_value value =
    if not (is_ping (value_get (codes "t") value))
    then none
    else elim (value_get (codes "n") value) [
      | none ↦ none
      | some n ↦
          if is_number n
          then some (object (entry (codes "n") n (entry (codes "t") (string (codes "pong")) end)))
          else none
    ]

-- `from_str` and `to_string` are serde_json's.
unfoldable pub pong : (Bytes → Option Value) → (Value → Bytes) → Bytes → Option Bytes
unfolding pong_value
pong from_str to_string text = elim (from_str text) [
  | none ↦ none
  | some value ↦ elim (pong_value value) [ none ↦ none | some reply ↦ some (to_string reply) ]
]

-- A ping is answered with its own number, and the answer is no ping: two ends that answer each other
-- come to rest.
pub pong_value-pong_value :
    (value reply : Value)
    → pong_value value ≡ some reply
    → (value_get (codes "n") reply ≡ value_get (codes "n") value) × (pong_value reply ≡ none)
unfolding pong_value text_eq get as_object as_str
pong_value-pong_value value reply h =
    elim (Bool-cases (not (is_ping (value_get (codes "t") value)))) [
      | inl e ↦ absurd (cc (rw (pong_value, e) at h))
      | inr e ↦ elim (Option-cases (value_get (codes "n") value)) [
        | inl o ↦ absurd (cc (rw (pong_value, e, o) at h))
        | inr (n, o) ↦ elim (Bool-cases (is_number n)) [
          | inr i ↦ absurd (cc (rw (pong_value, e, o, i) at h))
          | inl i ↦
              let same : object
                    (entry (codes "n") n (entry (codes "t") (string (codes "pong")) end))
                  ≡ reply =
                cc (rw (pong_value, e, o, i) at h) in
              rw (← same) (sym o, refl)
        ]
      ]
    ]
