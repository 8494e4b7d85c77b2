-- ===== src/Tests/Ubus.antt =====
-- The ubus client at concrete inputs.
use zwrt_datad.Prelude.{◌≤◌, ◌≡◌, ◌⊎◌, refl, true, false, List, [], ◌∷◌, ◌++◌, arith}
use zwrt_datad.Prelude.Text.{codes, text_eq, text_lt}
use zwrt_datad.Prelude.Words.{from_be32}
use zwrt_datad.Ubus.Result.{Error, ok, err, malformed_length, ◌>>=◌}
use zwrt_datad.Ubus.Blob.{Attr, parse_attrs, put_attr, put_string}
use zwrt_datad.Ubus.Blob.Total.{occupied, parse_attrs_total}
use zwrt_datad.Ubus.Blob.RoundTrip.{parse_attrs-put_attr}
use zwrt_datad.Ubus.Json.{
  Fields, number, neg_int, bool, string, array, object, nil, cons, end, entry, table, object_value,
  until_nul,
}
use zwrt_datad.Ubus.Json.Plain.{HasPlain}
use zwrt_datad.Ubus.Json.RoundTrip.{object_value-table}

parse_attrs-put_attr_example : parse_attrs (put_attr 3 true (1 ∷ 2 ∷ []) ++ put_attr 4 false []) ≡ (
    parse_attrs (put_attr 4 false []) >>= λ out.
    ok (record { id = 3; extended = true; content = 1 ∷ 2 ∷ [] } ∷ out))
parse_attrs-put_attr_example =
    parse_attrs-put_attr 3 true (1 ∷ 2 ∷ []) (put_attr 4 false []) (omega arith) (omega arith)

overlong_attr : parse_attrs (0 ∷ 0 ∷ 0 ∷ 9 ∷ 1 ∷ []) ≡ err malformed_length
unfolding parse_attrs from_be32
overlong_attr = refl

name_attr : put_string 4 (codes "ok") ≡ 4 ∷ 0 ∷ 0 ∷ 7 ∷ b'o' ∷ b'k' ∷ 0 ∷ 0 ∷ []
unfolding put_string put_attr
name_attr = refl

abbrev sample : Fields
sample =
    entry (codes "a") (number (neg_int 4))
      (entry (codes "b") (array (cons (bool true) (cons (string (codes "x")) nil))) end)

sample-HasPlain : HasPlain (λ t. t) sample
unfolding until_nul
sample-HasPlain =
    (omega arith, refl, omega arith, (omega arith, refl, (tt, ((refl, refl), tt)), tt))

object_value-table_example : object_value (λ t. t) (table sample) ≡ ok (object sample)
unfolding table text_eq text_lt put_attr
object_value-table_example =
    object_value-table (λ t. t) sample refl sample-HasPlain ((refl, refl, tt), (tt, tt))
      (omega arith) (omega arith)

parse_attrs_total_example :
    ((attrs : List Attr) × (parse_attrs (0 ∷ 0 ∷ 0 ∷ 5 ∷ 1 ∷ []) ≡ ok attrs) × (occupied attrs ≤ 5))
    ⊎ ((e : Error) × (parse_attrs (0 ∷ 0 ∷ 0 ∷ 5 ∷ 1 ∷ []) ≡ err e))
parse_attrs_total_example = parse_attrs_total (0 ∷ 0 ∷ 0 ∷ 5 ∷ 1 ∷ [])
