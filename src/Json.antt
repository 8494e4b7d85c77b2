-- ===== src/Json.antt =====
-- JSON values as serde_json holds them, and the accessors of its `Value` that the code calls. A map is
-- the list of its fields in key order, as `serde_json::Map` is a `BTreeMap`.
use zwrt_datad.Prelude.{
  ℕ, ◌^◌, suc, Bool, true, false, Option, none, some, ltb, ◌==◌, ◌&&◌, ◌||◌, if◌then◌else◌, not,
}
use zwrt_datad.Prelude.Int.{ℤ, pos, negsuc}
use zwrt_datad.Prelude.Text.{Bytes, text_eq}

-- `serde_json::Number`: a `u64`, -(n + 1) for a negative `i64`, or the bits of a finite `f64`.
pub data Number : Type 0 where
  pos_int neg_int float : ℕ → Number

mutual
  pub data Value : Type 0 where
    null : Value
    bool : Bool → Value
    number : Number → Value
    string : Bytes → Value
    array : Items → Value
    object : Fields → Value

  pub data Items : Type 0 where
    nil : Items
    cons : Value → Items → Items

  pub data Fields : Type 0 where
    end : Fields
    entry : Bytes → Value → Fields → Fields

unfoldable pub as_str : Value → Option Bytes
as_str (string text) = some text
as_str _ = none

unfoldable pub as_bool : Value → Option Bool
as_bool (bool flag) = some flag
as_bool _ = none

unfoldable pub as_object : Value → Option Fields
as_object (object fields) = some fields
as_object _ = none

number_i64 : Number → Option ℤ
number_i64 (pos_int n) = if ltb n (2 ^ 63) then some (pos n) else none
number_i64 (neg_int n) = some (negsuc n)
number_i64 (float bits) = none

unfoldable pub as_i64 : Value → Option ℤ
unfolding number_i64
as_i64 (number n) = number_i64 n
as_i64 _ = none

unfoldable pub as_u64 : Value → Option ℕ
as_u64 (number (pos_int n)) = some n
as_u64 _ = none

-- `Map::len` and `Map::get`
unfoldable pub size : Fields → ℕ
size end = 0
size (entry name value fields) = suc (size fields)

unfoldable pub get : Bytes → Fields → Option Value
get key end = none
get key (entry name value fields) = if text_eq name key then some value else get key fields

bool_eq : Bool → Bool → Bool
bool_eq true b = b
bool_eq false b = not b

is_zero : ℕ → Bool
is_zero bits = bits == 0 || bits == 2 ^ 63

-- `==` on numbers: two floats with different bits are equal if both are zeros.
number_eq : Number → Number → Bool
unfolding is_zero
number_eq (pos_int m) (pos_int n) = m == n
number_eq (neg_int m) (neg_int n) = m == n
number_eq (float a) (float b) = a == b || (is_zero a && is_zero b)
number_eq _ _ = false

-- `==` on values
unfoldable mutual
  unfolding bool_eq number_eq

  pub value_eq : Value → Value → Bool
  value_eq null null = true
  value_eq (bool a) (bool b) = bool_eq a b
  value_eq (number a) (number b) = number_eq a b
  value_eq (string a) (string b) = text_eq a b
  value_eq (array a) (array b) = items_eq a b
  value_eq (object a) (object b) = fields_eq a b
  value_eq _ _ = false

  pub items_eq : Items → Items → Bool
  items_eq nil nil = true
  items_eq (cons a as') (cons b bs) = value_eq a b && items_eq as' bs
  items_eq _ _ = false

  pub fields_eq : Fields → Fields → Bool
  fields_eq end end = true
  fields_eq (entry k a as') (entry l b bs) = text_eq k l && value_eq a b && fields_eq as' bs
  fields_eq _ _ = false
