-- ===== src/Ubus/Json/Plain.antt =====
-- The JSON values that survive the way to ubusd and back.
use zwrt_datad.Prelude.{ℕ, suc, ◌<◌, ◌^◌, max, ◌≡◌, false, length}
use zwrt_datad.Prelude.Text.{Bytes, text_eq, text_lt}
use zwrt_datad.Ubus.Json.{
  Value, Items, Fields, null, bool, number, string, array, object, nil, cons, end, entry, until_nul,
}
use zwrt_datad.Ubus.Json.Opening.{IsExact}

-- Every key behind `name` is another and not a smaller one.
abbrev pub IsAhead : Bytes → Fields → Type 0
IsAhead name end = Unit
IsAhead name (entry k v fields) =
    (text_eq k name ≡ false) × (text_lt k name ≡ false) × IsAhead name fields

abbrev pub IsKeyOrdered : Fields → Type 0
IsKeyOrdered end = Unit
IsKeyOrdered (entry name v fields) = IsAhead name fields × IsKeyOrdered fields

module _ (lossy : Bytes → Bytes) where
  -- Text that a reader gets back whole: valid UTF-8, with no NUL.
  abbrev pub IsText : Bytes → Type 0
  IsText t = (lossy t ≡ t) × (until_nul t ≡ t)

  -- Numbers that are exact, strings that are text, names that are valid UTF-8 below 64 KiB, and maps
  -- with their keys in order.
  abbrev mutual
    pub IsPlain : Value → Type 0
    IsPlain null = Unit
    IsPlain (bool flag) = Unit
    IsPlain (number n) = IsExact n
    IsPlain (string t) = IsText t
    IsPlain (array items) = ArePlain items
    IsPlain (object fields) = IsKeyOrdered fields × HasPlain fields

    pub ArePlain : Items → Type 0
    ArePlain nil = Unit
    ArePlain (cons v items) = IsPlain v × ArePlain items

    pub HasPlain : Fields → Type 0
    HasPlain end = Unit
    HasPlain (entry name v fields) =
        (length name < 2 ^ 16) × (lossy name ≡ name) × IsPlain v × HasPlain fields

-- How deep arrays and objects are nested.
abbrev mutual
  pub depth : Value → ℕ
  depth (array items) = suc (depth_items items)
  depth (object fields) = suc (depth_fields fields)
  depth null = 0
  depth (bool flag) = 0
  depth (number n) = 0
  depth (string t) = 0

  pub depth_items : Items → ℕ
  depth_items nil = 0
  depth_items (cons v items) = max (depth v) (depth_items items)

  pub depth_fields : Fields → ℕ
  depth_fields end = 0
  depth_fields (entry name v fields) = max (depth v) (depth_fields fields)
