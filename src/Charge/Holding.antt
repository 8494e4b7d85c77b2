-- ===== src/Charge/Holding.antt =====
-- When a hold is running.
use zwrt_datad.Prelude.{
  ℕ, ◌≤◌, ◌≡◌, refl, ap, true, false, Option, none, some, ◌⊎◌, inl, inr, arith, Bool-cases,
  Option-cases,
}
use zwrt_datad.Prelude.Int.{ℤ, pos, negsuc}
use zwrt_datad.Prelude.Text.{codes}
use zwrt_datad.Prelude.Utf8.{chars, trim}
use zwrt_datad.Json.{Value, null, bool, array, object, number, string, as_i64}
use zwrt_datad.Device.{Answer, answered, failed, value_field, parse_i64}
use zwrt_datad.Charge.{Kernel, int_eq, reported_mode, is_long, holding}

pub int_eq-true : (a b : ℤ) → int_eq a b ≡ true → a ≡ b
unfolding int_eq
int_eq-true (pos a) (pos b) h = ap pos (ground (arith, h))
int_eq-true (negsuc a) (negsuc b) h = ap negsuc (ground (arith, h))
int_eq-true (pos a) (negsuc b) h = cc h
int_eq-true (negsuc a) (pos b) h = cc h

int_eq-same : (a : ℤ) → int_eq a a ≡ true
unfolding int_eq
int_eq-same (pos a) = ground arith
int_eq-same (negsuc a) = ground arith

pub int_eq-false : (a b : ℤ) → int_eq a b ≡ false → ¬ (a ≡ b)
int_eq-false a b h e = cc (int_eq-same b, rw e at h)

-- A text or a number that says `mode`.
abbrev pub Says : Value → ℕ → Type 0
Says (string text) mode = parse_i64 (trim (chars text)) ≡ some (pos mode)
Says (number n) mode = as_i64 (number n) ≡ some (pos mode)
Says _ mode = ⊥

-- The stock services answer an object whose `bat_mode` is a mode of 2 or more.
pub record IsReported (info : Answer) : Type 0 where
  pub value : Value
  pub reported : Value
  pub mode : ℕ
  pub is_answer : info ≡ answered value
  pub is_field : value_field (codes "bat_mode") value ≡ some reported
  pub says : Says reported mode
  pub long : 2 ≤ mode

-- The driver is in mode 2, or the stock services report a mode of 2 or more.
abbrev pub IsHolding : Answer → Kernel → Type 0
IsHolding info kernel = (kernel.mode ≡ pos 2) ⊎ IsReported info

is_long-some : (o : Option ℤ) → is_long o ≡ true → (mode : ℕ) × (o ≡ some (pos mode)) × (2 ≤ mode)
is_long-some none h = absurd (cc h)
is_long-some (some (negsuc n)) h = absurd (cc h)
is_long-some (some (pos n)) h = (n, refl, ground (arith, h))

field-Says :
    (field : Value)
    → is_long (reported_mode (some field)) ≡ true
    → (mode : ℕ) × Says field mode × (2 ≤ mode)
unfolding reported_mode
field-Says (string text) h = is_long-some (parse_i64 (trim (chars text))) h
field-Says (number n) h = is_long-some (as_i64 (number n)) h
field-Says null h = absurd (cc h)
field-Says (bool b) h = absurd (cc h)
field-Says (array items) h = absurd (cc h)
field-Says (object fields) h = absurd (cc h)

Says-field :
    (field : Value) (mode : ℕ)
    → Says field mode
    → 2 ≤ mode
    → is_long (reported_mode (some field)) ≡ true
unfolding reported_mode
Says-field (string text) mode s l = rw s (ground arith)
Says-field (number n) mode s l = rw s (ground arith)
Says-field null mode s l = absurd s
Says-field (bool b) mode s l = absurd s
Says-field (array items) mode s l = absurd s
Says-field (object fields) mode s l = absurd s

answered-IsReported :
    (value : Value)
    → is_long (reported_mode (value_field (codes "bat_mode") value)) ≡ true
    → IsReported (answered value)
unfolding reported_mode
answered-IsReported value h = elim (Option-cases (value_field (codes "bat_mode") value)) [
  | inl e ↦ absurd (cc (rw e at h))
  | inr (field, e) ↦
      let (mode, s, l) = field-Says field (rw e at h) in
      record {
        value = value;
        reported = field;
        mode = mode;
        is_answer = refl;
        is_field = e;
        says = s;
        long = l;
      }
]

pub holding-IsHolding :
    (info : Answer) (kernel : Kernel) → holding info kernel ≡ true → IsHolding info kernel
unfolding holding
holding-IsHolding info kernel h = elim (Bool-cases (int_eq kernel.mode (pos 2))) [
  | inl e ↦ inl (int_eq-true kernel.mode (pos 2) e)
  | inr e ↦ inr (told info (rw (holding, e) at h))
]
  where
    told :
        (info : Answer)
        → (elim info [
          | answered value ↦ is_long (reported_mode (value_field (codes "bat_mode") value))
          | failed error ↦ false
        ])
          ≡ true
        → IsReported info
    told (answered value) h = answered-IsReported value h
    told (failed error) h = absurd (cc h)

IsHolding-holding :
    (info : Answer) (kernel : Kernel) → IsHolding info kernel → holding info kernel ≡ true
unfolding holding
IsHolding-holding info kernel (inl e) = rw (holding, e, int_eq-same (pos 2)) refl
IsHolding-holding info kernel (inr r) =
    let long = Says-field r.reported r.mode r.says r.long in
    rw (holding, r.is_answer, r.is_field, long) (ground arith)

pub holding-false :
    (info : Answer) (kernel : Kernel) → holding info kernel ≡ false → ¬ (IsHolding info kernel)
holding-false info kernel h i = cc (h, IsHolding-holding info kernel i)
