-- ===== src/Ubus/Result.antt =====
-- What decoding returns. `stuck` is no value of the program: a loop of the model ran out of fuel.
use zwrt_datad.Prelude.{◌≡◌, refl}

-- The messages of `parse_attrs` and `field`.
pub data Error : Type 0 where
  truncated_attribute malformed_length malformed_field malformed_name : Error
  bad_size nested_too_deep unknown_type : Error

pub data Result {ℓ} (V : Type ℓ) : Type ℓ where
  stuck : Result V
  err : Error → Result V
  ok : V → Result V

-- The `?` of the source.
infixl 5 ◌>>=◌
abbrev pub ◌>>=◌ {ℓ κ} : {V : Type ℓ} {W : Type κ} → Result V → (V → Result W) → Result W
stuck >>= next = stuck
err e >>= next = err e
ok v >>= next = next v

-- A chain that succeeds succeeded in its first step, and went on from there.
pub ok_of_bind {ℓ κ} :
    {V : Type ℓ} {W : Type κ} (first : Result V) (next : V → Result W) {w : W}
    → (first >>= next) ≡ ok w
    → (v : V) × (first ≡ ok v) × (next v ≡ ok w)
ok_of_bind stuck next h = cc
ok_of_bind (err e) next h = cc
ok_of_bind (ok v) next h = (v, refl, h)
