-- ===== src/Sessions/Table.antt =====
-- What the parts of `validate` and `issue` do to the table.
use zwrt_datad.Prelude.{
  ℕ, zero, suc, ◌+◌, ◌<◌, ◌≡◌, refl, true, some, List, [], ◌∷◌, arith, length, All, Bool-cases, inl,
  inr, Option-cases,
}
use zwrt_datad.Prelude.Text.{Bytes}
use zwrt_datad.Sessions.{Session, secure_eq, renew, earliest, oldest, remove}
use zwrt_datad.Sessions.Compare.{secure_eq_iff}

pub All-map {ℓ κ λ'} :
    {A : Type ℓ} (P : A → Type κ) (Q : A → Type λ') (xs : List A)
    → ((x : A) → P x → Q x)
    → All P xs
    → All Q xs
All-map P Q [] f a = tt
All-map P Q (x ∷ xs) f (h, a) = (f x h, All-map P Q xs f a)

pub All-renew :
    (P : Session → Type 0) (token : Bytes) (deadline : ℕ) (sessions : List Session)
    → ((s : Session) → s.token ≡ token → P (record s { deadline = deadline }))
    → All P sessions
    → All P (renew token deadline sessions).0
unfolding renew
All-renew P token deadline [] f a = tt
All-renew P token deadline (s ∷ sessions) f (h, a) = elim (Bool-cases (secure_eq s.token token)) [
  | inl e ↦ rw e (f s ((secure_eq_iff s.token token).0 e), a)
  | inr e ↦ rw e (h, All-renew P token deadline sessions f a)
]

pub length-renew :
    (token : Bytes) (deadline : ℕ) (sessions : List Session)
    → length (renew token deadline sessions).0 ≡ length sessions
unfolding renew
length-renew token deadline [] = refl
length-renew token deadline (s ∷ sessions) = ground (arith, length-renew token deadline sessions)

-- The session that `renew` finds.
pub renew-found :
    (P : Session → Type 0) (token : Bytes) (deadline : ℕ) (sessions : List Session)
    → (renew token deadline sessions).1 ≡ true
    → All P sessions
    → (s : Session) × (s.token ≡ token) × P s
unfolding renew
renew-found P token deadline [] h a = cc
renew-found P token deadline (s ∷ sessions) h (p, a) = elim (Bool-cases (secure_eq s.token token)) [
  | inl e ↦ (s, (secure_eq_iff s.token token).0 e, p)
  | inr e ↦ renew-found P token deadline sessions (ground (arith, e, h)) a
]

pub All-remove {κ} :
    (P : Session → Type κ) (i : ℕ) (sessions : List Session)
    → All P sessions
    → All P (remove i sessions)
unfolding remove
All-remove P i [] a = tt
All-remove P zero (s ∷ sessions) (h, a) = a
All-remove P (suc i) (s ∷ sessions) (h, a) = (h, All-remove P i sessions a)

pub length-remove :
    (i : ℕ) (sessions : List Session)
    → i < length sessions
    → length (remove i sessions) + 1 ≡ length sessions
unfolding remove
length-remove i [] l = absurd (omega arith)
length-remove zero (s ∷ sessions) l = omega arith
length-remove (suc i) (s ∷ sessions) l = omega (arith, length-remove i sessions (omega arith))

pub earliest_lt :
    (sessions : List Session) (p : ℕ × ℕ) → earliest sessions ≡ some p → p.0 < length sessions
unfolding earliest
earliest_lt [] p h = cc
earliest_lt (s ∷ sessions) p h = elim (Option-cases (earliest sessions)) [
  | inl e ↦ ground (arith, e, h)
  | inr (q, e) ↦ ground (arith, e, h, earliest_lt sessions q e)
]

pub oldest_lt : (sessions : List Session) → 0 < length sessions → oldest sessions < length sessions
unfolding oldest
oldest_lt sessions l = elim (Option-cases (earliest sessions)) [
  | inl e ↦ rw (oldest, e) l
  | inr (q, e) ↦ rw (oldest, e) (earliest_lt sessions q e)
]
