-- ===== src/Traffic/Table.antt =====
-- The table of days: what `put`, `remove` and the eviction do to its order and its entries.
use zwrt_datad.Prelude.{
  ℕ, suc, ◌≤◌, ◌<◌, ◌≡◌, ◌≢◌, refl, sym, subst, inl, inr, true, false, some, [], ◌∷◌, arith, length,
  All, Bool-cases,
}
use zwrt_datad.Prelude.Text.{Bytes, text_eq, text_eq_iff, text_lt}
use zwrt_datad.Schedule.LocalClock.{valid_date}
use zwrt_datad.Schedule.Dates.{day_number}
use zwrt_datad.Traffic.{Day, Days, lookup, put, within}
use zwrt_datad.Traffic.Dates.{lt-day_number, not_lt-day_number}

pub text_ne : (s t : Bytes) → s ≢ t → text_eq s t ≡ false
text_ne s t h = elim (Bool-cases (text_eq s t)) [
  | inl e ↦ absurd (h ((text_eq_iff s t).0 e))
  | inr e ↦ e
]

abbrev pub IsGood : Bytes × Day → Type 0
IsGood entry = (valid_date entry.0 ≡ true) × (within entry.1 ≡ true)

-- The days rise strictly, and lie behind the day of that number.
unfoldable pub Ascends : ℕ → Days → Type 0
Ascends n [] = Unit
Ascends n ((d, day) ∷ days) = (n < day_number d) × Ascends (day_number d) days

pub Ascends-weaken : (m n : ℕ) (days : Days) → m ≤ n → Ascends n days → Ascends m days
unfolding Ascends
Ascends-weaken m n [] l a = tt
Ascends-weaken m n ((d, day) ∷ days) l (h, a) = (omega arith, a)

pub lookup-put :
    (date : Bytes) (new : Day) (days : Days) → lookup date (put date new days) ≡ some new
unfolding lookup put
lookup-put date new [] = ground (arith, (text_eq_iff date date).1 refl)
lookup-put date new ((d, day) ∷ days) =
    ground (arith, (text_eq_iff date date).1 refl, lookup-put date new days)

pub lookup-put_other :
    (date other : Bytes) (new : Day) (days : Days)
    → text_eq date other ≡ false
    → lookup other (put date new days) ≡ lookup other days
unfolding lookup put
lookup-put_other date other new [] h = ground arith
lookup-put_other date other new ((d, day) ∷ days) h = elim (Bool-cases (text_eq d date)) [
  | inl e ↦
      let o : text_eq d other ≡ false = rw ((text_eq_iff d date).0 e) h in rw (put, lookup, e, o)
  | inr e ↦ ground (arith, lookup-put_other date other new days h)
]

pub put-All {κ} :
    (P : Bytes × Day → Type κ) (date : Bytes) (new : Day) (days : Days)
    → P (date, new)
    → All P days
    → All P (put date new days)
unfolding put
put-All P date new [] p a = (p, tt)
put-All P date new ((d, day) ∷ days) p (h, a) = elim (Bool-cases (text_eq d date)) [
  | inl e ↦ rw (put, e) (subst (λ t. P (t, new)) (sym ((text_eq_iff d date).0 e)) p, a)
  | inr e ↦ elim (Bool-cases (text_lt date d)) [
    | inl t ↦ rw (put, e, t) (p, (h, a))
    | inr t ↦ rw (put, e, t) (h, put-All P date new days p a)
  ]
]

pub put-Ascends :
    (n : ℕ) (date : Bytes) (new : Day) (days : Days)
    → valid_date date ≡ true
    → All IsGood days
    → n < day_number date
    → Ascends n days
    → Ascends n (put date new days)
unfolding put Ascends
put-Ascends n date new [] v g l a = (l, tt)
put-Ascends n date new ((d, day) ∷ days) v ((w, b), g) l (h, a) =
    elim (Bool-cases (text_eq d date)) [
      | inl e ↦ rw (put, e) (h, a)
      | inr e ↦ elim (Bool-cases (text_lt date d)) [
        | inl t ↦ rw (put, e, t) (l, (lt-day_number date d v w t, a))
        | inr t ↦
            rw (put, e, t)
              (h, put-Ascends (day_number d) date new days v g (not_lt-day_number d date w v e t) a)
      ]
    ]

pub length-put :
    (date : Bytes) (new : Day) (days : Days) → length (put date new days) ≤ suc (length days)
unfolding put
length-put date new [] = omega arith
length-put date new ((d, day) ∷ days) = ground (arith, length-put date new days)
