-- ===== src/Traffic/Eviction.antt =====
-- The table of days: what the eviction of old days does.
use zwrt_datad.Prelude.{
  ℕ, zero, suc, ◌+◌, ◌≤◌, ◌<◌, ◌≡◌, refl, sym, ap, subst, ◌∙◌, ◌⊎◌, inl, inr, Bool, false, not,
  none, some, [], ◌∷◌, ltb, arith, length, retain, All, All-retain, length-retain, Bool-cases,
  Option-cases,
}
use zwrt_datad.Prelude.Text.{Bytes, text_eq, text_eq_iff}
use zwrt_datad.Schedule.Dates.{day_number}
use zwrt_datad.Traffic.{Day, Days, max_days, lookup, remove, oldest, evict}
use zwrt_datad.Traffic.Table.{Ascends, Ascends-weaken}

Ascends-retain :
    (p : Bytes × Day → Bool) (n : ℕ) (days : Days) → Ascends n days → Ascends n (retain p days)
unfolding Ascends
Ascends-retain p n [] a = tt
Ascends-retain p n ((d, day) ∷ days) (h, a) = elim (Bool-cases (p (d, day))) [
  | inl e ↦ rw e (h, Ascends-retain p (day_number d) days a)
  | inr e ↦ rw e (
      Ascends-weaken n (day_number d) (retain p days) (omega arith)
        (Ascends-retain p (day_number d) days a))
]

lookup-remove_other :
    (date other : Bytes) (days : Days)
    → text_eq date other ≡ false
    → lookup other (remove date days) ≡ lookup other days
unfolding lookup
lookup-remove_other date other [] h = refl
lookup-remove_other date other ((d, day) ∷ days) h = elim (Bool-cases (text_eq d date)) [
  | inl e ↦
      let o : text_eq d other ≡ false = rw ((text_eq_iff d date).0 e) h in
      ground (arith, e, o, lookup-remove_other date other days h)
  | inr e ↦ ground (arith, e, lookup-remove_other date other days h)
]

lookup-remove : (date : Bytes) (days : Days) → lookup date (remove date days) ≡ none
unfolding lookup
lookup-remove date [] = refl
lookup-remove date ((d, day) ∷ days) = ground (arith, lookup-remove date days)

oldest-some :
    (active d : Bytes) (days : Days)
    → oldest active days ≡ some d
    → (text_eq d active ≡ false) × (length (remove d days) < length days)
unfolding oldest
oldest-some active d [] h = cc
oldest-some active d ((b, day) ∷ days) h = elim (Bool-cases (text_eq b active)) [
  | inl e ↦ let (o, l) = oldest-some active d days (rw (oldest, e) at h) in (o, ground (arith, l))
  | inr e ↦
      let same : b ≡ d = cc (rw (oldest, e) at h) in
      (
        rw (← same) e,
        ground (
          arith,
          (text_eq_iff b d).1 same,
          length-retain (λ (entry : Bytes × Day). not (text_eq entry.0 d)) days,
        ),
      )
]

-- Of two days, one is not the active one.
oldest-none :
    (n : ℕ) (active : Bytes) (days : Days)
    → Ascends n days
    → oldest active days ≡ none
    → length days ≤ 1
unfolding oldest Ascends
oldest-none n active [] a h = omega arith
oldest-none n active (x ∷ []) a h = omega arith
oldest-none n active ((b, day) ∷ (c, day') ∷ days) (l, (k, a)) h =
    elim (Bool-cases (text_eq b active)) [
      | inl e ↦ elim (Bool-cases (text_eq c active)) [
        | inl f ↦
            let same : b ≡ c = (text_eq_iff b active).0 e ∙ sym ((text_eq_iff c active).0 f) in
            absurd (omega (arith, ap day_number same))
        | inr f ↦ absurd (ground arith)
      ]
      | inr e ↦ absurd (ground arith)
    ]

-- What the loop keeps when a step keeps it.
evict_ind {κ} :
    (P : Days → Type κ) (fuel : ℕ) (active : Bytes) (days : Days)
    → ((d : Bytes) (days : Days) → text_eq d active ≡ false → P days → P (remove d days))
    → P days
    → P (evict fuel active days)
unfolding evict
evict_ind P zero active days step p = p
evict_ind P (suc fuel) active days step p = elim (Option-cases (oldest active days)) [
  | inl e ↦ rw (evict, e) p
  | inr (d, e) ↦
      let (o, l) = oldest-some active d days e in
      elim (Bool-cases (ltb max_days (length days))) [
        | inl t ↦ rw (evict, e, t) (evict_ind P fuel active (remove d days) step (step d days o p))
        | inr t ↦ rw (evict, e, t) p
      ]
]

pub evict-Ascends :
    (fuel n : ℕ) (active : Bytes) (days : Days)
    → Ascends n days
    → Ascends n (evict fuel active days)
evict-Ascends fuel n active days a =
    evict_ind (Ascends n) fuel active days (λ d ds o. Ascends-retain _ n ds) a

pub evict-All {κ} :
    (P : Bytes × Day → Type κ) (fuel : ℕ) (active : Bytes) (days : Days)
    → All P days
    → All P (evict fuel active days)
evict-All P fuel active days a = evict_ind (All P) fuel active days (λ d ds o. All-retain P _ ds) a

pub lookup-evict :
    (fuel : ℕ) (active : Bytes) (days : Days)
    → lookup active (evict fuel active days) ≡ lookup active days
lookup-evict fuel active days =
    evict_ind (λ ds. lookup active ds ≡ lookup active days) fuel active days
      (λ d ds o h. lookup-remove_other d active ds o ∙ h) refl

-- The other days keep their totals or go.
pub lookup-evict_other :
    (fuel : ℕ) (active other : Bytes) (days : Days)
    → (lookup other (evict fuel active days) ≡ lookup other days)
      ⊎ (lookup other (evict fuel active days) ≡ none)
lookup-evict_other fuel active other days =
    evict_ind (λ ds. (lookup other ds ≡ lookup other days) ⊎ (lookup other ds ≡ none)) fuel active
      days
      (λ d ds o h. elim (Bool-cases (text_eq d other)) [
        | inl e ↦ inr (
            subst (λ t. lookup t (remove d ds) ≡ none) ((text_eq_iff d other).0 e)
              (lookup-remove d ds))
        | inr e ↦ elim h [
          | inl k ↦ inl (lookup-remove_other d other ds e ∙ k)
          | inr k ↦ inr (lookup-remove_other d other ds e ∙ k)
        ]
      ])
      (inl refl)

-- As many rounds as days are enough.
pub length-evict :
    (fuel n : ℕ) (active : Bytes) (days : Days)
    → Ascends n days
    → length days ≤ fuel + max_days
    → length (evict fuel active days) ≤ max_days
unfolding evict
length-evict zero n active days a l = omega arith
length-evict (suc fuel) n active days a l = elim (Option-cases (oldest active days)) [
  | inl e ↦ rw (evict, e) (omega (arith, oldest-none n active days a e))
  | inr (d, e) ↦
      let (o, k) = oldest-some active d days e in
      elim (Bool-cases (ltb max_days (length days))) [
        | inl t ↦
            rw (evict, e, t)
              (length-evict fuel n active (remove d days) (Ascends-retain _ n days a) (omega arith))
        | inr t ↦ rw (evict, e, t) (ground arith)
      ]
]
