-- ===== src/Traffic/Counted.antt =====
-- What one sample does to the history.
use zwrt_datad.Prelude.{
  ℕ, ◌+◌, ◌≤◌, ◌≡◌, refl, ap, ◌∙◌, ◌⊎◌, inl, inr, true, false, ◌||◌, none, some, [], ◌∷◌, ltb,
  arith, length, All, Bool-cases, Option-cases, ltb→lt,
}
use zwrt_datad.Prelude.Int.{pos}
use zwrt_datad.Prelude.Words.{saturating_add_u64}
use zwrt_datad.Prelude.Text.{Bytes, text_eq, text_eq_iff, text_lt}
use zwrt_datad.Schedule.LocalClock.{valid_date}
use zwrt_datad.Schedule.Dates.{day_number}
use zwrt_datad.Schedule.Once.{day_number-positive}
use zwrt_datad.Traffic.{
  Day, Days, Stored, History, max_daily_bytes, max_days, lookup, put, refused, unchanged, increment,
  evict, day_or_new, counted, apply_sample,
}
use zwrt_datad.Traffic.Dates.{lt-day_number}
use zwrt_datad.Traffic.Table.{IsGood, Ascends, lookup-put, lookup-put_other, put-All, put-Ascends}
use zwrt_datad.Traffic.Eviction.{
  evict-Ascends, evict-All, lookup-evict, lookup-evict_other, length-evict,
}

-- At most `max_days` days, in order and within the limits, and the active day is one of them.
pub record IsHistory (s : Stored) : Type 0 where
  pub schema_one : s.schema ≡ 1
  pub days_good : All IsGood s.days
  pub ascending : Ascends 0 s.days
  pub at_most : length s.days ≤ max_days
  pub active_held :
      (s.active_day ≡ none)
      ⊎ ((date : Bytes) × (s.active_day ≡ some date)
          × (valid_date date ≡ true)
          × ((day : Day) × (lookup date s.days ≡ some day)))

-- The sample is on its day: the day's total grew by the increment, every other day is as it was or
-- was evicted, and the day is the active one.
pub record IsCounted (h : History) (date : Bytes) (now counter : ℕ) (h' : History) : Type 0 where
  pub on_day :
      lookup date h'.stored.days
      ≡ some (record {
        bytes = (day_or_new (lookup date h.stored.days)).bytes + increment h date counter;
        last_counter = counter;
      })
  pub others :
      (other : Bytes)
      → (text_eq date other ≡ true)
        ⊎ ((lookup other h'.stored.days ≡ lookup other h.stored.days)
            ⊎ (lookup other h'.stored.days ≡ none))
  pub active_now : h'.stored.active_day ≡ some date
  pub sampled_at : h'.stored.last_sample_at ≡ pos now
  pub no_relabel : h'.allow_relabel ≡ false
  pub path_kept : h'.path ≡ h.path

pub increment-le : (h : History) (date : Bytes) (counter : ℕ) → increment h date counter ≤ counter
unfolding increment
increment-le h date counter = ground arith

lookup-below :
    (n : ℕ) (date : Bytes) (days : Days)
    → Ascends n days
    → day_number date ≤ n
    → lookup date days ≡ none
unfolding lookup Ascends
lookup-below n date [] a l = refl
lookup-below n date ((d, day) ∷ days) (h, a) l = elim (Bool-cases (text_eq d date)) [
  | inl e ↦ absurd (omega (arith, ap day_number ((text_eq_iff d date).0 e)))
  | inr e ↦ rw (lookup, e) (lookup-below (day_number d) date days a (omega arith))
]

put-lookup :
    (n : ℕ) (date : Bytes) (day : Day) (days : Days)
    → valid_date date ≡ true
    → All IsGood days
    → Ascends n days
    → lookup date days ≡ some day
    → put date day days ≡ days
unfolding lookup put Ascends
put-lookup n date day [] v g a h = cc
put-lookup n date day ((d, x) ∷ days) v ((w, b), g) (l, a) h = elim (Bool-cases (text_eq d date)) [
  | inl e ↦ rw (put, e) (ap (λ y. (d, y) ∷ days) (cc (rw (lookup, e) at h)))
  | inr e ↦
      let k = rw (lookup, e) at h in
      elim (Bool-cases (text_lt date d)) [
        | inl t ↦
            let below = lt-day_number date d v w t in
            absurd (cc (k, lookup-below (day_number d) date days a (omega arith)))
        | inr t ↦
            rw (put, e, t)
              (ap (λ ds. (d, x) ∷ ds) (put-lookup (day_number d) date day days v g a k))
      ]
]

lookup-within :
    (date : Bytes) (days : Days)
    → All IsGood days
    → (day_or_new (lookup date days)).bytes ≤ max_daily_bytes
unfolding lookup
lookup-within date [] g = omega arith
lookup-within date ((d, x) ∷ days) ((w, b), g) = ground (arith, lookup-within date days g)

not_refused :
    (h : History) (date : Bytes) (now counter : ℕ)
    → refused h date now counter ≡ false
    → (valid_date date ≡ true) × (counter ≤ max_daily_bytes)
unfolding refused
not_refused h date now counter r = ground arith

module _ (h : History) (date : Bytes) (now counter : ℕ) where
  abbrev next_bytes : ℕ
  next_bytes =
      saturating_add_u64 (day_or_new (lookup date h.stored.days)).bytes (increment h date counter)

  abbrev new_day : Day
  new_day = record { bytes = next_bytes; last_counter = counter }

  abbrev new_days : Days
  new_days = let days = put date new_day h.stored.days in evict (length days) date days

  -- Nothing saturates within the limits.
  next_bytes_lem :
      IsHistory h.stored
      → counter ≤ max_daily_bytes
      → next_bytes ≡ (day_or_new (lookup date h.stored.days)).bytes + increment h date counter
  next_bytes_lem i c =
      omega (arith, lookup-within date h.stored.days i.days_good, increment-le h date counter)

  -- An entry that `or_insert` makes is never refused for its total.
  over_limit :
      IsHistory h.stored
      → counter ≤ max_daily_bytes
      → ltb max_daily_bytes next_bytes ≡ true
      → (day : Day) × (lookup date h.stored.days ≡ some day)
  over_limit i c o = elim (Option-cases (lookup date h.stored.days)) [
    | inl e ↦
        let none_yet : (day_or_new (lookup date h.stored.days)).bytes ≡ 0 = rw e in
        absurd (
          omega (
            arith,
            next_bytes_lem i c,
            none_yet,
            increment-le h date counter,
            ltb→lt max_daily_bytes next_bytes o,
          ))
    | inr k ↦ k
  ]

  counted_over :
      IsHistory h.stored
      → valid_date date ≡ true
      → counter ≤ max_daily_bytes
      → ltb max_daily_bytes next_bytes ≡ true
      → counted h date now counter ≡ (h, false)
  unfolding counted
  counted_over i v c o =
      let (day, e) = over_limit i c o in
      let same : put date day h.stored.days ≡ h.stored.days =
        put-lookup 0 date day h.stored.days v i.days_good i.ascending e in
      rw (counted, o, e, same)

  counted-IsCounted :
      IsHistory h.stored
      → counter ≤ max_daily_bytes
      → ltb max_daily_bytes next_bytes ≡ false
      → (IsCounted h date now counter (counted h date now counter).0)
        × ((counted h date now counter).1 ≡ true)
  unfolding counted
  counted-IsCounted i c o =
      let days = put date new_day h.stored.days in
      rw (counted, o)
        (
          record {
            on_day =
                lookup-evict (length days) date days
                ∙ lookup-put date new_day h.stored.days
                ∙ ap (λ n. some (record { bytes = n; last_counter = counter }))
                    (next_bytes_lem i c);
            others = λ other. elim (Bool-cases (text_eq date other)) [
              | inl e ↦ inl e
              | inr e ↦ elim (lookup-evict_other (length days) date other days) [
                | inl k ↦ inr (inl (k ∙ lookup-put_other date other new_day h.stored.days e))
                | inr k ↦ inr (inr k)
              ]
            ];
            active_now = refl;
            sampled_at = refl;
            no_relabel = refl;
            path_kept = refl;
          },
          refl,
        )

  counted-IsHistory :
      IsHistory h.stored
      → valid_date date ≡ true
      → counter ≤ max_daily_bytes
      → ltb max_daily_bytes next_bytes ≡ false
      → IsHistory (counted h date now counter).0.stored
  unfolding counted
  counted-IsHistory i v c o =
      let days = put date new_day h.stored.days in
      let good : All IsGood days =
        put-All IsGood date new_day h.stored.days (v, ground arith) i.days_good in
      let rising : Ascends 0 days =
        put-Ascends 0 date new_day h.stored.days v i.days_good (day_number-positive date v)
          i.ascending in
      rw (counted, o)
        (record {
          schema_one = i.schema_one;
          days_good = evict-All IsGood (length days) date days good;
          ascending = evict-Ascends (length days) 0 date days rising;
          at_most = length-evict (length days) 0 date days rising (omega arith);
          active_held = inr (
            date,
            refl,
            v,
            (new_day, lookup-evict (length days) date days ∙ lookup-put date new_day h.stored.days),
          );
        })

-- What `apply_sample` does to a history that is in order: nothing, or the sample is counted on its
-- day and the history stays in order, with at most `max_days` days.
pub apply_sample_lem :
    (h : History) (date : Bytes) (now counter : ℕ)
    → IsHistory h.stored
    → (apply_sample h date now counter ≡ (h, false))
      ⊎ (((apply_sample h date now counter).1 ≡ true)
          × IsCounted h date now counter (apply_sample h date now counter).0
          × IsHistory (apply_sample h date now counter).0.stored)
unfolding apply_sample
apply_sample_lem h date now counter i =
    elim (Bool-cases (refused h date now counter || unchanged h.stored date counter)) [
      | inl e ↦ rw (apply_sample, e) (inl refl)
      | inr e ↦
          let (v, c) = not_refused h date now counter (ground arith) in
          rw (apply_sample, e)
            (elim (Bool-cases (ltb max_daily_bytes (next_bytes h date now counter))) [
              | inl o ↦ inl (counted_over h date now counter i v c o)
              | inr o ↦
                  let (k, t) = counted-IsCounted h date now counter i c o in
                  inr (t, k, counted-IsHistory h date now counter i v c o)
            ])
    ]
