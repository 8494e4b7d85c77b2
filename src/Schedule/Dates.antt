-- ===== src/Schedule/Dates.antt =====
-- The order of valid dates as texts is their order in time.
use zwrt_datad.Prelude.{
  ℕ, ◌+◌, ◌-◌, ◌*◌, ◌≤◌, ◌<◌, ◌≡◌, refl, ◌∙◌, sym, ap₂, Bool, true, false, List, [], ◌∷◌, ltb, ◌==◌,
  length, arith, if◌then◌else◌,
}
use zwrt_datad.Prelude.Text.{Bytes, text_lt, is_digit}
use zwrt_datad.Schedule.LocalClock.{valid_date, two, four}

-- The year, the month and the day of a date, as one number that orders days by time.
abbrev pub day_number : Bytes → ℕ
day_number (y ∷ y' ∷ y'' ∷ y''' ∷ dash ∷ m ∷ m' ∷ dash' ∷ d ∷ d' ∷ []) =
    four y y' y'' y''' * 10000 + two m m' * 100 + two d d'
day_number _ = 0

abbrev first_differ : ℕ → ℕ → Bool → Bool
first_differ a b rest = if ltb a b then true else if a == b then rest else false

times_step : (a b base : ℕ) → a < b → a * base + base ≤ b * base
times_step a b base h = grind arith

-- One more digit in front of rests that are below `base`.
digit_step :
    (base a b m n : ℕ) (rest : Bool)
    → m < base
    → n < base
    → rest ≡ ltb m n
    → first_differ a b rest ≡ ltb (a * base + m) (b * base + n)
digit_step base a b m n rest hm hn e = ground (arith, times_step a b base, times_step b a base)

-- The digits of a date, without the two dashes.
abbrev digits_differ : List ℕ → List ℕ → Bool
digits_differ (a ∷ s) (b ∷ t) = first_differ a b (digits_differ s t)
digits_differ _ _ = false

abbrev power : List ℕ → ℕ
power [] = 1
power (a ∷ s) = power s * 10

abbrev value : List ℕ → ℕ
value [] = 0
value (a ∷ s) = a * power s + value s

abbrev Digits : List ℕ → Type 0
Digits [] = Unit
Digits (a ∷ s) = (a < 10) × Digits s

value-lt : (s : List ℕ) → Digits s → value s < power s
value-lt [] h = omega arith
value-lt (a ∷ s) (h, hs) = grind (arith, value-lt s hs, times_step a 10 (power s) h)

-- Digits of equal length compare as the numbers that they write.
digits_differ-value :
    (s t : List ℕ)
    → power s ≡ power t
    → length s ≡ length t
    → Digits s
    → Digits t
    → digits_differ s t ≡ ltb (value s) (value t)
digits_differ-value [] [] p l hs ht = ground arith
digits_differ-value [] (b ∷ t) p l hs ht = absurd (omega arith)
digits_differ-value (a ∷ s) [] p l hs ht = absurd (omega arith)
digits_differ-value (a ∷ s) (b ∷ t) p l (ha, hs) (hb, ht) =
    let e : power s ≡ power t = omega arith in
    rw (← e) (
      digit_step (power s) a b (value s) (value t) (digits_differ s t) (value-lt s hs)
        (rw e (value-lt t ht)) (digits_differ-value s t e (omega arith) hs ht))

abbrev ascii : List ℕ → List ℕ
ascii [] = []
ascii (a ∷ s) = (a + 48) ∷ ascii s

digits_differ-ascii : (s t : List ℕ) → digits_differ (ascii s) (ascii t) ≡ digits_differ s t
digits_differ-ascii [] t = refl
digits_differ-ascii (a ∷ s) [] = refl
digits_differ-ascii (a ∷ s) (b ∷ t) = ground (arith, digits_differ-ascii s t)

abbrev dashed : ℕ → ℕ → ℕ → ℕ → ℕ → ℕ → ℕ → ℕ → Bytes
dashed a b c d e f g h =
    (a + 48)
    ∷ (b + 48)
    ∷ (c + 48)
    ∷ (d + 48)
    ∷ 45
    ∷ (e + 48)
    ∷ (f + 48)
    ∷ 45
    ∷ (g + 48)
    ∷ (h + 48)
    ∷ []

-- A valid date is eight digits with dashes between.
data IsDashed (s : Bytes) : Type 0 where
  is_dashed :
      (a b c d e f g h : ℕ)
      → Digits (a ∷ b ∷ c ∷ d ∷ e ∷ f ∷ g ∷ h ∷ [])
      → s ≡ dashed a b c d e f g h
      → IsDashed s

digit : (c : ℕ) → is_digit c ≡ true → (c - 48 < 10) × (c ≡ c - 48 + 48)
unfolding is_digit
digit c h = ground arith

valid_date-IsDashed : (s : Bytes) → valid_date s ≡ true → IsDashed s
unfolding valid_date
valid_date-IsDashed (a ∷ b ∷ c ∷ d ∷ dash ∷ e ∷ f ∷ dash' ∷ g ∷ h ∷ []) v =
    let (ab, cd, ef, gh, x, y) = facts in
    let (a', pa) = digit a ab.0 in
    let (b', pb) = digit b ab.1 in
    let (c', pc) = digit c cd.0 in
    let (d', pd) = digit d cd.1 in
    let (e', pe) = digit e ef.0 in
    let (f', pf) = digit f ef.1 in
    let (g', pg) = digit g gh.0 in
    let (h', ph) = digit h gh.1 in
    is_dashed (a - 48) (b - 48) (c - 48) (d - 48) (e - 48) (f - 48) (g - 48) (h - 48)
      (a', (b', (c', (d', (e', (f', (g', (h', tt)))))))) (cc (pa, pb, pc, pd, pe, pf, pg, ph, x, y))
  where
    facts :
        ((is_digit a ≡ true) × (is_digit b ≡ true))
        × ((is_digit c ≡ true) × (is_digit d ≡ true))
        × ((is_digit e ≡ true) × (is_digit f ≡ true))
        × ((is_digit g ≡ true) × (is_digit h ≡ true))
        × (dash ≡ 45)
        × (dash' ≡ 45)
    facts = ground arith
valid_date-IsDashed _ v = cc

minus_shift : (a : ℕ) → a + 48 - 48 ≡ a
minus_shift a = omega arith

day_number-dashed :
    (a b c d e f g h : ℕ)
    → day_number (dashed a b c d e f g h) ≡ value (a ∷ b ∷ c ∷ d ∷ e ∷ f ∷ g ∷ h ∷ [])
day_number-dashed a b c d e f g h = simp minus_shift (omega arith)

-- Valid dates compare as texts, which is how the schedules compare them, exactly as the days do.
pub text_lt-day_number :
    (s t : Bytes)
    → valid_date s ≡ true
    → valid_date t ≡ true
    → text_lt s t ≡ ltb (day_number s) (day_number t)
unfolding text_lt
text_lt-day_number s t vs vt = go (valid_date-IsDashed s vs) (valid_date-IsDashed t vt)
  where
    go : IsDashed s → IsDashed t → text_lt s t ≡ ltb (day_number s) (day_number t)
    go (is_dashed a b c d e f g h ds es) (is_dashed a' b' c' d' e' f' g' h' dt et) =
        let x : List ℕ = a ∷ b ∷ c ∷ d ∷ e ∷ f ∷ g ∷ h ∷ [] in
        let y : List ℕ = a' ∷ b' ∷ c' ∷ d' ∷ e' ∷ f' ∷ g' ∷ h' ∷ [] in
        rw (es, et)
          (digits_differ-ascii x y
            ∙ digits_differ-value x y refl refl ds dt
            ∙ ap₂ ltb (sym (day_number-dashed a b c d e f g h))
                (sym (day_number-dashed a' b' c' d' e' f' g' h')))
