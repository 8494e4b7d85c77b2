-- ===== src/Device/Attempts.antt =====
-- The times of the attempts, and what forgetting the old ones does to them.
use zwrt_datad.Prelude.{
  ℕ, ◌+◌, ◌-◌, ◌≤◌, ◌≡◌, refl, ap, inl, inr, true, List, [], ◌∷◌, ◌++◌, ltb, arith, length, All,
  All-retain, All-append, length-retain, Bool-cases,
}
use zwrt_datad.Device.{attempt_window, recent}
use zwrt_datad.Device.Trace.{Sample}

-- The third of the times is 60 seconds behind `first`.
abbrev pub IsFar : ℕ → List ℕ → Type 0
IsFar first (a ∷ b ∷ c ∷ times) = first + 60000000000 ≤ c
IsFar first _ = Unit

-- Of any four times in a row, the last is 60 seconds behind the first.
abbrev pub ArePaced : List ℕ → Type 0
ArePaced [] = Unit
ArePaced (a ∷ times) = IsFar a times × ArePaced times

-- The times of the calls never fall.
abbrev pub NeverFalls : ℕ → List Sample → Type 0
NeverFalls t [] = Unit
NeverFalls t (p ∷ samples) = (t ≤ p.now) × NeverFalls p.now samples

-- Times in rising order.
abbrev pub Rises : List ℕ → Type 0
Rises [] = Unit
Rises (a ∷ times) = All (λ b. a ≤ b) times × Rises times

pub recent_whole :
    (now first : ℕ) (times : List ℕ)
    → All (λ b. first ≤ b) times
    → ltb (now - first) attempt_window ≡ true
    → recent now times ≡ times
unfolding recent
recent_whole now first [] a h = refl
recent_whole now first (b ∷ times) (l, a) h =
    let kept : ltb (now - b) attempt_window ≡ true = ground (arith, h) in
    rw kept (ap (λ ts. b ∷ ts) (recent_whole now first times a h))

pub recent-All :
    (P : ℕ → Type 0) (now : ℕ) (times : List ℕ) → All P times → All P (recent now times)
unfolding recent
recent-All P now times a = All-retain P _ times a

pub All-weaken :
    (a b : ℕ) (times : List ℕ) → a ≤ b → All (λ c. b ≤ c) times → All (λ c. a ≤ c) times
All-weaken a b [] l h = tt
All-weaken a b (c ∷ times) l (k, h) = (omega arith, All-weaken a b times l h)

pub All-raise : (a b : ℕ) (times : List ℕ) → a ≤ b → All (λ c. c ≤ a) times → All (λ c. c ≤ b) times
All-raise a b [] l h = tt
All-raise a b (c ∷ times) l (k, h) = (omega arith, All-raise a b times l h)

pub length-recent : (now : ℕ) (times : List ℕ) → length (recent now times) ≤ length times
unfolding recent
length-recent now times = length-retain _ times

pub recent-Rises : (now : ℕ) (times : List ℕ) → Rises times → Rises (recent now times)
unfolding recent
recent-Rises now [] r = tt
recent-Rises now (a ∷ times) (l, r) = elim (Bool-cases (ltb (now - a) attempt_window)) [
  | inl e ↦ rw e (recent-All (λ b. a ≤ b) now times l, recent-Rises now times r)
  | inr e ↦ rw e (recent-Rises now times r)
]

pub Rises-append :
    (now : ℕ) (times : List ℕ)
    → All (λ b. b ≤ now) times
    → Rises times
    → Rises (times ++ (now ∷ []))
Rises-append now [] u r = (tt, tt)
Rises-append now (a ∷ times) (l, u) (h, r) =
    (All-append (λ b. a ≤ b) times (now ∷ []) h (l, tt), Rises-append now times u r)

-- A time that is a window old is far from what comes behind two more.
pub IsFar-old :
    (now first : ℕ) (times later : List ℕ)
    → length times ≤ 2
    → first + attempt_window ≤ now
    → All (λ b. now ≤ b) later
    → IsFar first (times ++ later)
IsFar-old now first [] [] n o a = tt
IsFar-old now first [] (c ∷ []) n o a = tt
IsFar-old now first [] (c ∷ d ∷ []) n o a = tt
IsFar-old now first [] (c ∷ d ∷ e ∷ later) n o (p, (q, (r, a))) = omega arith
IsFar-old now first (x ∷ []) [] n o a = tt
IsFar-old now first (x ∷ []) (c ∷ []) n o a = tt
IsFar-old now first (x ∷ []) (c ∷ d ∷ later) n o (p, (q, a)) = omega arith
IsFar-old now first (x ∷ y ∷ []) [] n o a = tt
IsFar-old now first (x ∷ y ∷ []) (c ∷ later) n o (p, a) = omega arith
IsFar-old now first (x ∷ y ∷ z ∷ times) later n o a = absurd (omega arith)

pub recent-ArePaced :
    (now : ℕ) (times later : List ℕ)
    → Rises times
    → length times ≤ 3
    → All (λ b. now ≤ b) later
    → ArePaced (recent now times ++ later)
    → ArePaced (times ++ later)
unfolding recent
recent-ArePaced now [] later r n a p = p
recent-ArePaced now (x ∷ times) later (l, r) n a p =
    elim (Bool-cases (ltb (now - x) attempt_window)) [
      | inl e ↦ let k = rw e at p in rw (recent_whole now x times l e) at k
      | inr e ↦ (
        IsFar-old now x times later (omega arith) (ground (arith, e)) a,
        recent-ArePaced now times later r (omega arith) a (rw e at p),
      )
    ]
