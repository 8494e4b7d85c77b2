-- ===== src/Journal/Falling.antt =====
-- The entries of the journal from the newest on: the order in which `view` shows them.
use zwrt_datad.Prelude.{
  ℕ, zero, suc, ◌+◌, ◌≤◌, ◌<◌, ◌≡◌, refl, Bool, some, List, [], ◌∷◌, ◌++◌, arith, take, drop,
  retain, last, ltb, Bool-cases, inl, inr,
}
use zwrt_datad.Journal.{Entry, newest_first}
use zwrt_datad.Journal.Rising.{IsRising}

-- Ids that fall strictly, all of them below `hi` and from `lo` on.
abbrev pub IsFalling : ℕ → List Entry → ℕ → Type 0
IsFalling hi [] lo = lo ≤ hi
IsFalling hi (e ∷ entries) lo = (e.id < hi) × IsFalling e.id entries lo

IsFalling-weaken :
    (hi hi' : ℕ) (entries : List Entry) (lo lo' : ℕ)
    → hi ≤ hi'
    → lo' ≤ lo
    → IsFalling hi entries lo
    → IsFalling hi' entries lo'
IsFalling-weaken hi hi' [] lo lo' l k h = omega arith
IsFalling-weaken hi hi' (e ∷ entries) lo lo' l k (h, hs) =
    (omega arith, IsFalling-weaken e.id e.id entries lo lo' (omega arith) k hs)

IsFalling-append :
    (hi : ℕ) (entries : List Entry) (lo : ℕ) (e : Entry)
    → e.id < lo
    → IsFalling hi entries lo
    → IsFalling hi (entries ++ (e ∷ [])) e.id
IsFalling-append hi [] lo e l h = (omega arith, omega arith)
IsFalling-append hi (x ∷ entries) lo e l (h, hs) = (h, IsFalling-append x.id entries lo e l hs)

pub IsFalling-newest_first :
    (lo : ℕ) (entries : List Entry) (hi : ℕ)
    → IsRising lo entries hi
    → IsFalling hi (newest_first entries) lo
IsFalling-newest_first lo [] hi h = h
IsFalling-newest_first lo (e ∷ entries) hi (h, hs) =
    IsFalling-weaken hi hi (newest_first (e ∷ entries)) e.id lo (omega arith) h (
      IsFalling-append hi (newest_first entries) (e.id + 1) e (omega arith)
        (IsFalling-newest_first (e.id + 1) entries hi hs))

pub IsFalling-retain :
    (p : Entry → Bool) (hi : ℕ) (entries : List Entry) (lo : ℕ)
    → IsFalling hi entries lo
    → IsFalling hi (retain p entries) lo
IsFalling-retain p hi [] lo h = h
IsFalling-retain p hi (e ∷ entries) lo (h, hs) = elim (Bool-cases (p e)) [
  | inl t ↦ rw t (h, IsFalling-retain p e.id entries lo hs)
  | inr t ↦ rw t (
      IsFalling-weaken e.id hi (retain p entries) lo lo (omega arith) (omega arith)
        (IsFalling-retain p e.id entries lo hs))
]

unfoldable pub before_id : ℕ → Entry → Bool
before_id id e = ltb e.id id

retain-IsFalling :
    (entries : List Entry) (hi lo : ℕ)
    → IsFalling hi entries lo
    → (id : ℕ) → hi ≤ id
    → retain (before_id id) entries ≡ entries
unfolding before_id
retain-IsFalling [] hi lo h id l = refl
retain-IsFalling (e ∷ entries) hi lo (h, hs) id l =
    ground (arith, retain-IsFalling entries e.id lo hs id (omega arith))

last-take :
    (n : ℕ) (entries : List Entry) (hi lo : ℕ) (e : Entry)
    → IsFalling hi entries lo
    → last (take n entries) ≡ some e
    → e.id < hi
last-take zero entries hi lo e h l = cc
last-take (suc n) [] hi lo e h l = cc
last-take (suc zero) (x ∷ entries) hi lo e (h, hs) l = ground arith
last-take (suc (suc n)) (x ∷ []) hi lo e (h, hs) l = ground arith
last-take (suc (suc n)) (x ∷ y ∷ entries) hi lo e (h, hs) l =
    omega (arith, last-take (suc n) (y ∷ entries) x.id lo e hs l)

-- The entries before the last one of the first page are the ones behind the page.
pub next_page :
    (n : ℕ) (entries : List Entry) (hi lo : ℕ) (e : Entry)
    → IsFalling hi entries lo
    → last (take (suc n) entries) ≡ some e
    → retain (before_id e.id) entries ≡ drop (suc n) entries
unfolding before_id
next_page n [] hi lo e h l = cc
next_page zero (x ∷ entries) hi lo e (h, hs) l =
    let same : x.id ≡ e.id = cc l in
    ground (arith, same, retain-IsFalling entries x.id lo hs e.id (omega (arith, same)))
next_page (suc n) (x ∷ []) hi lo e (h, hs) l = let same : x.id ≡ e.id = cc l in ground (arith, same)
next_page (suc n) (x ∷ y ∷ entries) hi lo e (h, hs) l = ground (
  arith,
  last-take (suc n) (y ∷ entries) x.id lo e hs l,
  next_page n (y ∷ entries) x.id lo e hs l,
)
