-- ===== src/Journal/Paging.antt =====
-- The pages of `view`, followed from one to the next, show every wanted entry once.
use zwrt_datad.Prelude.{
  retain-retain, last-All, All-retained, append_nil, take_all, take-drop, last-none, length_zero, ℕ,
  zero, suc, ◌+◌, ◌*◌, ◌≤◌, ◌<◌, ◌^◌, ◌≡◌, refl, sym, ◌∙◌, Bool, true, false, ◌&&◌, Option, none,
  some, List, [], ◌∷◌, ◌++◌, arith, length, length-take, take, drop, length-drop, retain,
  length-retain, last, ltb, Bool-cases, inl, inr, Option-cases, if◌then◌else◌, length-append,
}
use zwrt_datad.Prelude.Text.{Bytes}
use zwrt_datad.Journal.{Journal, Stored, Entry, newest_first, older, wanted, view, id_of}
use zwrt_datad.Journal.Falling.{
  IsFalling, IsFalling-newest_first, IsFalling-retain, before_id, next_page,
}
use zwrt_datad.Journal.Rising.{run-IsGood}
use zwrt_datad.Journal.Trace.{Sample, started}

-- The entries of the page before `before`, and of the pages behind it, `n` pages at most.
unfoldable pub walk : ℕ → Journal → Option Bytes → Bool → Option ℕ → List Entry
walk zero j category failed before = []
walk (suc n) j category failed before =
    let page = view j before category failed in
    page.entries
    ++ elim page.next_before [ none ↦ [] | some id ↦ walk n j category failed (some id) ]

-- A page and what follows it are the entries, if what follows is what lies behind the page.
page_and_rest :
    (entries : List Entry) (rest : ℕ → List Entry)
    → ((e : Entry) → last (take 100 entries) ≡ some e → rest e.id ≡ drop 100 entries)
    → (take 100 entries
        ++ elim (if ltb 100 (length entries) then id_of (last (take 100 entries)) else none) [
          | none ↦ []
          | some id ↦ rest id
        ])
      ≡ entries
unfolding id_of
page_and_rest entries rest h = elim (Bool-cases (ltb 100 (length entries))) [
  | inr t ↦ rw t (append_nil (take 100 entries) ∙ take_all 100 entries (ground arith))
  | inl t ↦ elim (Option-cases (last (take 100 entries))) [
    | inl e ↦ absurd (ground (arith, t, last-none (take 100 entries) e, length-take 100 entries))
    | inr (e, l) ↦ rw (t, l, h e l) (take-drop 100 entries)
  ]
]

length-newest_first : (entries : List Entry) → length (newest_first entries) ≡ length entries
length-newest_first [] = refl
length-newest_first (e ∷ entries) =
    omega (arith, length-append (newest_first entries) (e ∷ []), length-newest_first entries)

module _ (category : Option Bytes) (failed : Bool) where
  shown : Option ℕ → Entry → Bool
  shown before e = older before e && wanted category failed e

  found : Option ℕ → Journal → List Entry
  unfolding shown
  found before j = retain (shown before) (newest_first j.stored.entries)

  shown-before_id :
      (before : Option ℕ) (e x : Entry)
      → shown before e ≡ true
      → shown (some e.id) x ≡ (if before_id e.id x then shown before x else false)
  unfolding shown older before_id
  shown-before_id none e x h = ground arith
  shown-before_id (some b) e x h = ground arith

  next_found :
      (j : Journal) (hi : ℕ) (before : Option ℕ) (e : Entry)
      → IsFalling hi (newest_first j.stored.entries) 0
      → last (take 100 (found before j)) ≡ some e
      → found (some e.id) j ≡ drop 100 (found before j)
  unfolding found
  next_found j hi before e h l =
      let entries = newest_first j.stored.entries in
      let s : shown before e ≡ true =
        last-All (λ x. shown before x ≡ true) _ 100 e (All-retained (shown before) entries) l in
      sym (
        retain-retain (shown before) (before_id e.id) (shown (some e.id)) entries
          (λ x. shown-before_id before e x s))
      ∙ next_page 99 (found before j) hi 0 e (IsFalling-retain (shown before) hi entries 0 h) l

  first_page :
      (j : Journal) (n : ℕ) (before : Option ℕ)
      → ((e : Entry)
          → last (take 100 (found before j)) ≡ some e
          → walk n j category failed (some e.id) ≡ drop 100 (found before j))
      → walk (suc n) j category failed before ≡ found before j
  unfolding walk view found shown
  first_page j n before h =
      page_and_rest (found before j) (λ id. walk n j category failed (some id)) h

  found_at_most :
      (j : Journal) (before : Option ℕ)
      → length (found before j) ≤ length (newest_first j.stored.entries)
  unfolding found
  found_at_most j before = length-retain (shown before) (newest_first j.stored.entries)

  found_first :
      (j : Journal) → found none j ≡ retain (wanted category failed) (newest_first j.stored.entries)
  unfolding found shown older
  found_first j = refl

  walk-found :
      (j : Journal) (hi : ℕ)
      → IsFalling hi (newest_first j.stored.entries) 0
      → (n : ℕ) (before : Option ℕ) → length (found before j) ≤ 100 * n
      → walk n j category failed before ≡ found before j
  unfolding walk
  walk-found j hi h zero before l = sym (length_zero (found before j) (omega arith))
  walk-found j hi h (suc n) before l =
      first_page j n before
        (λ e t. walk-found j hi h n (some e.id) (shorter e t) ∙ next_found j hi before e h t)
    where
      shorter :
          (e : Entry)
          → last (take 100 (found before j)) ≡ some e
          → length (found (some e.id) j) ≤ 100 * n
      shorter e t =
          rw (next_found j hi before e h t) (omega (arith, length-drop 100 (found before j)))

-- From a missing file, after any calls and restarts that are fewer than 2^64 - 1: three pages, each
-- asked for with the `next_before` of the one before, show exactly the entries of the category and
-- the result asked for, the newest first.
pub walk-wanted :
    (fits : Stored → Bool) (samples : List Sample) (category : Option Bytes) (failed : Bool)
    → length samples + 1 < 2 ^ 64
    → let j = started fits samples in
      walk 3 j category failed none
      ≡ retain (wanted category failed) (newest_first j.stored.entries)
walk-wanted fits samples category failed l =
    let j = started fits samples in
    let g = run-IsGood fits samples l in
    walk-found category failed j j.stored.next_id
      (IsFalling-newest_first 0 j.stored.entries j.stored.next_id g.rising) 3 none
      (omega (
        arith,
        found_at_most category failed j none,
        length-newest_first j.stored.entries,
        g.at_most,
      ))
    ∙ found_first category failed j
