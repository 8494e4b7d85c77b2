-- ===== src/Journal/Rising.antt =====
-- The entries of the journal in the order of their ids.
use zwrt_datad.Prelude.{
  ℕ, ◌+◌, ◌≤◌, ◌<◌, ◌^◌, ◌≡◌, Bool, true, false, List, [], ◌∷◌, ◌++◌, arith, length, drop, subst,
  if◌then◌else◌, ◌&&◌, ltb, Bool-cases, inl, inr, length-append, length-drop,
}
use zwrt_datad.Prelude.Text.{Bytes}
use zwrt_datad.Storage.{DiskFile, missing, invalid, holds}
use zwrt_datad.Journal.{
  Journal, Stored, Report, Entry, default_stored, load, loaded, push, flush, set_level, clear,
  replaced, appended, bounded, loadable,
}
use zwrt_datad.Journal.Trace.{
  Event, pushed, flushed, cleared, restarted, level_set, Sample, apply, run, started,
}

-- Each id lies behind the one before, all of them from `lo` on and below `hi`.
abbrev pub IsRising : ℕ → List Entry → ℕ → Type 0
IsRising lo [] hi = lo ≤ hi
IsRising lo (e ∷ entries) hi = (lo ≤ e.id) × IsRising (e.id + 1) entries hi

IsRising-weaken :
    (lo lo' : ℕ) (entries : List Entry) (hi : ℕ)
    → lo' ≤ lo
    → IsRising lo entries hi
    → IsRising lo' entries hi
IsRising-weaken lo lo' [] hi l h = omega arith
IsRising-weaken lo lo' (e ∷ entries) hi l (h, hs) = (omega arith, hs)

IsRising-append :
    (lo : ℕ) (entries : List Entry) (hi : ℕ) (e : Entry) (next : ℕ)
    → IsRising lo entries hi
    → hi ≤ e.id
    → e.id < next
    → IsRising lo (entries ++ (e ∷ [])) next
IsRising-append lo [] hi e next h l b = (omega arith, omega arith)
IsRising-append lo (x ∷ entries) hi e next (h, hs) l b =
    (h, IsRising-append (x.id + 1) entries hi e next hs l b)

IsRising-tail :
    (entries : List Entry) (hi : ℕ) → IsRising 0 entries hi → IsRising 0 (drop 1 entries) hi
IsRising-tail [] hi h = h
IsRising-tail (e ∷ entries) hi (h, hs) = IsRising-weaken (e.id + 1) 0 entries hi (omega arith) hs

-- At most 300 entries with rising ids, the next id above them and at most `k + 1`.
pub record IsGood (k : ℕ) (s : Stored) : Type 0 where
  pub rising : IsRising 0 s.entries s.next_id
  pub at_most : length s.entries ≤ 300
  pub next_le : s.next_id ≤ k + 1

bounded-IsRising :
    (entries : List Entry) (hi : ℕ) → IsRising 0 entries hi → IsRising 0 (bounded entries) hi
unfolding bounded
bounded-IsRising entries hi h = elim (Bool-cases (ltb 300 (length entries))) [
  | inl e ↦ rw e (IsRising-tail entries hi h)
  | inr e ↦ rw e h
]

length-bounded : (entries : List Entry) → length entries ≤ 301 → length (bounded entries) ≤ 300
unfolding bounded
length-bounded entries h = ground (arith, length-drop 1 entries)

length-snoc : (entries : List Entry) (e : Entry) → length (entries ++ (e ∷ [])) ≡ length entries + 1
length-snoc entries e = length-append entries (e ∷ [])

length-bounded-snoc :
    (entries : List Entry) (e : Entry)
    → length entries ≤ 300
    → length (bounded (entries ++ (e ∷ []))) ≤ 300
length-bounded-snoc entries e h =
    length-bounded (entries ++ (e ∷ [])) (omega (arith, length-snoc entries e))

appended-IsGood :
    (k : ℕ) (s : Stored) (r : Report) (now : ℕ) (device_time : Bytes)
    → k + 2 < 2 ^ 64
    → IsGood k s
    → IsGood (k + 1) (appended s r now device_time)
unfolding appended
appended-IsGood k s r now device_time l g =
    let n : s.next_id ≤ k + 1 = g.next_le in
    record {
      rising =
          bounded-IsRising _ _
            (IsRising-append 0 s.entries s.next_id _ _ g.rising (omega arith) (omega arith));
      at_most = length-bounded-snoc s.entries _ g.at_most;
      next_le = omega arith;
    }

IsGood-weaken : (k k' : ℕ) (s : Stored) → k ≤ k' → IsGood k s → IsGood k' s
IsGood-weaken k k' s l g = record {
  rising = g.rising;
  at_most = g.at_most;
  next_le = omega (arith, g.next_le);
}

default-IsGood : (k : ℕ) → IsGood k default_stored
default-IsGood k = record { rising = omega arith; at_most = omega arith; next_le = omega arith }

-- What a file holds is good.
abbrev HoldsGood : ℕ → DiskFile Stored → Type 0
HoldsGood k (holds s) = IsGood k s
HoldsGood k _ = Unit

-- What is in memory and what is on disk are good.
pub record Inv (k : ℕ) (j : Journal) : Type 0 where
  pub in_memory : IsGood k j.stored
  pub on_disk : HoldsGood k j.path

HoldsGood-weaken : (k k' : ℕ) (p : DiskFile Stored) → k ≤ k' → HoldsGood k p → HoldsGood k' p
HoldsGood-weaken k k' missing l g = tt
HoldsGood-weaken k k' invalid l g = tt
HoldsGood-weaken k k' (holds s) l g = IsGood-weaken k k' s l g

Inv-weaken : (k : ℕ) (j : Journal) → Inv k j → Inv (k + 1) j
Inv-weaken k j i = record {
  in_memory = IsGood-weaken k (k + 1) j.stored (omega arith) i.in_memory;
  on_disk = HoldsGood-weaken k (k + 1) j.path (omega arith) i.on_disk;
}

loaded-IsGood :
    (k : ℕ) (fits : Stored → Bool) (p : DiskFile Stored) → HoldsGood k p → IsGood k (loaded fits p)
unfolding loaded
loaded-IsGood k fits missing g = default-IsGood k
loaded-IsGood k fits invalid g = default-IsGood k
loaded-IsGood k fits (holds s) g = elim (Bool-cases (fits s && loadable s)) [
  | inl e ↦ rw e g
  | inr e ↦ rw e (default-IsGood k)
]

replaced-Inv :
    (k : ℕ) (saves : Bool) (j : Journal) (next : Stored)
    → Inv k j
    → IsGood k next
    → Inv k (replaced saves j next).0
unfolding replaced
replaced-Inv k true j next i g = record { in_memory = g; on_disk = g }
replaced-Inv k false j next i g = i

Inv-if : (k : ℕ) (test : Bool) (x y : Journal) → Inv k x → Inv k y → Inv k (if test then x else y)
Inv-if k true x y i j = i
Inv-if k false x y i j = j

flush-Inv : (k : ℕ) (saves : Bool) (j : Journal) → Inv k j → Inv k (flush saves j)
unfolding flush
flush-Inv k true j i =
    Inv-if k j.dirty _ j (record { in_memory = i.in_memory; on_disk = i.in_memory }) i
flush-Inv k false j i =
    Inv-if k j.dirty _ j (record { in_memory = i.in_memory; on_disk = i.on_disk }) i

push-Inv :
    (k : ℕ) (saves : Bool) (now : ℕ) (device_time : Bytes) (j : Journal) (r : Report)
    → k + 2 < 2 ^ 64
    → Inv k j
    → Inv (k + 1) (push saves now device_time j r)
unfolding push
push-Inv k saves now device_time j r l i =
    let j' = record j { stored = appended j.stored r now device_time; dirty = true } in
    let i' : Inv (k + 1) j' = record {
      in_memory = appended-IsGood k j.stored r now device_time l i.in_memory;
      on_disk = HoldsGood-weaken k (k + 1) j.path (omega arith) i.on_disk;
    } in
    ground (arith, i', Inv-weaken k j i, flush-Inv (k + 1) saves j' i')

apply-Inv :
    (k : ℕ) (fits : Stored → Bool) (saves : Bool) (e : Event) (j : Journal)
    → k + 2 < 2 ^ 64
    → Inv k j
    → Inv (k + 1) (apply fits saves e j)
unfolding apply
apply-Inv k fits saves (pushed now device_time r) j l i = push-Inv k saves now device_time j r l i
apply-Inv k fits saves flushed j l i = Inv-weaken k _ (flush-Inv k saves j i)
apply-Inv k fits saves cleared j l i =
    unfold clear in
    Inv-weaken k _ (
      replaced-Inv k saves j _ i
        (record { rising = omega arith; at_most = omega arith; next_le = i.in_memory.next_le }))
apply-Inv k fits saves (level_set level) j l i =
    unfold set_level in
    Inv-weaken k _ (
      replaced-Inv k saves j _ i (record {
        rising = i.in_memory.rising;
        at_most = i.in_memory.at_most;
        next_le = i.in_memory.next_le;
      }))
apply-Inv k fits saves restarted j l i =
    unfold load in
    Inv-weaken k _
      (record { in_memory = loaded-IsGood k fits j.path i.on_disk; on_disk = i.on_disk })

run-Inv :
    (fits : Stored → Bool) (samples : List Sample) (k : ℕ) (j : Journal)
    → k + length samples + 1 < 2 ^ 64
    → Inv k j
    → Inv (k + length samples) (run fits j samples)
unfolding run
run-Inv fits [] k j l i = subst (λ n. Inv n j) (omega arith) i
run-Inv fits (s ∷ samples) k j l i =
    subst (λ n. Inv n (run fits j (s ∷ samples))) (omega arith)
      (run-Inv fits samples (k + 1) (apply fits s.saves s.event j) (omega arith)
        (apply-Inv k fits s.saves s.event j (omega arith) i))

load-Inv : (fits : Stored → Bool) → Inv 0 (load fits missing)
unfolding load loaded
load-Inv fits = record { in_memory = default-IsGood 0; on_disk = tt }

-- From a missing file, under any calls and restarts that are fewer than 2^64 - 1, with saves that
-- fail or not: the journal holds 300 entries at most, their ids rise strictly, all of them lie
-- below the next id, and the next id lies at most one above the number of calls.
pub run-IsGood :
    (fits : Stored → Bool) (samples : List Sample)
    → length samples + 1 < 2 ^ 64
    → IsGood (length samples) (started fits samples).stored
run-IsGood fits samples l =
    subst (λ n. IsGood n (started fits samples).stored) (omega arith)
      (run-Inv fits samples 0 (load fits missing) (omega arith) (load-Inv fits)).in_memory
