-- ===== src/Journal/Flushed.antt =====
-- What a restart finds of the journal once it is flushed.
use zwrt_datad.Prelude.{
  ℕ, ◌+◌, ◌≤◌, ◌<◌, ◌^◌, ◌≡◌, refl, Bool, true, false, ◌&&◌, List, [], ◌∷◌, arith, length, drop,
  all, All, All-append, Bool-cases, inl, inr, ◌⊎◌, ltb, ◌==◌, if◌then◌else◌, zero, suc,
}
use zwrt_datad.Prelude.Text.{Bytes}
use zwrt_datad.Storage.{DiskFile, missing, invalid, holds}
use zwrt_datad.Journal.{
  Journal, Stored, Report, Entry, load, loaded, loadable, entry_loadable, push, flush, set_level,
  clear, replaced, appended, bounded, take_chars, level_number, rank, repeated,
}
use zwrt_datad.Journal.Trace.{
  Event, pushed, flushed, cleared, restarted, level_set, Sample, apply, run, started,
}
use zwrt_datad.Journal.Rising.{IsRising, IsGood, run-IsGood}

-- Texts of at most 80 bytes, as `load` wants them.
abbrev pub IsShort : Report → Type 0
IsShort r = (length r.task ≤ 80) × (length r.action ≤ 80) × (length r.reason ≤ 80)

abbrev pub IsShortEvent : Event → Type 0
IsShortEvent (pushed now device_time r) = IsShort r
IsShortEvent _ = Unit

abbrev HasShort : Stored → Type 0
HasShort s = All (λ e. IsShort e.report) s.entries

abbrev HoldsShort : DiskFile Stored → Type 0
HoldsShort (holds s) = HasShort s
HoldsShort _ = Unit

length-take_chars : (n : ℕ) (text : Bytes) → length (take_chars n text) ≤ length text
unfolding take_chars
length-take_chars n [] = omega arith
length-take_chars zero (b ∷ text) = ground (arith, length-take_chars zero text)
length-take_chars (suc n) (b ∷ text) =
    ground (arith, length-take_chars (suc n) text, length-take_chars n text)

All-tail {ℓ κ} : {A : Type ℓ} (P : A → Type κ) (xs : List A) → All P xs → All P (drop 1 xs)
All-tail P [] a = a
All-tail P (x ∷ xs) (h, a) = a

All-bounded :
    (entries : List Entry)
    → All (λ e. IsShort e.report) entries
    → All (λ e. IsShort e.report) (bounded entries)
unfolding bounded
All-bounded entries a = elim (Bool-cases (ltb 300 (length entries))) [
  | inl e ↦ rw e (All-tail (λ x. IsShort x.report) entries a)
  | inr e ↦ rw e a
]

appended-HasShort :
    (s : Stored) (r : Report) (now : ℕ) (device_time : Bytes)
    → IsShort r
    → HasShort s
    → HasShort (appended s r now device_time)
unfolding appended
appended-HasShort s r now device_time (t, a, b) h = All-bounded _ (
    All-append (λ e. IsShort e.report) s.entries _ h
      ((omega (arith, length-take_chars 80 r.task), a, b), tt))

rising_loadable :
    (lo : ℕ) (entries : List Entry) (hi : ℕ)
    → IsRising lo entries hi
    → All (λ e. IsShort e.report) entries
    → all (entry_loadable hi) entries ≡ true
unfolding entry_loadable
rising_loadable lo [] hi h a = refl
rising_loadable lo (e ∷ entries) hi (h, hs) (s, a) =
    ground (arith, rising_loadable (e.id + 1) entries hi hs a, rising_le (e.id + 1) entries hi hs)
  where
    rising_le : (lo : ℕ) (entries : List Entry) (hi : ℕ) → IsRising lo entries hi → lo ≤ hi
    rising_le lo [] hi h = h
    rising_le lo (x ∷ entries) hi (h, hs) = omega (arith, rising_le (x.id + 1) entries hi hs)

good_loadable : (k : ℕ) (s : Stored) → IsGood k s → HasShort s → loadable s ≡ true
unfolding loadable
good_loadable k s g h = ground (arith, rising_loadable 0 s.entries s.next_id g.rising h, g.at_most)

module _ (fits : Stored → Bool) where
  -- While nothing is unsaved, the file has what is in memory, or a restart would find that.
  record Kept (j : Journal) : Type 0 where
    in_memory : HasShort j.stored
    on_disk : HoldsShort j.path
    clean : j.dirty ≡ false → (loaded fits j.path ≡ j.stored) ⊎ (j.path ≡ holds j.stored)

  Kept-if : (test : Bool) (x y : Journal) → Kept x → Kept y → Kept (if test then x else y)
  Kept-if true x y i j = i
  Kept-if false x y i j = j

  flush-Kept : (saves : Bool) (j : Journal) → Kept j → Kept (flush saves j)
  unfolding flush
  flush-Kept true j i =
      Kept-if j.dirty _ j
        (record { in_memory = i.in_memory; on_disk = i.in_memory; clean = λ _. inr refl }) i
  flush-Kept false j i =
      Kept-if j.dirty _ j (record { in_memory = i.in_memory; on_disk = i.on_disk; clean = λ h. cc })
        i

  replaced-Kept :
      (saves : Bool) (j : Journal) (next : Stored)
      → Kept j
      → HasShort next
      → Kept (replaced saves j next).0
  unfolding replaced
  replaced-Kept true j next i h = record { in_memory = h; on_disk = h; clean = λ _. inr refl }
  replaced-Kept false j next i h = i

  push-Kept :
      (saves : Bool) (now : ℕ) (device_time : Bytes) (j : Journal) (r : Report)
      → IsShort r
      → Kept j
      → Kept (push saves now device_time j r)
  unfolding push
  push-Kept saves now device_time j r s i =
      let j' = record j { stored = appended j.stored r now device_time; dirty = true } in
      let i' : Kept j' = record {
        in_memory = appended-HasShort j.stored r now device_time s i.in_memory;
        on_disk = i.on_disk;
        clean = λ h. cc;
      } in
      Kept-if (ltb (level_number j.stored.level) (level_number (rank r))) j _ i (
        Kept-if (repeated j.stored r now) j _ i
          (Kept-if (level_number j'.stored.level == 3) _ j' (flush-Kept saves j' i') i'))

  loaded-HasShort : (p : DiskFile Stored) → HoldsShort p → HasShort (loaded fits p)
  unfolding loaded
  loaded-HasShort missing h = tt
  loaded-HasShort invalid h = tt
  loaded-HasShort (holds s) h = elim (Bool-cases (fits s && loadable s)) [
    | inl e ↦ rw e h
    | inr e ↦ rw e tt
  ]

  apply-Kept :
      (saves : Bool) (e : Event) (j : Journal)
      → IsShortEvent e
      → Kept j
      → Kept (apply fits saves e j)
  unfolding apply
  apply-Kept saves (pushed now device_time r) j s i = push-Kept saves now device_time j r s i
  apply-Kept saves flushed j s i = flush-Kept saves j i
  apply-Kept saves cleared j s i = unfold clear in replaced-Kept saves j _ i tt
  apply-Kept saves (level_set level) j s i =
      unfold set_level in replaced-Kept saves j _ i i.in_memory
  apply-Kept saves restarted j s i =
      unfold load in
      record {
        in_memory = loaded-HasShort j.path i.on_disk;
        on_disk = i.on_disk;
        clean = λ _. inl refl;
      }

  run-Kept :
      (samples : List Sample) (j : Journal)
      → All (λ s. IsShortEvent s.event) samples
      → Kept j
      → Kept (run fits j samples)
  unfolding run
  run-Kept [] j a i = i
  run-Kept (s ∷ samples) j (h, a) i =
      run-Kept samples (apply fits s.saves s.event j) a (apply-Kept s.saves s.event j h i)

  load-Kept : Kept (load fits missing)
  unfolding load
  load-Kept = record { in_memory = loaded-HasShort missing tt; on_disk = tt; clean = λ _. inl refl }

  loaded_holds : (s : Stored) → fits s ≡ true → loadable s ≡ true → loaded fits (holds s) ≡ s
  unfolding loaded
  loaded_holds s f l = ground arith

  found_again :
      (k : ℕ) (j : Journal)
      → IsGood k j.stored
      → Kept j
      → j.dirty ≡ false
      → fits j.stored ≡ true
      → (load fits j.path).stored ≡ j.stored
  unfolding load
  found_again k j g i d f = elim (i.clean d) [
    | inl e ↦ e
    | inr e ↦ rw e (loaded_holds j.stored f (good_loadable k j.stored g i.in_memory))
  ]

-- From a missing file, after any calls and restarts that are fewer than 2^64 - 1, with saves that
-- fail or not and pushed actions, reasons and tasks of at most 80 bytes: where nothing is unsaved
-- and the file would take 256 KiB at most, a restart finds the journal that was in memory.
pub saved_journal :
    (fits : Stored → Bool) (samples : List Sample)
    → length samples + 1 < 2 ^ 64
    → All (λ s. IsShortEvent s.event) samples
    → (started fits samples).dirty ≡ false
    → fits (started fits samples).stored ≡ true
    → (load fits (started fits samples).path).stored ≡ (started fits samples).stored
saved_journal fits samples l a =
    found_again fits (length samples) (run fits (load fits missing) samples)
      (run-IsGood fits samples l) (run-Kept fits samples (load fits missing) a (load-Kept fits))
