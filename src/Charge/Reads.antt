-- ===== src/Charge/Reads.antt =====
-- What the driver showed last, and what reads and writes leave of the inputs.
use zwrt_datad.Prelude.{
  zero, suc, ℕ, ◌≡◌, refl, sym, ap, ◌∙◌, Bool, true, Option, none, some, ◌⊎◌, inl, inr, List, [],
  ◌∷◌, ◌++◌, arith, Bool-cases,
}
use zwrt_datad.Charge.{Kernel, Command, Driver, read, write, accepted_by, settle_loop, settle}

-- Of the reads to come, those up to `k` were made: `left` are still to come.
abbrev pub ReadBack : List (Option Kernel) → Kernel → List (Option Kernel) → Type 0
ReadBack reads k left = (skipped : List (Option Kernel)) × (reads ≡ skipped ++ (some k ∷ left))

read-written : (d : Driver) → (read d).0.written ≡ d.written
unfolding read
read-written d = ground arith

settle_loop-written :
    (attempts : ℕ) (accept : Kernel → Bool) (d : Driver) (last : Option Kernel)
    → (settle_loop attempts accept d last).0.written ≡ d.written
unfolding settle_loop
settle_loop-written zero accept d last = refl
settle_loop-written (suc attempts) accept d last =
    elim (Bool-cases (accepted_by accept (read d).1)) [
      | inl e ↦ rw (settle_loop, e) (read-written d)
      | inr e ↦
          rw (settle_loop, e)
            (settle_loop-written attempts accept (read d).0 (read d).1 ∙ read-written d)
    ]

pub settle-written : (accept : Kernel → Bool) (d : Driver) → (settle accept d).0.written ≡ d.written
unfolding settle
settle-written accept d = settle_loop-written 10 accept d none

pub write-true :
    (d : Driver) (command : Command)
    → (write d command).1 ≡ true
    → (write d command).0.written ≡ d.written ++ (command ∷ [])
unfolding write
write-true d command h = ground arith

pub write-reads : (d : Driver) (command : Command) → (write d command).0.reads ≡ d.reads
unfolding write
write-reads d command = ground arith

read-reads :
    (d : Driver)
    → (((read d).1 ≡ none) × ((read d).0.reads ≡ d.reads))
      ⊎ (d.reads ≡ (read d).1 ∷ (read d).0.reads)
unfolding read
read-reads d = ground arith

read-ReadBack :
    (d : Driver) (k : Kernel) → (read d).1 ≡ some k → ReadBack d.reads k (read d).0.reads
read-ReadBack d k h = elim (read-reads d) [
  | inl (n, e) ↦ absurd (cc (n, h))
  | inr e ↦ ([], e ∙ ap (λ shown. shown ∷ (read d).0.reads) h)
]

read_then-ReadBack :
    (d : Driver) (k : Kernel) (left : List (Option Kernel))
    → ReadBack (read d).0.reads k left
    → ReadBack d.reads k left
read_then-ReadBack d k left (skipped, e) = elim (read-reads d) [
  | inl (n, same) ↦ (skipped, sym same ∙ e)
  | inr first ↦ ((read d).1 ∷ skipped, first ∙ ap (λ reads. (read d).1 ∷ reads) e)
]

settle_loop-ReadBack :
    (attempts : ℕ) (accept : Kernel → Bool) (d : Driver) (last : Option Kernel) (k : Kernel)
    → (settle_loop (suc attempts) accept d last).1 ≡ some k
    → ReadBack d.reads k (settle_loop (suc attempts) accept d last).0.reads
unfolding settle_loop
settle_loop-ReadBack zero accept d last k h = elim (Bool-cases (accepted_by accept (read d).1)) [
  | inl e ↦ rw (settle_loop, e) (read-ReadBack d k (rw (settle_loop, e) at h))
  | inr e ↦ rw (settle_loop, e) (read-ReadBack d k (rw (settle_loop, e) at h))
]
settle_loop-ReadBack (suc attempts) accept d last k h =
    elim (Bool-cases (accepted_by accept (read d).1)) [
      | inl e ↦ rw (settle_loop, e) (read-ReadBack d k (rw (settle_loop, e) at h))
      | inr e ↦
          let later =
            settle_loop-ReadBack attempts accept (read d).0 (read d).1 k
              (rw (settle_loop, e) at h) in
          rw (settle_loop, e) (read_then-ReadBack d k _ later)
    ]

pub settle-ReadBack :
    (accept : Kernel → Bool) (d : Driver) (k : Kernel)
    → (settle accept d).1 ≡ some k
    → ReadBack d.reads k (settle accept d).0.reads
unfolding settle
settle-ReadBack accept d k h = settle_loop-ReadBack 9 accept d none k h
