-- ===== src/Charge/Hold.antt =====
-- What leaving a running hold does to the driver.
use zwrt_datad.Prelude.{
  ℕ, ◌≡◌, refl, sym, ◌∙◌, Bool, true, false, not, ◌&&◌, Option, none, some, ◌⊎◌, inl, inr, List, [],
  ◌∷◌, ◌++◌, append_nil, arith, Bool-cases, Sum-cases,
}
use zwrt_datad.Prelude.Int.{pos}
use zwrt_datad.Device.{Answer}
use zwrt_datad.Charge.{
  Kernel, Command, charge_threshold, Error, Driver, int_eq, write, release_hold, set_threshold,
  confirmed, holding, enforce_release, enforce,
}
use zwrt_datad.Charge.Reads.{ReadBack, settle-written, write-true, write-reads, settle-ReadBack}
use zwrt_datad.Charge.Release.{IsReleased, release_hold-inr}
use zwrt_datad.Charge.Holding.{
  int_eq-true, int_eq-false, IsHolding, holding-IsHolding, holding-false,
}

confirmed-inr :
    (accept : Kernel → Bool) (error : Error) (after : Option Kernel) (k : Kernel)
    → confirmed accept error after ≡ inr k
    → (after ≡ some k) × (accept k ≡ true)
confirmed-inr accept error none k h = absurd (cc h)
confirmed-inr accept error (some a) k h = ground arith

-- The long period is set: it was there, or it was not and was written and shown last. `left` are the
-- reads still to come.
abbrev pub IsArming : Driver → Kernel → Kernel → List Command → List (Option Kernel) → Type 0
IsArming d kernel armed commands left =
    ((¬ (kernel.debug ≡ pos 0))
      × (kernel.threshold_minutes ≡ pos 71582)
      × (armed ≡ kernel)
      × (commands ≡ [])
      × (left ≡ d.reads))
    ⊎ (((kernel.debug ≡ pos 0) ⊎ (¬ (kernel.threshold_minutes ≡ pos 71582)))
        × (armed.threshold_minutes ≡ pos 71582)
        × (commands ≡ charge_threshold 71582 ∷ [])
        × ReadBack d.reads armed left)

set_threshold-inr :
    (d : Driver) (minutes : ℕ) (k : Kernel)
    → (set_threshold d minutes).1 ≡ inr k
    → ((set_threshold d minutes).0.written ≡ d.written ++ (charge_threshold minutes ∷ []))
      × (k.threshold_minutes ≡ pos minutes)
      × ReadBack d.reads k (set_threshold d minutes).0.reads
unfolding set_threshold
set_threshold-inr d minutes k h =
    let accept : Kernel → Bool = λ k. int_eq k.threshold_minutes (pos minutes) in
    let first = write d (charge_threshold minutes) in
    elim (Bool-cases first.1) [
      | inr e ↦ absurd (cc (rw (set_threshold, e) at h))
      | inl e ↦
          let (a, t) = confirmed-inr accept _ _ k (rw (set_threshold, e) at h) in
          let (skipped, s) = settle-ReadBack accept first.0 k a in
          rw (set_threshold, e)
            (
              settle-written accept first.0 ∙ write-true d (charge_threshold minutes) e,
              int_eq-true k.threshold_minutes (pos minutes) t,
              (skipped, sym (write-reads d (charge_threshold minutes)) ∙ s),
            )
    ]

-- Where `enforce` succeeds with `k` and `r`: `armed` has the long period, `commands` were written for
-- it, and then either nothing was done or a release was.
pub record IsEnforced (info : Answer) (d d' : Driver) (kernel k : Kernel) (r : Bool) : Type 0 where
  pub armed : Kernel
  pub commands : List Command
  pub between : Driver
  pub arming : IsArming d kernel armed commands between.reads
  pub armed_writes : between.written ≡ d.written ++ commands
  pub outcome :
      ((r ≡ false)
        × ((¬ (IsHolding info kernel)) ⊎ (armed.policy ≡ pos 5))
        × (k ≡ armed)
        × (d' ≡ between))
      ⊎ ((r ≡ true)
          × IsHolding info kernel
          × (¬ (armed.policy ≡ pos 5))
          × IsReleased between d' armed k)

not_released :
    (info : Answer) (kernel armed : Kernel)
    → holding info kernel && not (int_eq armed.policy (pos 5)) ≡ false
    → (¬ (IsHolding info kernel)) ⊎ (armed.policy ≡ pos 5)
not_released info kernel armed h = elim (Bool-cases (holding info kernel)) [
  | inr e ↦ inl (holding-false info kernel e)
  | inl e ↦ inr (int_eq-true armed.policy (pos 5) (ground (arith, h, e)))
]

enforce_release-IsEnforced :
    (info : Answer) (d between : Driver) (kernel armed k : Kernel) (r : Bool)
    (commands : List Command)
    → IsArming d kernel armed commands between.reads
    → between.written ≡ d.written ++ commands
    → (enforce_release (holding info kernel) between (inr armed)).1 ≡ inr (k, r)
    → IsEnforced info d (enforce_release (holding info kernel) between (inr armed)).0 kernel k r
unfolding enforce_release
enforce_release-IsEnforced info d between kernel armed k r commands a w h =
    elim (Bool-cases (holding info kernel && not (int_eq armed.policy (pos 5)))) [
      | inr e ↦
          let pair : inr (armed, false) ≡ inr (k, r) = rw (enforce_release, e) at h in
          rw (enforce_release, e)
            (record {
              armed = armed;
              commands = commands;
              between = between;
              arming = a;
              armed_writes = w;
              outcome = inl (cc pair, not_released info kernel armed e, cc pair, refl);
            })
      | inl e ↦ elim (Sum-cases (release_hold between armed).1) [
        | inl (error, g) ↦ absurd (cc (rw (enforce_release, e, g) at h))
        | inr (k', g) ↦
            let pair : inr (k', true) ≡ inr (k, r) = rw (enforce_release, e, g) at h in
            let same : k' ≡ k = cc pair in
            let done = release_hold-inr between armed k' g in
            rw (enforce_release, e)
              (record {
                armed = armed;
                commands = commands;
                between = between;
                arming = a;
                armed_writes = w;
                outcome = inr (
                  cc pair,
                  holding-IsHolding info kernel (ground (arith, e)),
                  int_eq-false armed.policy (pos 5) (ground (arith, e)),
                  rw (← same) done,
                );
              })
      ]
    ]

set_threshold-IsEnforced :
    (info : Answer) (d : Driver) (kernel k : Kernel) (r : Bool) (after : Error ⊎ Kernel)
    → (kernel.debug ≡ pos 0) ⊎ (¬ (kernel.threshold_minutes ≡ pos 71582))
    → (set_threshold d 71582).1 ≡ after
    → (enforce_release (holding info kernel) (set_threshold d 71582).0 after).1 ≡ inr (k, r)
    → IsEnforced info d
        (enforce_release (holding info kernel) (set_threshold d 71582).0 after).0
        kernel
        k
        r
unfolding enforce_release
set_threshold-IsEnforced info d kernel k r (inl error) n a h = absurd (cc h)
set_threshold-IsEnforced info d kernel k r (inr armed) n a h =
    let (w, t, s) = set_threshold-inr d 71582 armed a in
    enforce_release-IsEnforced info d (set_threshold d 71582).0 kernel armed k r
      (charge_threshold 71582 ∷ []) (inr (n, t, refl, s)) w h

-- Whatever the driver shows, the stock services answer and whichever writes fail: where `enforce`
-- succeeds, the period of 71582 minutes was there or was written and shown last; and either no hold was
-- running or the policy is ZGD (5) and nothing else was written, or a hold was running, and another
-- charge policy and then the one that was read were written, and the driver showed it last, out of
-- mode 2.
pub enforce-IsEnforced :
    (info : Answer) (d : Driver) (kernel k : Kernel) (r : Bool)
    → (enforce info d kernel).1 ≡ inr (k, r)
    → IsEnforced info d (enforce info d kernel).0 kernel k r
unfolding enforce
enforce-IsEnforced info d kernel k r h =
    let fresh = int_eq kernel.debug (pos 0) in
    let long = int_eq kernel.threshold_minutes (pos 71582) in
    elim (Bool-cases fresh) [
      | inl e ↦
          rw (enforce, e)
            (set_threshold-IsEnforced info d kernel k r (set_threshold d 71582).1
              (inl (int_eq-true kernel.debug (pos 0) e)) refl (rw (enforce, e) at h))
      | inr e ↦ elim (Bool-cases long) [
        | inr t ↦
            rw (enforce, e, t)
              (set_threshold-IsEnforced info d kernel k r (set_threshold d 71582).1
                (inr (int_eq-false kernel.threshold_minutes (pos 71582) t)) refl
                (rw (enforce, e, t) at h))
        | inl t ↦
            rw (enforce, e, t)
              (enforce_release-IsEnforced info d d kernel kernel k r []
                (inl (
                  int_eq-false kernel.debug (pos 0) e,
                  int_eq-true kernel.threshold_minutes (pos 71582) t,
                  refl,
                  refl,
                  refl,
                ))
                (sym (append_nil d.written)) (rw (enforce, e, t) at h))
      ]
    ]
