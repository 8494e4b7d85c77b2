-- ===== src/Charge/Release.antt =====
-- What a release does to the driver.
use zwrt_datad.Prelude.{
  ◌≡◌, refl, sym, ap, ◌∙◌, Bool, true, false, Option, none, some, ◌⊎◌, inl, inr, [], ◌∷◌, ◌++◌,
  arith, Bool-cases,
}
use zwrt_datad.Prelude.Int.{ℤ, pos}
use mathlib.Core.List.{append_assoc}
use zwrt_datad.Charge.{
  Kernel, charge_policy, Driver, int_eq, write, released, is_released, other_policy, release_hold,
}
use zwrt_datad.Charge.Reads.{ReadBack, settle-written, write-true, write-reads, settle-ReadBack}
use zwrt_datad.Charge.Holding.{int_eq-true, int_eq-false}

-- A release, from the driver `d` to `d'`: one other policy is written and then the one of `armed`, and
-- the driver showed `k` last, with that policy and out of mode 2.
pub record IsReleased (d d' : Driver) (armed k : Kernel) : Type 0 where
  pub other : ℤ
  pub zero_or_one : (other ≡ pos 0) ⊎ (other ≡ pos 1)
  pub differs : ¬ (other ≡ armed.policy)
  pub writes : d'.written ≡ d.written ++ (charge_policy other ∷ charge_policy armed.policy ∷ [])
  pub policy_back : k.policy ≡ armed.policy
  pub out_of_mode : ¬ (k.mode ≡ pos 2)
  pub shown : ReadBack d.reads k d'.reads

other_policy-differs : (kernel : Kernel) → ¬ (other_policy kernel ≡ kernel.policy)
unfolding int_eq
other_policy-differs kernel = elim (Bool-cases (int_eq kernel.policy (pos 0))) [
  | inl e ↦
      rw (other_policy, e)
        λ q. int_eq-false (pos 1) (pos 0) refl (q ∙ int_eq-true kernel.policy (pos 0) e)
  | inr e ↦ rw (other_policy, e) λ q. int_eq-false kernel.policy (pos 0) e (sym q)
]

other_policy-values :
    (kernel : Kernel) → (other_policy kernel ≡ pos 0) ⊎ (other_policy kernel ≡ pos 1)
other_policy-values kernel = elim (Bool-cases (int_eq kernel.policy (pos 0))) [
  | inl e ↦ rw (other_policy, e) (inr refl)
  | inr e ↦ rw (other_policy, e) (inl refl)
]

released-inr :
    (kernel k : Kernel) (restored : Bool) (after : Option Kernel)
    → released kernel restored after ≡ inr k
    → (restored ≡ true)
      × (after ≡ some k)
      × (int_eq k.policy kernel.policy ≡ true)
      × (int_eq k.mode (pos 2) ≡ false)
unfolding released
released-inr kernel k restored none h = absurd (ground arith)
released-inr kernel k restored (some a) h = ground arith

pub release_hold-inr :
    (d : Driver) (kernel k : Kernel)
    → (release_hold d kernel).1 ≡ inr k
    → IsReleased d (release_hold d kernel).0 kernel k
unfolding release_hold
release_hold-inr d kernel k h =
    let first = write d (charge_policy (other_policy kernel)) in
    let second = write first.0 (charge_policy kernel.policy) in
    elim (Bool-cases first.1) [
      | inr e ↦ absurd (cc (rw (release_hold, e) at h))
      | inl e ↦
          let (o, a, p, m) = released-inr kernel k second.1 _ (rw (release_hold, e) at h) in
          let (skipped, s) = settle-ReadBack (is_released kernel) second.0 k a in
          rw (release_hold, e)
            (record {
              other = other_policy kernel;
              zero_or_one = other_policy-values kernel;
              differs = other_policy-differs kernel;
              writes =
                  settle-written (is_released kernel) second.0
                  ∙ write-true first.0 (charge_policy kernel.policy) o
                  ∙ ap (λ w. w ++ (charge_policy kernel.policy ∷ []))
                      (write-true d (charge_policy (other_policy kernel)) e)
                  ∙ append_assoc d.written (charge_policy (other_policy kernel) ∷ [])
                      (charge_policy kernel.policy ∷ []);
              policy_back = int_eq-true k.policy kernel.policy p;
              out_of_mode = int_eq-false k.mode (pos 2) m;
              shown = (
                skipped,
                sym (write-reads d (charge_policy (other_policy kernel)))
                    ∙ sym (write-reads first.0 (charge_policy kernel.policy))
                    ∙ s,
              );
            })
    ]
