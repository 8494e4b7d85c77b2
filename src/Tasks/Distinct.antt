-- ===== src/Tasks/Distinct.antt =====
-- Tasks whose ids are distinct, and what adding and removing one keeps.
use zwrt_datad.Prelude.{
  ◌≤◌, ◌≡◌, refl, ◌∙◌, inl, inr, Bool, true, false, none, List, [], ◌∷◌, ◌++◌, arith, length,
  length-append, length-retain, retain, all, all-append, ◌==◌, Bool-cases,
}
use zwrt_datad.Prelude.Text.{Bytes, text_eq, text_eq_iff, one_of}
use zwrt_datad.Tasks.{
  TaskInput, Task, Stored, input_valid, task_valid, distinct, stored_valid, replaced, fresh_task,
}
use zwrt_datad.Tasks.Kept.{Kept, fresh_valid}

text_eq_sym : (s t : Bytes) → text_eq s t ≡ text_eq t s
text_eq_sym s t = ground (arith, text_eq_iff s t, text_eq_iff t s)

-- A task whose id is neither seen nor among the tasks can stand behind them.
distinct-append :
    (seen : List Bytes) (tasks : List Task) (input : TaskInput)
    → distinct seen tasks ≡ true
    → replaced input tasks ≡ none
    → one_of input.id seen ≡ false
    → distinct seen (tasks ++ (fresh_task input ∷ [])) ≡ true
unfolding distinct replaced one_of
distinct-append seen [] input d n o = ground arith
distinct-append seen (task ∷ tasks) input d n o =
    ground (
      arith,
      text_eq_sym input.id task.input.id,
      distinct-append (task.input.id ∷ seen) tasks input,
    )

both_seen :
    (id x : Bytes) (seen seen' : List Bytes)
    → (one_of x seen' ≡ true → one_of x seen ≡ true)
    → one_of x (id ∷ seen') ≡ true
    → one_of x (id ∷ seen) ≡ true
unfolding one_of
both_seen id x seen seen' s h = ground (arith, s)

one_more_seen :
    (id x : Bytes) (seen : List Bytes) → one_of x seen ≡ true → one_of x (id ∷ seen) ≡ true
unfolding one_of
one_more_seen id x seen h = ground arith

-- Fewer ids seen, and fewer tasks.
distinct-fewer :
    (seen seen' : List Bytes) (p : Task → Bool) (tasks : List Task)
    → ((id : Bytes) → one_of id seen' ≡ true → one_of id seen ≡ true)
    → distinct seen tasks ≡ true
    → distinct seen' (retain p tasks) ≡ true
unfolding distinct
distinct-fewer seen seen' p [] s d = refl
distinct-fewer seen seen' p (task ∷ tasks) s d =
    let id = task.input.id in
    let tail : distinct (id ∷ seen) tasks ≡ true = ground arith in
    let kept =
      distinct-fewer (id ∷ seen) (id ∷ seen') p tasks (λ x h. both_seen id x seen seen' (s x) h)
        tail in
    let dropped =
      distinct-fewer (id ∷ seen) seen' p tasks (λ x h. one_more_seen id x seen (s x h)) tail in
    elim (Bool-cases (p task)) [ inl e ↦ rw e (ground (arith, s id, kept)) | inr e ↦ rw e dropped ]

-- The parts of `stored_valid`, for the tasks alone.
pub record AreValid (tasks : List Task) : Type 0 where
  pub at_most : length tasks ≤ 16
  pub each_valid : all task_valid tasks ≡ true
  pub apart : distinct [] tasks ≡ true

pub stored_valid-AreValid : (s : Stored) → stored_valid s ≡ true → (s.schema ≡ 1) × AreValid s.tasks
unfolding stored_valid
stored_valid-AreValid s h = (
  ground arith,
  record { at_most = ground arith; each_valid = ground arith; apart = ground arith },
)

pub AreValid-stored_valid : (s : Stored) → s.schema ≡ 1 → AreValid s.tasks → stored_valid s ≡ true
unfolding stored_valid
AreValid-stored_valid s e v = ground (arith, v.at_most, v.each_valid, v.apart)

pub Kept-AreValid :
    (tasks tasks' : List Task) → Kept tasks tasks' → AreValid tasks → AreValid tasks'
Kept-AreValid tasks tasks' k v = record {
  at_most = omega (arith, k.length_kept, v.at_most);
  each_valid = k.valid_kept v.each_valid;
  apart = k.distinct_kept [] ∙ v.apart;
}

all-retain {ℓ} :
    {A : Type ℓ} (q p : A → Bool) (xs : List A) → all q xs ≡ true → all q (retain p xs) ≡ true
all-retain q p [] h = refl
all-retain q p (x ∷ xs) h = ground (arith, all-retain q p xs)

pub retain-AreValid :
    (p : Task → Bool) (tasks : List Task) → AreValid tasks → AreValid (retain p tasks)
retain-AreValid p tasks v = record {
  at_most = omega (arith, length-retain p tasks, v.at_most);
  each_valid = all-retain task_valid p tasks v.each_valid;
  apart = distinct-fewer [] [] p tasks (λ id h. h) v.apart;
}

pub append-AreValid :
    (input : TaskInput) (tasks : List Task)
    → input_valid input ≡ true
    → replaced input tasks ≡ none
    → (length tasks == 16) ≡ false
    → AreValid tasks
    → AreValid (tasks ++ (fresh_task input ∷ []))
append-AreValid input tasks i n f v = record {
  at_most = ground (arith, length-append tasks (fresh_task input ∷ []), v.at_most);
  each_valid =
      rw (all-append task_valid tasks (fresh_task input ∷ []), v.each_valid, fresh_valid input i)
        refl;
  apart = distinct-append [] tasks input v.apart n (unfold one_of in refl);
}
