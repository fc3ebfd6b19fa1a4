-- ===== src/Runq/Order.antt =====
-- usr.sbin/smtpd/runq.c: the order of the jobs.
use open_smtpd.Base.{
  ℕ, ◌≤◌, ◌<◌, ◌≡◌, refl, some, List, [], ◌∷◌, ◌++◌, ltb, All, arith, ap, Bool-cases, Option-cases,
  inl, inr,
}
use open_smtpd.Runq.{Job, insert_job, cancel_job}

-- The jobs stand in the order of their times.
abbrev pub Sorted : List Job → Type 0
Sorted [] = Unit
Sorted (j ∷ js) = All (λ k. j.when ≤ k.when) js × Sorted js

All-le_trans :
    (n m : ℕ) (js : List Job) → n ≤ m → All (λ k. m ≤ k.when) js → All (λ k. n ≤ k.when) js
All-le_trans n m [] h a = tt
All-le_trans n m (j ∷ js) h a = (omega (arith, a.0), All-le_trans n m js h a.1)

pub All-lt : (n m : ℕ) (js : List Job) → n < m → All (λ k. m ≤ k.when) js → All (λ k. n < k.when) js
All-lt n m [] h a = tt
All-lt n m (j ∷ js) h a = (omega (arith, a.0), All-lt n m js h a.1)

All-insert :
    (n : ℕ) (job : Job) (js : List Job)
    → n ≤ job.when
    → All (λ k. n ≤ k.when) js
    → All (λ k. n ≤ k.when) (insert_job job js)
unfolding insert_job
All-insert n job [] h a = (h, tt)
All-insert n job (j ∷ js) h a = ground (arith, All-insert n job js h a.1)

pub insert_job-Sorted : (job : Job) (js : List Job) → Sorted js → Sorted (insert_job job js)
unfolding insert_job
insert_job-Sorted job [] s = (tt, tt)
insert_job-Sorted job (j ∷ js) s =
    ground (
      arith,
      insert_job-Sorted job js s.1,
      All-insert j.when job js,
      All-le_trans job.when j.when js,
    )

All-cancel :
    (n arg : ℕ) (js ks : List Job)
    → cancel_job arg js ≡ some ks
    → All (λ k. n ≤ k.when) js
    → All (λ k. n ≤ k.when) ks
unfolding cancel_job
All-cancel n arg [] ks h a = absurd (ground arith)
All-cancel n arg (j ∷ js) ks h a = elim (Option-cases (cancel_job arg js)) [
  | inl e ↦ ground (arith, e)
  | inr (ls, e) ↦ ground (arith, e, All-cancel n arg js ls e a.1)
]

pub cancel_job-Sorted :
    (arg : ℕ) (js ks : List Job) → cancel_job arg js ≡ some ks → Sorted js → Sorted ks
unfolding cancel_job
cancel_job-Sorted arg [] ks h s = absurd (ground arith)
cancel_job-Sorted arg (j ∷ js) ks h s = elim (Option-cases (cancel_job arg js)) [
  | inl e ↦ ground (arith, e)
  | inr (ls, e) ↦
      ground (arith, e, cancel_job-Sorted arg js ls e s.1, All-cancel j.when arg js ls e s.0)
]

-- Into jobs in order, a new job is put behind every job that is not later, and before every job
-- that is, and the others stay in their order.
pub insert_job_place :
    (job : Job) (js : List Job)
    → Sorted js
    → (before : List Job) × (after : List Job) × (js ≡ before ++ after)
      × (insert_job job js ≡ before ++ (job ∷ after))
      × All (λ k. k.when ≤ job.when) before
      × All (λ k. job.when < k.when) after
unfolding insert_job
insert_job_place job [] s = ([], [], refl, refl, tt, tt)
insert_job_place job (j ∷ js) s = elim (Bool-cases (ltb job.when j.when)) [
  | inl earlier ↦
      let less : job.when < j.when = ground arith in
      ([], j ∷ js, refl, ground arith, tt, (less, All-lt job.when j.when js less s.0))
  | inr later ↦
      let (b, a, e, i, x, y) = insert_job_place job js s.1 in
      (j ∷ b, a, ap (λ (t : List Job). j ∷ t) e, ground (arith, i), (ground arith, x), y)
]
