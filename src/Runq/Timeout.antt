-- ===== src/Runq/Timeout.antt =====
-- usr.sbin/smtpd/runq.c: runq_timeout().
use open_smtpd.Base.{
  ℕ, zero, suc, ◌≤◌, ◌<◌, ◌≡◌, refl, sym, subst, ◌∙◌, none, some, List, [], ◌∷◌, true, false, ltb,
  leb, arith, if◌then◌else◌, All, Bool-cases, inl, inr,
}
use open_smtpd.Runq.{Job, Runq, runq_reset, first_timer, timeout_loop, runq_timeout}
use open_smtpd.Runq.Order.{Sorted, All-lt}
use open_smtpd.Runq.Timer.{IsValid, Armed, first_timer-Armed}

-- How many jobs are due.
pub due : ℕ → List Job → ℕ
due now [] = 0
due now (job ∷ jobs) = let rest = due now jobs in if leb job.when now then suc rest else rest

-- What the loop relies on from a callback: called while the timeout runs, it keeps the jobs in
-- order, adds none that is due already, and returns while the timeout still runs.
pub record IsCallback (now : ℕ) (cb : Runq → ℕ → Runq) : Type 0 where
  pub in_order : (q : Runq) (arg : ℕ) → q.active ≡ true → Sorted q.jobs → Sorted (cb q arg).jobs
  pub no_due : (q : Runq) (arg : ℕ) → q.active ≡ true → due now (cb q arg).jobs ≤ due now q.jobs
  pub running : (q : Runq) (arg : ℕ) → q.active ≡ true → (cb q arg).active ≡ true
  pub no_timer : (q : Runq) (arg : ℕ) → q.active ≡ true → (cb q arg).timer ≡ q.timer

-- The state in which the loop ends.
record IsDone (now : ℕ) (q : Runq) : Type 0 where
  sorted : Sorted q.jobs
  later : All (λ k. now < k.when) q.jobs
  timer : q.timer ≡ none

timeout_loop-IsDone :
    (f : ℕ) (cb : Runq → ℕ → Runq) (now : ℕ) (q : Runq) (js : List Job)
    → IsCallback now cb
    → q.jobs ≡ js
    → due now js < f
    → Sorted js
    → q.active ≡ true
    → q.timer ≡ none
    → (q' : Runq) × (timeout_loop f cb now q ≡ some q') × IsDone now q'
unfolding timeout_loop due
timeout_loop-IsDone zero cb now q js c e h s a t = absurd (omega arith)
timeout_loop-IsDone (suc f) cb now q [] c e h s a t =
    (q, ground (arith, e), record { sorted = rw e tt; later = rw e tt; timer = t })
timeout_loop-IsDone (suc f) cb now q (job ∷ jobs) c e h s a t =
    elim (Bool-cases (ltb now job.when)) [
      | inl early ↦
          let less : now < job.when = ground arith in
          (
            q,
            ground (arith, e, early),
            record {
              sorted = rw e s;
              later = rw e (less, All-lt now job.when jobs less s.0);
              timer = t;
            },
          )
      | inr over ↦
          let q1 = record q { jobs = jobs } in
          let q2 = cb q1 job.arg in
          let (q', r, d) =
            timeout_loop-IsDone f cb now q2 q2.jobs c refl (ground (arith, c.no_due q1 job.arg a))
              (c.in_order q1 job.arg a s.1) (c.running q1 job.arg a)
              (c.no_timer q1 job.arg a ∙ t) in
          (q', ground (arith, e, over, r), d)
    ]

-- For a queue in order, and a callback that keeps it so, adds no due job and touches neither the
-- timer nor the mark that the timeout runs, as many rounds as there are due jobs, and one, are
-- enough for runq_timeout(). It ends with the timeout not running, no due job left, the others in
-- order, and the timer set for the first of them.
pub timeout_lem :
    (cb : Runq → ℕ → Runq) (now later : ℕ) (q : Runq)
    → IsCallback now cb
    → Sorted q.jobs
    → (q' : Runq) × (runq_timeout (suc (due now q.jobs)) cb now later q ≡ some q')
      × All (λ k. now < k.when) q'.jobs
      × (q'.active ≡ false)
      × IsValid later q'
unfolding runq_timeout runq_reset
timeout_lem cb now later q c s =
    let q0 = record q { active = true; timer = none } in
    let (q1, e, d) =
      timeout_loop-IsDone (suc (due now q.jobs)) cb now q0 q.jobs c refl (omega arith) s refl
        refl in
    (
      runq_reset later (record q1 { active = false }),
      ground (arith, e),
      d.later,
      refl,
      record {
        sorted = d.sorted;
        armed = inr (
            subst (λ t. Armed later q1.jobs (first_timer later q1.jobs t)) (sym d.timer)
              (first_timer-Armed later q1.jobs));
      },
    )
