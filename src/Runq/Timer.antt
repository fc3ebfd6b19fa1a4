-- ===== src/Runq/Timer.antt =====
-- usr.sbin/smtpd/runq.c: the timer of a queue whose timeout is not running.
use open_smtpd.Base.{
  ℕ, ◌≤◌, ◌≡◌, refl, subst, ◌⊎◌, Option, none, some, List, [], ◌∷◌, true, false, leb, arith,
  if◌then◌else◌, Bool-cases, Option-cases, inl, inr,
}
use open_smtpd.Runq.{
  Job, Runq, insert_job, becomes_first, cancel_job, is_first, first_timer, runq_reset,
  runq_schedule_at, runq_cancel,
}
use open_smtpd.Runq.Order.{Sorted, insert_job-Sorted, cancel_job-Sorted}

-- With no job there is no timer. Otherwise the timer, which was set at some time up to `now`, fires
-- when the first job is due, or at once if that was due when it was set.
abbrev pub Armed : ℕ → List Job → Option ℕ → Type 0
Armed now [] timer = timer ≡ none
Armed now (job ∷ jobs) timer =
    (set : ℕ) × (set ≤ now) × (timer ≡ some (if leb job.when set then set else job.when))

pub record IsValid (now : ℕ) (q : Runq) : Type 0 where
  pub sorted : Sorted q.jobs
  pub armed : (q.active ≡ true) ⊎ Armed now q.jobs q.timer

idle-Armed : (now : ℕ) (q : Runq) → IsValid now q → q.active ≡ false → Armed now q.jobs q.timer
idle-Armed now q v idle = elim v.armed [ inl busy ↦ absurd (ground arith) | inr a ↦ a ]

pub first_timer-Armed : (now : ℕ) (js : List Job) → Armed now js (first_timer now js none)
unfolding first_timer
first_timer-Armed now [] = refl
first_timer-Armed now (j ∷ js) = (now, omega arith, ground arith)

Armed-mono :
    (now later : ℕ) (js : List Job) (t : Option ℕ) → now ≤ later → Armed now js t → Armed later js t
Armed-mono now later [] t h a = a
Armed-mono now later (j ∷ js) t h a = (a.0, omega (arith, a.1), a.2)

-- A job that does not become the first leaves the first where it is.
insert_behind-Armed :
    (now : ℕ) (job : Job) (js : List Job) (t : Option ℕ)
    → becomes_first job js ≡ false
    → Armed now js t
    → Armed now (insert_job job js) t
unfolding becomes_first insert_job
insert_behind-Armed now job [] t b a = absurd (ground arith)
insert_behind-Armed now job (j ∷ js) t b a = rw b a

-- If the jobs are in order, and the timer is set for the first of them unless the timeout is
-- running, then this holds after runq_schedule_at() at the same or a later time.
pub schedule_at-IsValid :
    (before now : ℕ) (q : Runq) (when arg : ℕ)
    → before ≤ now
    → IsValid before q
    → IsValid now (runq_schedule_at now q when arg)
unfolding runq_schedule_at runq_reset
schedule_at-IsValid before now q when arg h v =
    let job : Job = record { when = when; arg = arg } in
    let s = insert_job-Sorted job q.jobs v.sorted in
    elim (Bool-cases q.active) [
      | inl busy ↦ rw (busy, runq_schedule_at) (record { sorted = s; armed = inl refl })
      | inr idle ↦ elim (Bool-cases (becomes_first job q.jobs)) [
        | inl first ↦
            rw (idle, first, runq_schedule_at)
              (record { sorted = s; armed = inr (first_timer-Armed now (insert_job job q.jobs)) })
        | inr behind ↦
            rw (idle, behind, runq_schedule_at)
              (record {
                sorted = s;
                armed = inr (
                    insert_behind-Armed now job q.jobs q.timer behind
                      (Armed-mono before now q.jobs q.timer h (idle-Armed before q v idle)));
              })
      ]
    ]

cancel_behind-Armed :
    (now arg : ℕ) (js ks : List Job) (t : Option ℕ)
    → cancel_job arg js ≡ some ks
    → is_first arg js ≡ false
    → Armed now js t
    → Armed now ks t
unfolding is_first cancel_job
cancel_behind-Armed now arg [] ks t c b a = absurd (ground arith)
cancel_behind-Armed now arg (j ∷ js) ks t c b a = elim (Option-cases (cancel_job arg js)) [
  | inl e ↦ absurd (ground (arith, e))
  | inr (ls, e) ↦ let same : (j ∷ ls) ≡ ks = ground (arith, e) in subst (λ k. Armed now k t) same a
]

-- If the jobs are in order, and the timer is set for the first of them unless the timeout is
-- running, then this holds after runq_cancel() at the same or a later time, whether or not it
-- finds the job. Without a job there is no timer.
pub cancel-IsValid :
    (before now : ℕ) (q : Runq) (arg : ℕ)
    → before ≤ now
    → IsValid before q
    → IsValid now (runq_cancel now q arg).0
unfolding runq_cancel runq_reset
cancel-IsValid before now q arg h v = elim (Option-cases (cancel_job arg q.jobs)) [
  | inl e ↦
      rw (e, runq_cancel)
        (record {
          sorted = v.sorted;
          armed = elim v.armed [
            | inl busy ↦ inl busy
            | inr a ↦ inr (Armed-mono before now q.jobs q.timer h a)
          ];
        })
  | inr (ks, e) ↦
      let o = cancel_job-Sorted arg q.jobs ks e v.sorted in
      rw (e, runq_cancel)
        (elim (Bool-cases q.active) [
          | inl busy ↦ rw (busy, runq_cancel) (record { sorted = o; armed = inl refl })
          | inr idle ↦ elim (Bool-cases (is_first arg q.jobs)) [
            | inl first ↦
                rw (idle, first, runq_cancel)
                  (record { sorted = o; armed = inr (first_timer-Armed now ks) })
            | inr behind ↦
                rw (idle, behind, runq_cancel)
                  (record {
                    sorted = o;
                    armed = inr (
                        cancel_behind-Armed now arg q.jobs ks q.timer e behind
                          (Armed-mono before now q.jobs q.timer h (idle-Armed before q v idle)));
                  })
          ]
        ])
]
