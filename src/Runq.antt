-- ===== src/Runq.antt =====
-- usr.sbin/smtpd/runq.c: jobs that wait for a time, under one timer. A job is known by its argument.
-- The timer stands for the time at which it fires. Times come in as arguments: what time() gives.
pub mod Order
pub mod Timer
pub mod Timeout
mod Tests
use open_smtpd.Base.{
  ℕ, zero, suc, ◌+◌, ◌-◌, Bool, true, false, Option, none, some, List, [], ◌∷◌, ltb, leb, ◌==◌, not,
  ◌&&◌, if◌then◌else◌,
}

-- struct job.
pub record Job : Type 0 where
  pub when : ℕ
  pub arg : ℕ

-- struct runq; `active` says whether the static variable `active` is this queue.
pub record Runq : Type 0 where
  pub jobs : List Job
  pub timer : Option ℕ
  pub active : Bool

unfoldable pub runq_init : Runq
runq_init = record { jobs = []; timer = none; active = false }

-- The timer that runq_reset() sets: evtimer_add() after `tv_sec` seconds, or at once. With no job
-- the timer stays as it is.
unfoldable pub first_timer : ℕ → List Job → Option ℕ → Option ℕ
first_timer now [] timer = timer
first_timer now (job ∷ jobs) timer = some (now + (if leb job.when now then 0 else job.when - now))

unfoldable pub runq_reset : ℕ → Runq → Runq
unfolding first_timer
runq_reset now q = record q { timer = first_timer now q.jobs q.timer }

-- The loop of runq_schedule_at(): before the first job that is later, or at the end.
unfoldable pub insert_job : Job → List Job → List Job
insert_job job [] = job ∷ []
insert_job job (tmpjob ∷ jobs) =
    if ltb job.when tmpjob.when then job ∷ tmpjob ∷ jobs else tmpjob ∷ insert_job job jobs

-- Whether insert_job() makes the job the first.
unfoldable pub becomes_first : Job → List Job → Bool
becomes_first job [] = true
becomes_first job (tmpjob ∷ jobs) = ltb job.when tmpjob.when

-- The result is always 1: memory is taken not to run out.
unfoldable pub runq_schedule_at : ℕ → Runq → ℕ → ℕ → Runq
unfolding insert_job becomes_first runq_reset
runq_schedule_at now q when arg =
    let job : Job = record { when = when; arg = arg } in
    let q' = record q { jobs = insert_job job q.jobs } in
    if not q.active && becomes_first job q.jobs
    then runq_reset now (record q' { timer = none })
    else q'

unfoldable pub runq_schedule : ℕ → ℕ → Runq → ℕ → ℕ → Runq
unfolding runq_schedule_at
runq_schedule t now q delay arg = runq_schedule_at now q (t + delay) arg

-- The loop of runq_cancel(), without the first job that has the argument: `none` if there is none.
unfoldable pub cancel_job : ℕ → List Job → Option (List Job)
cancel_job arg [] = none
cancel_job arg (job ∷ jobs) =
    let rest = cancel_job arg jobs in
    if job.arg == arg then some jobs else elim rest [ none ↦ none | some js ↦ some (job ∷ js) ]

unfoldable pub is_first : ℕ → List Job → Bool
is_first arg [] = false
is_first arg (job ∷ jobs) = job.arg == arg

unfoldable pub runq_cancel : ℕ → Runq → ℕ → Runq × Bool
unfolding cancel_job is_first runq_reset
runq_cancel now q arg = elim (cancel_job arg q.jobs) [
  | none ↦ (q, false)
  | some jobs ↦
      let q' = record q { jobs = jobs } in
      (
        if not q.active && is_first arg q.jobs
            then runq_reset now (record q' { timer = none })
            else q',
        true,
      )
]

unfoldable pub pending_in : ℕ → List Job → Option ℕ
pending_in arg [] = none
pending_in arg (job ∷ jobs) =
    let rest = pending_in arg jobs in if job.arg == arg then some job.when else rest

-- The time of the first job with the argument; `none` is 0.
unfoldable pub runq_pending : Runq → ℕ → Option ℕ
unfolding pending_in
runq_pending q arg = pending_in arg q.jobs

-- The loop of runq_timeout(), on fuel. The callback is given the queue, which it may change, and the
-- job's argument; `none` means that the fuel ran out.
unfoldable pub timeout_loop : ℕ → (Runq → ℕ → Runq) → ℕ → Runq → Option Runq
timeout_loop zero cb now q = none
timeout_loop (suc f) cb now q = elim q.jobs [
  | [] ↦ some q
  | job ∷ jobs ↦ elim (ltb now job.when) [
    | true ↦ some q
    | false ↦ timeout_loop f cb now (cb (record q { jobs = jobs }) job.arg)
  ]
]

-- `now` is the time at the start, and `later` the time in runq_reset() at the end.
unfoldable pub runq_timeout : ℕ → (Runq → ℕ → Runq) → ℕ → ℕ → Runq → Option Runq
unfolding timeout_loop runq_reset
runq_timeout f cb now later q =
    elim (timeout_loop f cb now (record q { active = true; timer = none })) [
      | none ↦ none
      | some q' ↦ some (runq_reset later (record q' { active = false }))
    ]
