-- ===== src/Runq/Tests.antt =====
-- usr.sbin/smtpd/runq.c: queues of two jobs at which the theorems are applied.
use open_smtpd.Base.{inr, suc, ◌≤◌, ◌<◌, ◌≡◌, refl, some, List, [], ◌∷◌, ◌++◌, false, All, arith}
use open_smtpd.Runq.{Job, Runq, insert_job, runq_schedule_at, runq_cancel, runq_timeout}
use open_smtpd.Runq.Order.{Sorted, insert_job_place}
use open_smtpd.Runq.Timer.{IsValid, schedule_at-IsValid, cancel-IsValid}
use open_smtpd.Runq.Timeout.{due, IsCallback, timeout_lem}

abbrev jobs : List Job
jobs = record { when = 100; arg = 1 } ∷ record { when = 200; arg = 2 } ∷ []

abbrev waiting : Runq
waiting = record { jobs = jobs; timer = some 100; active = false }

jobs-Sorted : Sorted jobs
jobs-Sorted = ((omega arith, tt), (tt, tt))

waiting-IsValid : IsValid 50 waiting
waiting-IsValid = record { sorted = jobs-Sorted; armed = inr (50, omega arith, refl) }

-- The callback that does nothing.
nothing-IsCallback : IsCallback 150 (λ q _. q)
nothing-IsCallback = record {
  in_order = λ q arg busy s. s;
  no_due = λ q arg busy. omega arith;
  running = λ q arg busy. busy;
  no_timer = λ q arg busy. refl;
}

insert_job_place_example :
    (before : List Job) × (after : List Job) × (jobs ≡ before ++ after)
    × (insert_job (record { when = 100; arg = 3 }) jobs
        ≡ before ++ (record { when = 100; arg = 3 } ∷ after))
    × All (λ k. k.when ≤ 100) before
    × All (λ k. 100 < k.when) after
insert_job_place_example = insert_job_place (record { when = 100; arg = 3 }) jobs jobs-Sorted

schedule_at-IsValid_example : IsValid 60 (runq_schedule_at 60 waiting 70 3)
schedule_at-IsValid_example = schedule_at-IsValid 50 60 waiting 70 3 (omega arith) waiting-IsValid

cancel-IsValid_example : IsValid 60 (runq_cancel 60 waiting 1).0
cancel-IsValid_example = cancel-IsValid 50 60 waiting 1 (omega arith) waiting-IsValid

-- At time 150 the first job is due and the second is not.
timeout_lem_example :
    (q' : Runq) × (runq_timeout (suc (due 150 jobs)) (λ q _. q) 150 151 waiting ≡ some q')
    × All (λ k. 150 < k.when) q'.jobs
    × (q'.active ≡ false)
    × IsValid 151 q'
timeout_lem_example = timeout_lem (λ q _. q) 150 151 waiting nothing-IsCallback jobs-Sorted
