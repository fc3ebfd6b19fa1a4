-- ===== src/Ramqueue/Backoff.antt =====
-- usr.sbin/smtpd/scheduler_ramqueue.c: scheduler_backoff() and scheduler_next(). Times are natural
-- numbers and do not overflow `time_t`.
use open_smtpd.Base.{
  ℕ, zero, suc, ◌+◌, ◌*◌, ◌≤◌, ◌<◌, ◌≡◌, refl, Option, none, some, leb, if◌then◌else◌, arith,
  dec_lt,
}
use open_smtpd.Ramqueue.Types.{DeliveryType, d_mta, d_mda, d_bounce}

abbrev pub backoff_transfer : ℕ
backoff_transfer = 400

abbrev pub backoff_delivery : ℕ
backoff_delivery = 10

abbrev pub backoff_overflow : ℕ
backoff_overflow = 3

unfoldable pub scheduler_backoff : ℕ → ℕ → ℕ → ℕ
scheduler_backoff t0 base step = t0 + base * step * step

-- The loop of scheduler_next(), on fuel.
unfoldable pub next_from : ℕ → ℕ → ℕ → ℕ → ℕ → Option ℕ
next_from zero t0 base step now = none
next_from (suc f) t0 base step now =
    let rest = next_from f t0 base (step + 1) now in
    if leb (scheduler_backoff t0 base step) now then rest else some (scheduler_backoff t0 base step)

-- The time is past `now` when the step is, so `now` + 2 rounds are enough.
unfoldable pub scheduler_next : ℕ → ℕ → ℕ → ℕ → Option ℕ
unfolding next_from
scheduler_next now t0 base step = next_from (suc (suc now)) t0 base step now

-- `(type == D_MTA) ? BACKOFF_TRANSFER : BACKOFF_DELIVERY`.
unfoldable pub backoff_base : DeliveryType → ℕ
backoff_base d_mta = backoff_transfer
backoff_base d_mda = backoff_delivery
backoff_base d_bounce = backoff_delivery

pub backoff_base_pos : (t : DeliveryType) → 0 < backoff_base t
unfolding backoff_base
backoff_base_pos d_mta = omega arith
backoff_base_pos d_mda = omega arith
backoff_base_pos d_bounce = omega arith

step-le-backoff : (t0 base step : ℕ) → 0 < base → step ≤ scheduler_backoff t0 base step
unfolding scheduler_backoff
step-le-backoff t0 base zero h = omega arith
step-le-backoff t0 base (suc s) h = grind arith

-- What the loop looks for: the first step, from a given one on, whose time has not come.
pub record Next (now t0 base step t : ℕ) : Type 0 where
  pub at : ℕ
  pub from : step ≤ at
  pub time : t ≡ scheduler_backoff t0 base at
  pub later : now < t
  pub first : (s : ℕ) → step ≤ s → s < at → scheduler_backoff t0 base s ≤ now

-- A loop that starts later finds the same step, if the time of the step before has come.
Next-earlier :
    (now t0 base step t : ℕ)
    → scheduler_backoff t0 base step ≤ now
    → Next now t0 base (step + 1) t
    → Next now t0 base step t
Next-earlier now t0 base step t come n = record {
  at = n.at;
  from = omega (arith, n.from);
  time = n.time;
  later = n.later;
  first = λ s low high. elim (dec_lt step s) [
    | yes after ↦ n.first s (omega arith) high
    | no here ↦ let e : s ≡ step = omega arith in rw e come
  ];
}

found_now :
    (f now t0 base step : ℕ)
    → now < scheduler_backoff t0 base step
    → (t : ℕ) × (next_from (suc f) t0 base step now ≡ some t) × Next now t0 base step t
unfolding next_from
found_now f now t0 base step late = (
  scheduler_backoff t0 base step,
  ground arith,
  record {
    at = step;
    from = omega arith;
    time = refl;
    later = late;
    first = λ s low high. absurd (omega arith);
  },
)

next_from-Next :
    (f now t0 base step : ℕ)
    → 0 < base
    → now < step + f
    → (t : ℕ) × (next_from (suc f) t0 base step now ≡ some t) × Next now t0 base step t
unfolding next_from
next_from-Next zero now t0 base step p h =
    found_now 0 now t0 base step (omega (arith, step-le-backoff t0 base step p))
next_from-Next (suc f) now t0 base step p h = elim (dec_lt now (scheduler_backoff t0 base step)) [
  | yes late ↦ found_now (suc f) now t0 base step late
  | no come ↦
      let (t, e, n) = next_from-Next f now t0 base (step + 1) p (omega arith) in
      (t, ground arith, Next-earlier now t0 base step t (omega arith) n)
]

-- For a positive base scheduler_next() ends, and gives the time of the first step, from the given
-- one on, that lies after the current time.
pub scheduler_next-Next :
    (now t0 base step : ℕ)
    → 0 < base
    → (t : ℕ) × (scheduler_next now t0 base step ≡ some t) × Next now t0 base step t
unfolding scheduler_next
scheduler_next-Next now t0 base step p = next_from-Next (suc now) now t0 base step p (omega arith)
