-- ===== src/Ramqueue/Admin.antt =====
-- usr.sbin/smtpd/scheduler_ramqueue.c: scheduler_ram_schedule(), _remove(), _suspend(), _resume()
-- and _query(), for one envelope, or for a message, whose id has no more than 32 bits. The first
-- argument of a handler is what time(NULL) gives.
use open_smtpd.Base.{
  ℕ, ◌+◌, ◌-◌, ◌^◌, Bool, true, false, Option, none, some, List, [], ◌∷◌, ltb, map, if◌then◌else◌,
  ◌>>=◌, map_some,
}
use open_smtpd.Tree.{tree_get}
use open_smtpd.Ramqueue.Types.{RqEnvelope, Ram, evpid_to_msgid}
use open_smtpd.Ramqueue.Queue.{find_envelope}
use open_smtpd.Ramqueue.Envelope.{
  rq_envelope_schedule, rq_envelope_remove, rq_envelope_suspend, rq_envelope_resume,
}
use open_smtpd.Ramqueue.Flight.{is_inflight}

-- An operation on one envelope, and whether it counts.
abbrev pub EnvelopeOp : Type 0
EnvelopeOp = Ram → RqEnvelope → Option (Ram × Bool)

-- The loop over the envelopes of a message, which come in the order of their ids.
unfoldable pub for_message : EnvelopeOp → List ℕ → Ram → Option (Ram × ℕ)
for_message op [] r = some (r, 0)
for_message op (id ∷ ids) r = find_envelope r.ramqueue id >>= λ evp. op r evp >>= λ (r1, done).
    map_some (λ (r2, n). (r2, if done then n + 1 else n)) (for_message op ids r1)

-- The frame that the four handlers share.
unfoldable pub on_evpid : EnvelopeOp → ℕ → ℕ → Ram → Option (Ram × ℕ)
on_evpid op now evpid r =
    let r0 = record r { currtime = now } in
    if ltb (2 ^ 32 - 1) evpid
    then elim (find_envelope r.ramqueue evpid) [
      | none ↦ some (r0, 0)
      | some evp ↦ map_some (λ (r1, done). (r1, if done then 1 else 0)) (op r0 evp)
    ]
    else elim (tree_get r.ramqueue.messages evpid) [
      | none ↦ some (r0, 0)
      | some msg ↦ for_message op (map (λ e. e.0) msg.envelopes.entries) r0
    ]

-- What scheduler_ram_schedule() does to an envelope: one in flight is passed over.
unfoldable pub schedule_op : EnvelopeOp
schedule_op r evp =
    if is_inflight evp.state
    then some (r, false)
    else map_some (λ r1. (r1, true)) (rq_envelope_schedule r evp)

unfoldable pub scheduler_ram_schedule : ℕ → ℕ → Ram → Option (Ram × ℕ)
scheduler_ram_schedule = on_evpid schedule_op

unfoldable pub scheduler_ram_remove : ℕ → ℕ → Ram → Option (Ram × ℕ)
scheduler_ram_remove = on_evpid rq_envelope_remove

unfoldable pub scheduler_ram_suspend : ℕ → ℕ → Ram → Option (Ram × ℕ)
scheduler_ram_suspend = on_evpid rq_envelope_suspend

unfoldable pub scheduler_ram_resume : ℕ → ℕ → Ram → Option (Ram × ℕ)
scheduler_ram_resume = on_evpid rq_envelope_resume

unfoldable pub scheduler_ram_query : ℕ → Ram → Bool
scheduler_ram_query evpid r =
    let msgid = if ltb (2 ^ 32 - 1) evpid then evpid_to_msgid evpid else evpid in
    elim (tree_get r.ramqueue.messages msgid) [ none ↦ false | some m ↦ true ]
