-- ===== src/Ramqueue/Listing.antt =====
-- usr.sbin/smtpd/scheduler_ramqueue.c: scheduler_ram_messages() and scheduler_ram_envelopes(),
-- which list a part of the queue for smtpctl.
use open_smtpd.Base.{
  ℕ, zero, suc, Bool, true, false, Option, none, some, List, [], ◌∷◌, ◌||◌, map_some, length,
}
use open_smtpd.Tree.{Tree, tree_get, tree_iterfrom}
use open_smtpd.Ramqueue.Types.{
  pending, scheduled, inflight, held, RqEnvelope, RqMessage, Ram, evpid_to_msgid,
}

-- struct evpstate, with the bits EF_PENDING, EF_INFLIGHT, EF_HOLD and EF_SUSPEND of its flags as
-- fields. `retry` is always 0.
pub record EvpInfo : Type 0 where
  pub evpid : ℕ
  pub time : ℕ
  pub ef_pending : Bool
  pub ef_inflight : Bool
  pub ef_hold : Bool
  pub ef_suspend : Bool

unfoldable pub messages_loop : ℕ → Tree RqMessage → Option ℕ → ℕ → List ℕ
unfolding tree_iterfrom
messages_loop zero messages i from = []
messages_loop (suc size) messages i from = elim (tree_iterfrom messages i from) [
  | none ↦ []
  | some (id, m) ↦ id ∷ messages_loop size messages (some id) from
]

-- The ids that are written to `dst`; their number is the result.
unfoldable pub scheduler_ram_messages : ℕ → ℕ → Ram → List ℕ
unfolding messages_loop
scheduler_ram_messages from size r = messages_loop size r.ramqueue.messages none from

unfoldable pub evp_info : RqEnvelope → EvpInfo
evp_info evp =
    let info = λ (t : ℕ) (p f h : Bool).
      let i : EvpInfo = record {
        evpid = evp.evpid;
        time = t;
        ef_pending = p;
        ef_inflight = f;
        ef_hold = h;
        ef_suspend = evp.suspend;
      } in
      i in
    elim evp.state [
      | pending ↦ info evp.sched true false false
      | scheduled ↦ info evp.t_scheduled true false false
      | inflight ↦ info evp.t_inflight false true false
      | held ↦ info evp.t_scheduled true false true
    ]

-- The loop, on fuel: each round steps to another envelope, or ends the loop. `size` counts the room
-- that is left.
unfoldable pub envelopes_loop : ℕ → ℕ → Tree RqEnvelope → Option ℕ → ℕ → Option (List EvpInfo)
unfolding tree_iterfrom evp_info
envelopes_loop zero size envelopes i from = none
envelopes_loop (suc f) zero envelopes i from = some []
envelopes_loop (suc f) (suc size) envelopes i from = elim (tree_iterfrom envelopes i from) [
  | none ↦ some []
  | some (id, evp) ↦ elim (evp.removed || evp.expired) [
    | true ↦ envelopes_loop f (suc size) envelopes (some id) from
    | false ↦ map_some (λ is. evp_info evp ∷ is) (envelopes_loop f size envelopes (some id) from)
  ]
]

unfoldable pub scheduler_ram_envelopes : ℕ → ℕ → Ram → Option (List EvpInfo)
unfolding tree_get envelopes_loop
scheduler_ram_envelopes from size r = elim (tree_get r.ramqueue.messages (evpid_to_msgid from)) [
  | none ↦ some []
  | some msg ↦
      envelopes_loop (suc (suc (length msg.envelopes.entries))) size msg.envelopes none from
]
