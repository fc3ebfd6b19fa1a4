-- ===== src/Ramqueue/Commit.antt =====
-- usr.sbin/smtpd/scheduler_ramqueue.c: the envelopes of a message are inserted into a queue of its
-- own in `updates`, which a commit merges into the main queue and a rollback drops. The first
-- argument of a handler is what time(NULL) gives.
use open_smtpd.Base.{ℕ, ◌+◌, false, Option, none, some, List, [], ◌∷◌, map, ◌>>=◌, map_some}
use open_smtpd.Tree.{
  Tree, tree_init, tree_get, tree_xset, tree_xpop, tree_pop, tree_modify, tree_merge,
}
use open_smtpd.Ramqueue.Types.{
  pending, RqEnvelope, RqMessage, q_pending, RqQueue, Ram, SchedulerInfo, evpid_to_msgid,
}
use open_smtpd.Ramqueue.Backoff.{scheduler_backoff, backoff_base}
use open_smtpd.Ramqueue.Queue.{
  rq_queue_init, find_envelope, link, set_list, sorted_insert, rq_envelope_delete,
}
use open_smtpd.Ramqueue.Envelope.{with_queue}
use open_smtpd.Ramqueue.Pending.{rq_queue_schedule}

unfoldable pub scheduler_ram_init : ℕ → Ram
unfolding rq_queue_init tree_init
scheduler_ram_init now = record {
  ramqueue = rq_queue_init;
  updates = tree_init;
  holdqs = λ t. tree_init;
  currtime = now;
}

-- The envelope that scheduler_ram_insert() makes.
unfoldable pub new_envelope : SchedulerInfo → ℕ → RqEnvelope
unfolding scheduler_backoff backoff_base
new_envelope si msgid = record {
  evpid = si.evpid;
  holdq = 0;
  type = si.type;
  state = pending;
  expired = false;
  removed = false;
  suspend = false;
  update = false;
  overflow = false;
  ctime = si.creation;
  sched = scheduler_backoff si.creation (backoff_base si.type) si.retry;
  expire = si.creation + si.ttl;
  message = msgid;
  t_inflight = 0;
  t_scheduled = 0;
}

-- The envelope is put into its message of the update, which is made if need be.
unfoldable pub insert_into : RqQueue → RqEnvelope → ℕ → Option RqQueue
unfolding tree_get tree_xset tree_modify tree_init link
insert_into update envelope msgid =
    let fresh = tree_xset update.messages msgid (record { msgid = msgid; envelopes = tree_init }) in
    let here : Option (Tree RqMessage) = elim (tree_get update.messages msgid) [
      | some m ↦ some update.messages
      | none ↦ fresh
    ] in
    here >>= λ messages. tree_get messages msgid >>= λ message.
    tree_xset message.envelopes envelope.evpid envelope >>= λ envelopes. some (
      link q_pending envelope.evpid (record update {
        messages = tree_modify messages msgid (λ m. record m { envelopes = envelopes });
        evpcount = update.evpcount + 1;
      }))

unfoldable pub scheduler_ram_insert : ℕ → SchedulerInfo → Ram → Option (Ram × SchedulerInfo)
unfolding tree_get tree_xset tree_modify rq_queue_init new_envelope insert_into
scheduler_ram_insert now si r =
    let msgid = evpid_to_msgid si.evpid in
    let fresh = tree_xset r.updates msgid rq_queue_init in
    let envelope = new_envelope si msgid in
    let here : Option (Tree RqQueue) = elim (tree_get r.updates msgid) [
      | some u ↦ some r.updates
      | none ↦ fresh
    ] in
    here >>= λ updates. tree_get updates msgid >>= λ update.
    insert_into update envelope msgid >>= λ update'. some (
      record r { updates = tree_modify updates msgid (λ u. update'); currtime = now },
      record si { nexttry = envelope.sched },
    )

-- The first loop of rq_queue_merge(). The source pops the root of the splay tree, whichever
-- message that is; here the messages come in the order of their ids.
unfoldable pub merge_messages : List (ℕ × RqMessage) → Tree RqMessage → Option (Tree RqMessage)
unfolding tree_get tree_xset tree_modify tree_merge
merge_messages [] messages = some messages
merge_messages ((id, message) ∷ rest) messages =
    let relinked : Tree RqEnvelope = record message.envelopes {
      entries = map (λ (k, e). (k, record e { message = id })) message.envelopes.entries;
    } in
    let here : Option (Tree RqMessage) = elim (tree_get messages id) [
      | none ↦ tree_xset messages id message
      | some tomessage ↦
          map_some (λ t. tree_modify messages id (λ m. record m { envelopes = t }))
            (tree_merge tomessage.envelopes relinked)
    ] in
    here >>= λ messages'. merge_messages rest messages'

-- Its second loop, over the pending list of the update.
unfoldable pub insert_pending : List ℕ → RqQueue → Option RqQueue
unfolding find_envelope sorted_insert
insert_pending [] rq = some rq
insert_pending (id ∷ ids) rq =
    find_envelope rq id >>= λ envelope. sorted_insert rq envelope >>= λ rq'. insert_pending ids rq'

unfoldable pub rq_queue_merge : RqQueue → RqQueue → Option RqQueue
unfolding merge_messages insert_pending
rq_queue_merge rq update = merge_messages update.messages.entries rq.messages >>= λ messages.
    insert_pending (update.lists q_pending) (record rq { messages = messages }) >>= λ rq'.
    some (record rq' { evpcount = rq'.evpcount + update.evpcount })

-- The number of envelopes of the update is the result.
unfoldable pub scheduler_ram_commit : ℕ → ℕ → Ram → Option (Ram × ℕ)
unfolding tree_xpop rq_queue_merge with_queue rq_queue_schedule
scheduler_ram_commit now msgid r = tree_xpop r.updates msgid >>= λ (update, updates).
    rq_queue_merge r.ramqueue update >>= λ rq.
    rq_queue_schedule (with_queue (record r { updates = updates; currtime = now }) rq) >>= λ r'.
    some (r', update.evpcount)

-- The loop of scheduler_ram_rollback().
unfoldable pub delete_pending : List ℕ → RqQueue → Option RqQueue
unfolding find_envelope set_list rq_envelope_delete
delete_pending [] update = some update
delete_pending (id ∷ ids) update = find_envelope update id >>= λ evp.
    rq_envelope_delete (set_list q_pending ids update) evp >>= λ update'. delete_pending ids update'

unfoldable pub scheduler_ram_rollback : ℕ → ℕ → Ram → Option (Ram × ℕ)
unfolding tree_pop delete_pending
scheduler_ram_rollback now msgid r =
    let (updates, popped) = tree_pop r.updates msgid in
    elim popped [
      | none ↦ some (record r { currtime = now }, 0)
      | some update ↦
          map_some (λ gone. (record r { updates = updates; currtime = now }, update.evpcount))
            (delete_pending (update.lists q_pending) update)
    ]
