-- ===== src/Ramqueue/Tests.antt =====
-- usr.sbin/smtpd/scheduler_ramqueue.c: the theorems on the retry times and on sorted_insert() at a
-- concrete input.
use open_smtpd.Base.{
  ℕ, ◌+◌, ◌≤◌, ◌≡◌, refl, some, List, [], ◌∷◌, false, arith, hit, count, count-cons, count-nil,
}
use open_smtpd.Ramqueue.Types.{d_mta, pending, RqEnvelope, RqQueue, q_pending, evpid_to_msgid}
use open_smtpd.Tree.{tree_get, find_entry}
use open_smtpd.Ramqueue.Queue.{find_envelope, sorted_insert}
use open_smtpd.Ramqueue.Backoff.{scheduler_next, Next, scheduler_next-Next}
use open_smtpd.Ramqueue.SortedInsert.{with_pending, sorted_insert_agrees}

-- An MTA envelope of time 0 that is due again after time 1000.
scheduler_next-Next_example : (t : ℕ) × (scheduler_next 1000 0 400 1 ≡ some t) × Next 1000 0 400 1 t
scheduler_next-Next_example = scheduler_next-Next 1000 0 400 1 (omega arith)

abbrev waiting : ℕ → ℕ → RqEnvelope
waiting id sched = record {
  evpid = id;
  holdq = 0;
  type = d_mta;
  state = pending;
  expired = false;
  removed = false;
  suspend = false;
  update = false;
  overflow = false;
  ctime = 100;
  sched = sched;
  expire = 9000;
  message = 1;
  t_inflight = 0;
  t_scheduled = 0;
}

-- A queue with one pending envelope.
abbrev one_pending : RqQueue
one_pending = record {
  evpcount = 1;
  messages = record {
    entries =
        (
          1,
          record {
            msgid = 1;
            envelopes = record { entries = (4294967297, waiting 4294967297 500) ∷ []; count = 1 };
          },
        )
        ∷ [];
    count = 1;
  };
  q_priotree = 4294967297 ∷ [];
  lists = λ l. elim l [ q_pending ↦ 4294967297 ∷ [] | _ ↦ [] ];
}

found_first : find_envelope one_pending 4294967297 ≡ some (waiting 4294967297 500)
unfolding find_envelope tree_get find_entry evpid_to_msgid
found_first = refl

once : (z : ℕ) → count z (4294967297 ∷ []) ≤ 1
once z = ground (arith, count-cons z 4294967297 [], count-nil z)

-- An earlier envelope is inserted before it.
sorted_insert_agrees_example :
    (p' : List ℕ) × (sorted_insert one_pending (waiting 4294967298 400)
      ≡ some (with_pending p' one_pending))
    × ((y : ℕ) → count y p' ≡ hit y 4294967298 + count y (one_pending.lists q_pending))
sorted_insert_agrees_example =
    sorted_insert_agrees one_pending (waiting 4294967298 400) refl
      (record { evp = waiting 4294967297 500; found = found_first; key = refl }, tt)
      (ground (arith, count-cons 4294967298 4294967297 [], count-nil 4294967298)) once
