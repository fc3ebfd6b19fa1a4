-- ===== src/Ramqueue/Placement/Tests.antt =====
-- usr.sbin/smtpd/scheduler_ramqueue.c: queues of one envelope at which the theorems are applied.
use open_smtpd.Base.{
  ◌⊎◌, ◌+◌, length, ℕ, ◌≡◌, refl, inl, inr, none, some, [], ◌∷◌, Bool, true, false, not, ◌||◌, ◌==◌,
  if◌then◌else◌, count, count-nil, count-cons, arith,
}
use open_smtpd.Tree.{Tree, tree_get, find_entry}
use open_smtpd.Ramqueue.Types.{
  DeliveryType, d_mta, EvpState, pending, scheduled, inflight, held, SchedulerInfo, RqHoldq, d_mda,
  d_bounce, RqEnvelope, Ram, q_pending, q_removed, evpid_to_msgid,
}
use open_smtpd.Ramqueue.Queue.{find_envelope}
use open_smtpd.Ramqueue.Envelope.{
  rq_envelope_schedule, rq_envelope_remove, rq_envelope_suspend, rq_envelope_resume, schedule_list,
}
use open_smtpd.Ramqueue.Admin.{schedule_op}
use open_smtpd.Ramqueue.Placement.{
  is_held, on_list, IsTidy, Placed, list_share, holdq_share, held_list,
}
use open_smtpd.Tree.Laws.{Ascending}
use open_smtpd.Ramqueue.Placement.Release.{released, release-Placed}
use open_smtpd.Ramqueue.Flight.{scheduler_ram_update, scheduler_ram_hold, scheduler_ram_release}
use open_smtpd.Ramqueue.Placement.Return.{Settled, update-Placed}
use open_smtpd.Ramqueue.Placement.Hold.{Waits, hold-Placed}
use open_smtpd.Ramqueue.Placement.Handlers.{Keeps}
use open_smtpd.Ramqueue.Placement.Suspend.{suspend-Placed, resume-Placed}
use open_smtpd.Ramqueue.Placement.Remove.{remove-Placed, schedule-Placed}
use open_smtpd.Ramqueue.Placement.Defects.{
  hold_removed, remove_resume_twice, schedule_resume_twice, schedule_twice_faults,
}

-- The first envelope of message 1.
abbrev the_id : ℕ
the_id = 4294967297

abbrev envelope : EvpState → Bool → RqEnvelope
envelope state suspend = record {
  evpid = the_id;
  holdq = 0;
  type = d_mta;
  state = state;
  expired = false;
  removed = false;
  suspend = suspend;
  update = false;
  overflow = false;
  ctime = 100;
  sched = 500;
  expire = 9000;
  message = 1;
  t_inflight = 0;
  t_scheduled = 0;
}

-- The queue that holds one envelope, where it belongs.
single : RqEnvelope → Ram
single e = record {
  ramqueue = record {
    evpcount = 1;
    messages = record {
      entries =
          (1, record { msgid = 1; envelopes = record { entries = (the_id, e) ∷ []; count = 1 } })
          ∷ [];
      count = 1;
    };
    q_priotree = if on_list e q_pending then the_id ∷ [] else [];
    lists = λ l. if on_list e l then the_id ∷ [] else [];
  };
  updates = record { entries = []; count = 0 };
  holdqs = λ t. record { entries = []; count = 0 };
  currtime = 1000;
}

find-single :
    (e : RqEnvelope) (id : ℕ)
    → find_envelope (single e).ramqueue id ≡ (if id == the_id then some e else none)
unfolding single find_envelope tree_get find_entry evpid_to_msgid
find-single e id = ground arith

single-Placed : (e : RqEnvelope) → IsTidy the_id e → is_held e.state ≡ false → Placed (single e)
unfolding single list_share holdq_share held_list tree_get find_entry
single-Placed e t h = record {
  on_lists = λ l id. ground (arith, find-single e id, count-nil id, count-cons id the_id []);
  in_holdqs = λ u k id. ground (arith, find-single e id, count-nil id);
  agree = refl;
  tidy = λ id c g. ground (arith, find-single e id, t);
  order = λ u. tt;
  counted = λ u k hq g. absurd (ground arith);
}

tidy : (s : EvpState) (b : Bool) → is_held s ≡ false → IsTidy the_id (envelope s b)
tidy s b h = record {
  key = refl;
  expired_scheduled = λ e. cc;
  removed_state = λ e. cc;
  held_awake = λ e. ground (arith, e, h);
}

abbrev asleep : RqEnvelope
asleep = envelope pending true

abbrev awake : RqEnvelope
awake = envelope pending false

abbrev queued : RqEnvelope
queued = envelope scheduled false

asleep-Placed : Placed (single asleep)
asleep-Placed = single-Placed asleep (tidy pending true refl) refl

awake-Placed : Placed (single awake)
awake-Placed = single-Placed awake (tidy pending false refl) refl

queued-Placed : Placed (single queued)
queued-Placed = single-Placed queued (tidy scheduled false refl) refl

suspend-Placed_example :
    Keeps the_id (λ d. d.suspend) (rq_envelope_suspend (single awake) awake) true
suspend-Placed_example =
    suspend-Placed the_id (single awake) awake awake-Placed (find-single awake the_id)

resume-Placed_example :
    Keeps the_id (λ d. not d.suspend) (rq_envelope_resume (single asleep) asleep) true
resume-Placed_example =
    resume-Placed the_id (single asleep) asleep asleep-Placed (find-single asleep the_id)

remove-Placed_example :
    Keeps the_id (λ d. d.removed || d.expired) (rq_envelope_remove (single awake) awake) true
remove-Placed_example =
    remove-Placed the_id (single awake) awake awake-Placed (find-single awake the_id) (inl refl)

schedule-Placed_example :
    (r' : Ram) × (e' : RqEnvelope) × (rq_envelope_schedule (single awake) awake ≡ some r')
    × (find_envelope r'.ramqueue the_id ≡ some e')
    × (e'.state ≡ scheduled)
    × Placed r'
schedule-Placed_example =
    schedule-Placed the_id (single awake) awake awake-Placed (find-single awake the_id)
      (inr (refl, refl))

remove_resume_twice_example :
    (r1 : Ram) × (e1 : RqEnvelope) × (r2 : Ram) × (rq_envelope_remove (single asleep) asleep
      ≡ some (r1, true))
    × (find_envelope r1.ramqueue the_id ≡ some e1)
    × (rq_envelope_resume r1 e1 ≡ some (r2, true))
    × (count the_id (r2.ramqueue.lists q_removed) ≡ 2)
remove_resume_twice_example =
    remove_resume_twice the_id (single asleep) asleep asleep-Placed (find-single asleep the_id) refl
      refl refl refl

schedule_resume_twice_example :
    (r1 : Ram) × (e1 : RqEnvelope) × (r2 : Ram) × (rq_envelope_schedule (single asleep) asleep
      ≡ some r1)
    × (find_envelope r1.ramqueue the_id ≡ some e1)
    × (rq_envelope_resume r1 e1 ≡ some (r2, true))
    × (count the_id (r2.ramqueue.lists (schedule_list asleep)) ≡ 2)
schedule_resume_twice_example =
    schedule_resume_twice the_id (single asleep) asleep asleep-Placed (find-single asleep the_id)
      refl refl

schedule_twice_faults_example : schedule_op (single queued) queued ≡ none
schedule_twice_faults_example =
    schedule_twice_faults the_id (single queued) queued queued-Placed (find-single queued the_id)
      refl refl

abbrev flying : RqEnvelope
flying = envelope inflight false

flying-Placed : Placed (single flying)
flying-Placed = single-Placed flying (tidy inflight false refl) refl

-- Its delivery has failed for the first time.
abbrev retry : SchedulerInfo
retry = record { evpid = the_id; type = d_mta; retry = 1; creation = 100; ttl = 8900; nexttry = 0 }

update-Placed_example :
    (r' : Ram) × (si' : SchedulerInfo) × (e' : RqEnvelope) × (scheduler_ram_update 1000 retry
        (single flying)
      ≡ some (r', si'))
    × (find_envelope r'.ramqueue the_id ≡ some e')
    × Settled 1000 retry flying si' e'
    × Placed r'
update-Placed_example =
    update-Placed 1000 retry (single flying) flying flying-Placed (find-single flying the_id) refl
      (inl refl)

hold-Placed_example :
    (r' : Ram) × (b : Bool) × (e' : RqEnvelope) × (scheduler_ram_hold 1000 the_id 77 (single flying)
      ≡ some (r', b))
    × (find_envelope r'.ramqueue the_id ≡ some e')
    × Waits 77 flying e' b
    × Placed r'
hold-Placed_example =
    hold-Placed 1000 the_id 77 (single flying) flying flying-Placed (find-single flying the_id) refl
      refl

-- The queue whose envelope is held on 77.
abbrev waiting : RqEnvelope
waiting = record (envelope held false) { holdq = 77 }

abbrev holding_queues : DeliveryType → Tree RqHoldq
holding_queues d_mta = record {
  entries = (77, record { q = the_id ∷ []; count = 1 }) ∷ [];
  count = 1;
}
holding_queues d_mda = record { entries = []; count = 0 }
holding_queues d_bounce = record { entries = []; count = 0 }

abbrev holding : Ram
holding = record (single waiting) { holdqs = holding_queues }

holding-counted :
    (u : DeliveryType) (k : ℕ) (hq : RqHoldq)
    → tree_get (holding_queues u) k ≡ some hq
    → hq.count ≡ length hq.q
unfolding tree_get find_entry
holding-counted d_mta k hq g = ground arith
holding-counted d_mda k hq g = absurd (ground arith)
holding-counted d_bounce k hq g = absurd (ground arith)

holding-order : (u : DeliveryType) → Ascending (holding_queues u).entries
holding-order d_mta = (tt, tt)
holding-order d_mda = tt
holding-order d_bounce = tt

holding-held :
    (u : DeliveryType) (k id : ℕ)
    → count id (held_list holding u k)
      ≡ holdq_share (find_envelope (single waiting).ramqueue id) u k
unfolding held_list holdq_share tree_get find_entry
holding-held d_mta k id =
    ground (arith, find-single waiting id, count-nil id, count-cons id the_id [])
holding-held d_mda k id = ground (arith, find-single waiting id, count-nil id)
holding-held d_bounce k id = ground (arith, find-single waiting id, count-nil id)

waiting-IsTidy : IsTidy the_id waiting
waiting-IsTidy = record {
  key = refl;
  expired_scheduled = λ e. cc;
  removed_state = λ e. cc;
  held_awake = λ e. refl;
}

holding-Placed : Placed holding
unfolding single list_share
holding-Placed = record {
  on_lists = λ l id. ground (arith, find-single waiting id, count-nil id, count-cons id the_id []);
  in_holdqs = holding-held;
  agree = refl;
  tidy = λ id c g. ground (arith, find-single waiting id, waiting-IsTidy);
  order = holding-order;
  counted = holding-counted;
}

release-Placed_example :
    (r' : Ram) × (i : ℕ) × (scheduler_ram_release 1000 d_mta 77 none holding ≡ some (r', i))
    × (i ≡ released none (length (held_list holding d_mta 77)))
    × (i + length (held_list r' d_mta 77) ≡ length (held_list holding d_mta 77))
    × Placed r'
release-Placed_example = release-Placed 1000 d_mta 77 none holding holding-Placed

-- An envelope that was removed while in flight.
abbrev removed_flying : RqEnvelope
removed_flying = record flying { removed = true }

removed_flying-IsTidy : IsTidy the_id removed_flying
removed_flying-IsTidy = record {
  key = refl;
  expired_scheduled = λ e. cc;
  removed_state = λ e. inr refl;
  held_awake = λ e. refl;
}

hold_removed_example :
    (r' : Ram) × (b : Bool) × (e' : RqEnvelope) × (scheduler_ram_hold 1000 the_id 77
        (single removed_flying)
      ≡ some (r', b))
    × (find_envelope r'.ramqueue the_id ≡ some e')
    × (e'.removed ≡ true)
    × (on_list e' q_removed ≡ false)
    × ((e'.state ≡ held) ⊎ (e'.state ≡ pending))
hold_removed_example =
    hold_removed 1000 the_id 77 (single removed_flying) removed_flying
      (single-Placed removed_flying removed_flying-IsTidy refl) (find-single removed_flying the_id)
      refl refl refl
