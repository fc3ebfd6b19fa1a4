-- ===== src/Ramqueue/Placement/Leave.antt =====
-- usr.sbin/smtpd/scheduler_ramqueue.c: an envelope is taken from where it is linked.
use open_smtpd.Base.{
  ℕ, ◌-◌, ◌≡◌, refl, sym, ◌∙◌, inl, inr, Option, none, some, List, [], ◌∷◌, true, ◌==◌,
  if◌then◌else◌, count-nil, arith, Option-cases, length,
}
use open_smtpd.Tree.{Tree, tree_get, tree_xget, tree_xpop, tree_modify, remove_entry}
use open_smtpd.Tree.Laws.{Ascending, tree_get-modify, find-remove}
use open_smtpd.Tree.Order.{remove_entry-Ascending, modify_entry-Ascending}
use open_smtpd.Ramqueue.Types.{
  DeliveryType, d_mda, d_mta, d_bounce, held, RqEnvelope, RqHoldq, RqQueue, EvpList, q_pending, Ram,
  same_list, same_type,
}
use open_smtpd.Ramqueue.Queue.{
  find_envelope, tailq_remove, splay_erase, splay_remove, unlink, set_list, holdq_remove,
  set_holdqs,
}
use open_smtpd.Ramqueue.Envelope.{with_queue}
use open_smtpd.Ramqueue.Links.{Removed, tailq_remove-Removed, same_list→eq}
use open_smtpd.Ramqueue.Placement.{
  on_list, list_share, holdq_list, holdq_share, held_list, Missing, Placed,
}
use open_smtpd.Ramqueue.Placement.Enter.{on_list_unique, find-set_list, find-priotree}

-- From `r` to `r'` the envelope `x` has been taken off, and nothing else has changed.
pub record Left (x : ℕ) (r r' : Ram) : Type 0 where
  pub missing : Missing x r'
  pub same : (id : ℕ) → find_envelope r'.ramqueue id ≡ find_envelope r.ramqueue id
  pub clock : r'.currtime ≡ r.currtime

-- The queue after a list has lost an envelope, which leaves the priority tree too if the list is
-- the pending list.
abbrev pub taken_off : EvpList → ℕ → List ℕ → RqQueue → RqQueue
taken_off l x xs rq =
    if same_list l q_pending then splay_remove x (set_list l xs rq) else set_list l xs rq

find-taken_off :
    (l : EvpList) (x : ℕ) (xs : List ℕ) (rq : RqQueue) (id : ℕ)
    → find_envelope (taken_off l x xs rq) id ≡ find_envelope rq id
unfolding splay_remove
find-taken_off l x xs rq id = ground (
  arith,
  find-set_list l xs rq id,
  find-priotree (splay_erase x (set_list l xs rq).q_priotree) (set_list l xs rq) id,
)

taken_off-Missing :
    (x : ℕ) (r : Ram) (e : RqEnvelope) (l : EvpList) (xs : List ℕ)
    → Placed r
    → find_envelope r.ramqueue x ≡ some e
    → on_list e l ≡ true
    → Removed x (r.ramqueue.lists l) xs
    → splay_erase x (r.ramqueue.lists l) ≡ xs
    → Missing x (with_queue r (taken_off l x xs r.ramqueue))
unfolding with_queue splay_remove set_list held_list list_share holdq_share
taken_off-Missing x r e l xs p f on rem er =
    let look = find-taken_off l x xs r.ramqueue in
    record {
      on_lists = λ n id. ground (
        arith,
        look id,
        f,
        on_list_unique e l n on,
        same_list→eq n l,
        rem.counts id,
        p.on_lists n id,
      );
      in_holdqs = λ t k id. ground (arith, look id, f, on_list_unique e l l on, p.in_holdqs t k id);
      agree = ground (arith, p.agree, er, same_list→eq l q_pending);
      tidy = λ id c g. p.tidy id c (sym (look id) ∙ g);
      order = p.order;
      counted = p.counted;
    }

-- The way off a list: TAILQ_REMOVE, and SPLAY_REMOVE for the pending list.
pub unlink-Left :
    (x : ℕ) (r : Ram) (e : RqEnvelope) (l : EvpList)
    → Placed r
    → find_envelope r.ramqueue x ≡ some e
    → on_list e l ≡ true
    → (xs : List ℕ) × (unlink l x r.ramqueue ≡ some (set_list l xs r.ramqueue))
      × Left x r (with_queue r (taken_off l x xs r.ramqueue))
unfolding unlink list_share with_queue
unlink-Left x r e l p f on =
    let (xs, s, rem, er) =
      tailq_remove-Removed x (r.ramqueue.lists l) (ground (arith, p.on_lists l x, f)) in
    (
      xs,
      rw s,
      record {
        missing = taken_off-Missing x r e l xs p f on rem er;
        same = find-taken_off l x xs r.ramqueue;
        clock = refl;
      },
    )

pub same_type→eq : (t u : DeliveryType) → same_type t u ≡ true → t ≡ u
same_type→eq d_mda u h = ground arith
same_type→eq d_mta u h = ground arith
same_type→eq d_bounce u h = ground arith

-- The two ways in which a holding queue is written: it is dropped, or it has a new list.
pub record Rewritten (hqs hqs' : Tree RqHoldq) (k : ℕ) (new : Option RqHoldq) : Type 0 where
  pub look : (j : ℕ) → tree_get hqs' j ≡ (if k == j then new else tree_get hqs j)
  pub order : Ascending hqs'.entries

-- A holding queue that has lost an envelope.
pub Rewritten-Missing :
    (x : ℕ) (r : Ram) (e : RqEnvelope) (hq : RqHoldq) (xs : List ℕ) (hqs : Tree RqHoldq)
    (new : Option RqHoldq)
    → Placed r
    → find_envelope r.ramqueue x ≡ some e
    → e.state ≡ held
    → tree_get (r.holdqs e.type) e.holdq ≡ some hq
    → Removed x hq.q xs
    → holdq_list new ≡ xs
    → ((h : RqHoldq) → new ≡ some h → h.count ≡ length h.q)
    → Rewritten (r.holdqs e.type) hqs e.holdq new
    → Missing x (set_holdqs e.type hqs r)
unfolding set_holdqs list_share holdq_share held_list on_list
Rewritten-Missing x r e hq xs hqs new p f h there rem lst cnt w = record {
  on_lists = λ l id. ground (arith, p.on_lists l id, f, (p.tidy x e f).held_awake);
  in_holdqs = λ t k id.
      ground
        (arith, w.look k, p.in_holdqs t k id, rem.counts id, there, lst, f, same_type→eq t e.type);
  agree = p.agree;
  tidy = p.tidy;
  order = λ t. ground (arith, w.order, p.order t);
  counted = λ t k h' g. ground (arith, w.look k, cnt h', same_type→eq t e.type, p.counted t k h');
}

holdq_remove_last :
    (r : Ram) (e : RqEnvelope) (hq : RqHoldq)
    → tree_get (r.holdqs e.type) e.holdq ≡ some hq
    → tailq_remove e.evpid hq.q ≡ some []
    → holdq_remove r e
      ≡ some (
          set_holdqs e.type
            (record {
              entries = remove_entry e.holdq (r.holdqs e.type).entries;
              count = (r.holdqs e.type).count - 1;
            })
            r)
unfolding holdq_remove tree_get tree_xget tree_xpop
holdq_remove_last r e hq there s = rw (there, s) (rw (there, tree_xpop))

holdq_remove_more :
    (r : Ram) (e : RqEnvelope) (hq : RqHoldq) (y : ℕ) (ys : List ℕ)
    → tree_get (r.holdqs e.type) e.holdq ≡ some hq
    → tailq_remove e.evpid hq.q ≡ some (y ∷ ys)
    → holdq_remove r e
      ≡ some (
          set_holdqs e.type
            (tree_modify
              (r.holdqs e.type)
              e.holdq
              (λ _. record { q = y ∷ ys; count = hq.count - 1 }))
            r)
unfolding holdq_remove tree_get tree_xget tree_xpop
holdq_remove_more r e hq y ys there s = rw (there, s)

holdq_remove_cases :
    (x : ℕ) (r : Ram) (e : RqEnvelope) (hq : RqHoldq) (xs : List ℕ)
    → Placed r
    → find_envelope r.ramqueue x ≡ some e
    → e.state ≡ held
    → tree_get (r.holdqs e.type) e.holdq ≡ some hq
    → tailq_remove e.evpid hq.q ≡ some xs
    → Removed x hq.q xs
    → (r' : Ram) × (holdq_remove r e ≡ some r') × Left x r r'
unfolding set_holdqs
holdq_remove_cases x r e hq [] p f h there s rem = (
  _,
  holdq_remove_last r e hq there s,
  record {
    missing =
        Rewritten-Missing x r e hq [] _ none p f h there rem refl (λ a b. absurd (ground arith))
          (record {
            look = λ j. unfold tree_get in find-remove e.holdq j _ (p.order e.type);
            order = remove_entry-Ascending e.holdq _ (p.order e.type);
          });
    same = λ id. refl;
    clock = refl;
  },
)
holdq_remove_cases x r e hq (y ∷ ys) p f h there s rem =
    let new : RqHoldq = record { q = y ∷ ys; count = hq.count - 1 } in
    (
      _,
      holdq_remove_more r e hq y ys there s,
      record {
        missing =
            Rewritten-Missing x r e hq (y ∷ ys) _ (some new) p f h there rem refl
              (λ a b. ground (arith, rem.shorter, p.counted e.type e.holdq hq there))
              (record {
                look = λ j.
                    ground (arith, tree_get-modify (r.holdqs e.type) e.holdq j (λ _. new), there);
                order =
                    unfold tree_modify in
                    modify_entry-Ascending e.holdq (λ _. new) _ (p.order e.type);
              });
        same = λ id. refl;
        clock = refl;
      },
    )

-- The way out of a holding queue.
pub holdq_remove-Left :
    (x : ℕ) (r : Ram) (e : RqEnvelope)
    → Placed r
    → find_envelope r.ramqueue x ≡ some e
    → e.state ≡ held
    → (r' : Ram) × (holdq_remove r e ≡ some r') × Left x r r'
unfolding held_list holdq_share
holdq_remove-Left x r e p f h = elim (Option-cases (tree_get (r.holdqs e.type) e.holdq)) [
  | inl gone ↦ absurd (ground (arith, gone, p.in_holdqs e.type e.holdq x, f, count-nil x))
  | inr (hq, there) ↦
      let (xs, s, rem, er) =
        tailq_remove-Removed x hq.q (ground (arith, there, p.in_holdqs e.type e.holdq x, f)) in
      let t : tailq_remove e.evpid hq.q ≡ some xs = rw ((p.tidy x e f).key) s in
      holdq_remove_cases x r e hq xs p f h there t rem
]
