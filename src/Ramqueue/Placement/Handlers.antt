-- ===== src/Ramqueue/Placement/Handlers.antt =====
-- usr.sbin/smtpd/scheduler_ramqueue.c: what the functions that move an envelope share.
use open_smtpd.Base.{
  ℕ, ◌≡◌, refl, ◌∙◌, ◌⊎◌, inl, inr, Option, some, Bool, true, false, arith, Option-cases,
  Bool-cases, ◌==◌,
}
use open_smtpd.Ramqueue.Types.{
  DeliveryType, EvpState, pending, scheduled, inflight, held, RqEnvelope, EvpList, q_pending, Ram,
  same_list,
}
use open_smtpd.Ramqueue.Queue.{find_envelope, store, link, rq_envelope_list}
use open_smtpd.Ramqueue.Envelope.{with_queue, write, leave_list, enter_list}
use open_smtpd.Ramqueue.Placement.{
  is_held, on_list, on_holdq, list_share, holdq_share, held_list, IsTidy, Placed,
}
use open_smtpd.Ramqueue.Placement.Enter.{
  find-write, find-set_list, write-Placed, link-Links, rest-Links,
}
use open_smtpd.Ramqueue.Placement.Leave.{Left, unlink-Left, taken_off}

-- A call that does not fault, gives the count `b`, makes `p` true of the envelope `x`, and leaves
-- every envelope where it belongs.
abbrev pub Keeps : ℕ → (RqEnvelope → Bool) → Option (Ram × Bool) → Bool → Type 0
Keeps x p o b =
    (r : Ram) × (e : RqEnvelope) × (o ≡ some (r, b))
    × (find_envelope r.ramqueue x ≡ some e)
    × (p e ≡ true)
    × Placed r

-- What a write leaves under the id, after a change of the lists.
pub find-written :
    (x : ℕ) (r' : Ram) (e e' : RqEnvelope)
    → find_envelope r'.ramqueue x ≡ some e
    → e'.evpid ≡ x
    → find_envelope (write e' r').ramqueue x ≡ some e'
find-written x r' e e' f k = ground (arith, find-write e' r' x e k f x)

-- What enter_list() writes.
pub find-enter_list :
    (x : ℕ) (r : Ram) (e e' : RqEnvelope) (l : EvpList)
    → e'.evpid ≡ x
    → find_envelope r.ramqueue x ≡ some e
    → find_envelope (enter_list l e' r).ramqueue x ≡ some e'
unfolding enter_list with_queue link
find-enter_list x r e e' l k f = ground (
  arith,
  find-write e' (with_queue r (link l e'.evpid r.ramqueue)) x e k
      (find-set_list l _ r.ramqueue x ∙ f) x,
)

-- The tail of a list, for an envelope that has been taken off.
pub enter_list-Placed :
    (x : ℕ) (r r' : Ram) (e e' : RqEnvelope) (l : EvpList)
    → Left x r r'
    → find_envelope r.ramqueue x ≡ some e
    → IsTidy x e'
    → on_list e' l ≡ true
    → same_list l q_pending ≡ false
    → Placed (enter_list l e' r')
unfolding enter_list
enter_list-Placed x r r' e e' l k f t on np =
    write-Placed x r' _ e' e k.missing (k.same x ∙ f) t (link-Links x r' e' l k.missing t.key on np)

pub write_rest-Placed :
    (x : ℕ) (r r' : Ram) (e e' : RqEnvelope)
    → Left x r r'
    → find_envelope r.ramqueue x ≡ some e
    → IsTidy x e'
    → ((l : EvpList) → on_list e' l ≡ false)
    → is_held e'.state ≡ false
    → Placed (write e' r')
write_rest-Placed x r r' e e' k f t off free =
    write-Placed x r' r' e' e k.missing (k.same x ∙ f) t (rest-Links x r' e' k.missing off free)

-- The way off the list that rq_envelope_list() names.
pub leave_list-Left :
    (x : ℕ) (r : Ram) (e : RqEnvelope) (l : EvpList)
    → Placed r
    → find_envelope r.ramqueue x ≡ some e
    → rq_envelope_list e ≡ some l
    → on_list e l ≡ true
    → (r' : Ram) × (leave_list r e ≡ some r') × Left x r r'
unfolding leave_list
leave_list-Left x r e l p f at on =
    let (xs, s, k) = unlink-Left x r e l p f on in
    (with_queue r (taken_off l x xs r.ramqueue), rw (at, (p.tidy x e f).key) (rw s), k)

-- The list of rq_envelope_list(), for an envelope that belongs on it.
pub awake_list :
    (e : RqEnvelope)
    → e.suspend ≡ false
    → is_held e.state ≡ false
    → (l : EvpList) × (rq_envelope_list e ≡ some l) × (on_list e l ≡ true)
unfolding rq_envelope_list on_list
awake_list e s h = elim (Option-cases (rq_envelope_list e)) [
  | inl null ↦ absurd (ground arith)
  | inr (l, at) ↦ (l, at, ground arith)
]

pub EvpState-cases :
    (s : EvpState) → ((s ≡ pending) ⊎ (s ≡ scheduled)) ⊎ ((s ≡ inflight) ⊎ (s ≡ held))
EvpState-cases pending = inl (inl refl)
EvpState-cases scheduled = inl (inr refl)
EvpState-cases inflight = inr (inl refl)
EvpState-cases held = inr (inr refl)

-- A write that leaves the place of an envelope as it is.
pub mark-Placed :
    (x : ℕ) (r : Ram) (e e' : RqEnvelope)
    → Placed r
    → find_envelope r.ramqueue x ≡ some e
    → IsTidy x e'
    → ((l : EvpList) → on_list e' l ≡ on_list e l)
    → ((t : DeliveryType) (k : ℕ) → on_holdq e' t k ≡ on_holdq e t k)
    → Placed (write e' r)
unfolding write with_queue store list_share holdq_share held_list
mark-Placed x r e e' p f t on hold =
    let look = find-write e' r x e t.key f in
    record {
      on_lists = λ l id. ground (arith, look id, on l, p.on_lists l id, f);
      in_holdqs = λ u j id. ground (arith, look id, hold u j, p.in_holdqs u j id, f);
      agree = p.agree;
      tidy = λ id c g. elim (Bool-cases (id == x)) [
        | inl here ↦ ground (arith, look id, t.key)
        | inr other ↦ p.tidy id c (ground (arith, look id))
      ];
      order = p.order;
      counted = p.counted;
    }
