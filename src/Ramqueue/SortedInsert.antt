-- ===== src/Ramqueue/SortedInsert.antt =====
-- usr.sbin/smtpd/scheduler_ramqueue.c: sorted_insert() against insertion into a sorted list. The
-- source finds the place in the splay tree and takes it over into the pending list.
use open_smtpd.Base.{
  ℕ, ◌+◌, ◌≤◌, ◌<◌, ◌≡◌, refl, ap, Option, none, some, List, [], ◌∷◌, ◌++◌, Bool, map_some, arith,
  hit, count, count-cons, All, ◌⊎◌, inl, inr, Ordering, ◌≢◌, ◌>>=◌,
}
use open_smtpd.Ramqueue.Types.{RqEnvelope, RqQueue, q_pending}
use open_smtpd.Ramqueue.Queue.{
  find_envelope, tailq_insert_before, set_list, rq_envelope_cmp, splay_insert, splay_next,
  sorted_insert, ref_time,
}

-- The envelope that an id leads to.
pub record Found (rq : RqQueue) (id : ℕ) : Type 0 where
  pub evp : RqEnvelope
  pub found : find_envelope rq id ≡ some evp
  pub key : evp.evpid ≡ id

-- The first envelope comes strictly before the second: by the time, and then by the id.
abbrev pub Before : RqEnvelope → RqEnvelope → Type 0
Before d e = (ref_time d < ref_time e) ⊎ ((ref_time d ≡ ref_time e) × (d.evpid < e.evpid))

pub cmp-lt : (e d : RqEnvelope) → rq_envelope_cmp e d ≡ Ordering.lt → Before e d
unfolding rq_envelope_cmp
cmp-lt e d h = ground arith

pub cmp-gt : (e d : RqEnvelope) → rq_envelope_cmp e d ≡ Ordering.gt → Before d e
unfolding rq_envelope_cmp
cmp-gt e d h = ground arith

pub cmp-eq : (e d : RqEnvelope) → rq_envelope_cmp e d ≡ Ordering.eq → e.evpid ≡ d.evpid
unfolding rq_envelope_cmp
cmp-eq e d h = ground arith

-- The three answers of the comparison, each with its equation.
Ordering-cases : (o : Ordering) → (o ≡ Ordering.lt) ⊎ ((o ≡ Ordering.eq) ⊎ (o ≡ Ordering.gt))
Ordering-cases Ordering.lt = inl refl
Ordering-cases Ordering.eq = inr (inl refl)
Ordering-cases Ordering.gt = inr (inr refl)

-- What the two insertions of sorted_insert() do to the list `p` that both hold.
record Inserted (rq : RqQueue) (e : RqEnvelope) (p p' : List ℕ) : Type 0 where
  splay : splay_insert rq e p ≡ some p'
  counts : (y : ℕ) → count y p' ≡ hit y e.evpid + count y p
  next :
      ((splay_next e.evpid p' ≡ none) × (p' ≡ p ++ e.evpid ∷ []))
      ⊎ ((z : ℕ) × (splay_next e.evpid p' ≡ some z)
          × (tailq_insert_before z e.evpid p ≡ some p')
          × (0 < count z p))

insert_last : (rq : RqQueue) (e : RqEnvelope) → Inserted rq e [] (e.evpid ∷ [])
unfolding splay_insert splay_next
insert_last rq e = record {
  splay = refl;
  counts = λ y. ground (arith, count-cons y e.evpid []);
  next = inl (ground arith, refl);
}

insert_first :
    (rq : RqQueue) (e d : RqEnvelope) (y : ℕ) (ys : List ℕ)
    → find_envelope rq y ≡ some d
    → rq_envelope_cmp e d ≡ Ordering.lt
    → Inserted rq e (y ∷ ys) (e.evpid ∷ y ∷ ys)
unfolding splay_insert splay_next tailq_insert_before
insert_first rq e d y ys f c = record {
  splay = ground arith;
  counts = λ z. count-cons z e.evpid (y ∷ ys);
  next = inr (y, ground arith, ground arith, ground (arith, count-cons y y ys));
}

insert_later :
    (rq : RqQueue) (e d : RqEnvelope) (y : ℕ) (ys p' : List ℕ)
    → find_envelope rq y ≡ some d
    → rq_envelope_cmp e d ≡ Ordering.gt
    → count e.evpid (y ∷ ys) ≡ 0
    → ((z : ℕ) → count z (y ∷ ys) ≤ 1)
    → Inserted rq e ys p'
    → Inserted rq e (y ∷ ys) (y ∷ p')
unfolding splay_insert splay_next tailq_insert_before
insert_later rq e d y ys p' f c new single i = record {
  splay = ground (arith, i.splay);
  counts = λ z. ground (arith, count-cons z y p', count-cons z y ys, i.counts z);
  next = elim i.next [
    | inl (n, l) ↦ inl (ground (arith, count-cons e.evpid y ys), ap (λ (t : List ℕ). y ∷ t) l)
    | inr (z, n, b, m) ↦
        let apart : z ≢ y = ground (arith, count-cons z y ys, single z) in
        inr (
          z,
          ground (arith, count-cons e.evpid y ys),
          ground arith,
          ground (arith, count-cons z y ys),
        )
  ];
}

splay_insert-Inserted :
    (rq : RqQueue) (e : RqEnvelope) (p : List ℕ)
    → All (Found rq) p
    → count e.evpid p ≡ 0
    → ((z : ℕ) → count z p ≤ 1)
    → (p' : List ℕ) × Inserted rq e p p'
splay_insert-Inserted rq e [] all new single = (e.evpid ∷ [], insert_last rq e)
splay_insert-Inserted rq e (y ∷ ys) (g, all) new single =
    elim (Ordering-cases (rq_envelope_cmp e g.evp)) [
      | inl before ↦ (e.evpid ∷ y ∷ ys, insert_first rq e g.evp y ys g.found before)
      | inr (inl same) ↦
          absurd (ground (arith, cmp-eq e g.evp same, g.key, count-cons e.evpid y ys))
      | inr (inr after) ↦
          let (p', i) =
            splay_insert-Inserted rq e ys all (ground (arith, count-cons e.evpid y ys))
              (λ z. ground (arith, single z, count-cons z y ys)) in
          (y ∷ p', insert_later rq e g.evp y ys p' g.found after new single i)
    ]

-- The queue in which both the tree and the pending list are `p`.
abbrev pub with_pending : List ℕ → RqQueue → RqQueue
with_pending p rq = set_list q_pending p (record rq { q_priotree = p })

-- Where the tree and the pending list agree, hold envelopes of the queue, each once, and do not
-- hold the new envelope, sorted_insert() does not fault. The two agree afterwards, and hold the
-- new envelope once, and every other as before; nothing else changes.
pub sorted_insert_agrees :
    (rq : RqQueue) (e : RqEnvelope)
    → rq.q_priotree ≡ rq.lists q_pending
    → All (Found rq) rq.q_priotree
    → count e.evpid rq.q_priotree ≡ 0
    → ((z : ℕ) → count z rq.q_priotree ≤ 1)
    → (p' : List ℕ) × (sorted_insert rq e ≡ some (with_pending p' rq))
      × ((y : ℕ) → count y p' ≡ hit y e.evpid + count y (rq.lists q_pending))
unfolding sorted_insert
sorted_insert_agrees rq e sync all new single =
    let (p', i) = splay_insert-Inserted rq e rq.q_priotree all new single in
    (
      p',
      elim i.next [
        | inl (n, l) ↦ rw (i.splay, sorted_insert) (ground (arith, n, l, sync))
        | inr (z, n, b, m) ↦ rw (i.splay, sorted_insert) (ground (arith, n, b, sync))
      ],
      λ y. ground (arith, i.counts y, sync),
    )

-- sorted_insert() does not look at the suspend flag.
splay_insert-suspend :
    (rq : RqQueue) (e : RqEnvelope) (b : Bool) (p : List ℕ)
    → splay_insert rq (record e { suspend = b }) p ≡ splay_insert rq e p
unfolding splay_insert rq_envelope_cmp
splay_insert-suspend rq e b [] = refl
splay_insert-suspend rq e b (y ∷ ys) =
    ap
      (λ (rest : Option (List ℕ)). find_envelope rq y >>= λ d. elim (rq_envelope_cmp e d) [
        | Ordering.lt ↦ some (e.evpid ∷ y ∷ ys)
        | Ordering.eq ↦ some (y ∷ ys)
        | Ordering.gt ↦ map_some (λ zs. y ∷ zs) rest
      ])
      (splay_insert-suspend rq e b ys)

pub sorted_insert-suspend :
    (rq : RqQueue) (e : RqEnvelope) (b : Bool)
    → sorted_insert rq (record e { suspend = b }) ≡ sorted_insert rq e
unfolding sorted_insert
sorted_insert-suspend rq e b = rw (splay_insert-suspend rq e b rq.q_priotree, sorted_insert)
