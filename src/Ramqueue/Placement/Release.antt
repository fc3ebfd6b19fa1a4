-- ===== src/Ramqueue/Placement/Release.antt =====
-- usr.sbin/smtpd/scheduler_ramqueue.c: scheduler_ram_release(), by which the envelopes of a holding
-- queue become pending.
use open_smtpd.Base.{
  ℕ, zero, suc, ◌+◌, ◌-◌, ◌≡◌, ◌≤◌, refl, sym, ap, subst, ◌⊎◌, inl, inr, Option, none, some, List,
  [], ◌∷◌, Bool, true, false, if◌then◌else◌, arith, map_some, Option-cases, ◌==◌, ◌>>=◌, leb,
  count-cons, length,
}
use open_smtpd.Tree.{Tree, remove_entry, tree_get, tree_xget, tree_xpop, tree_modify}
use open_smtpd.Tree.Laws.{tree_get-modify, find-remove}
use open_smtpd.Tree.Order.{remove_entry-Ascending, modify_entry-Ascending}
use open_smtpd.Ramqueue.Types.{DeliveryType, pending, held, RqEnvelope, RqHoldq, Ram}
use open_smtpd.Ramqueue.Queue.{find_envelope, set_holdqs, sorted_insert}
use open_smtpd.Ramqueue.Envelope.{write, with_queue}
use open_smtpd.Ramqueue.Flight.{
  requeue, release_first, release_loop, close_holdq, scheduler_ram_release,
}
use open_smtpd.Ramqueue.Links.{Removed}
use open_smtpd.Ramqueue.Placement.{on_holdq, held_list, holdq_share, Missing, Placed}
use open_smtpd.Ramqueue.Placement.Enter.{requeue-Placed}
use open_smtpd.Ramqueue.Placement.Leave.{Rewritten, Rewritten-Missing, same_type→eq}
use open_smtpd.Ramqueue.Placement.Return.{clock-Placed}

-- The envelope at the head of a holding queue says that it is held there.
head-held :
    (r : Ram) (t : DeliveryType) (k x : ℕ) (hq : RqHoldq) (xs : List ℕ)
    → Placed r
    → tree_get (r.holdqs t) k ≡ some hq
    → hq.q ≡ x ∷ xs
    → (e : RqEnvelope) × (find_envelope r.ramqueue x ≡ some e)
      × (e.state ≡ held)
      × (e.type ≡ t)
      × (e.holdq ≡ k)
unfolding held_list holdq_share
head-held r t k x hq xs p there q = elim (Option-cases (find_envelope r.ramqueue x)) [
  | inl gone ↦ absurd (ground (arith, gone, p.in_holdqs t k x, there, q, count-cons x x xs))
  | inr (e, f) ↦
      let here : on_holdq e t k ≡ true =
        ground (arith, f, p.in_holdqs t k x, there, q, count-cons x x xs) in
      (e, f, ground arith, sym (same_type→eq t e.type (ground arith)), ground arith)
]

requeue-holdqs : (e : RqEnvelope) (r r' : Ram) → requeue e r ≡ some r' → r'.holdqs ≡ r.holdqs
unfolding requeue write with_queue
requeue-holdqs e r r' h = elim (Option-cases (sorted_insert r.ramqueue e)) [
  | inl fault ↦ absurd (ground (arith, fault))
  | inr (rq, s) ↦ ground (arith, s)
]

-- What a round of the loop, or the whole loop, leaves in the holding queue.
abbrev Leaves : DeliveryType → ℕ → List ℕ → Ram → Type 0
Leaves t k xs r = (hq : RqHoldq) × (tree_get (r.holdqs t) k ≡ some hq) × (hq.q ≡ xs) × Placed r

release_first-Leaves :
    (t : DeliveryType) (k x : ℕ) (u : Bool) (xs : List ℕ) (r : Ram)
    → Leaves t k (x ∷ xs) r
    → (r' : Ram) × (release_first t k u r ≡ some (some r')) × Leaves t k xs r'
unfolding release_first set_holdqs tree_get tree_xget
release_first-Leaves t k x u xs r (hq, there, q, p) =
    let (e, f, h, te, ke) = head-held r t k x hq xs p there q in
    let new : RqHoldq = record { q = xs; count = hq.count - 1 } in
    let hqs = tree_modify (r.holdqs t) k (λ _. new) in
    let there' : tree_get (r.holdqs e.type) e.holdq ≡ some hq = ground (arith, there) in
    let rem : Removed x hq.q xs = record {
      counts = λ y. ground (arith, q, count-cons y x xs);
      shorter = ap length q;
    } in
    let w : Rewritten (r.holdqs e.type) hqs e.holdq (some new) = record {
      look = λ j. ground (arith, tree_get-modify (r.holdqs t) k j (λ _. new), there);
      order =
          unfold tree_modify in
          ground (
            arith,
            modify_entry-Ascending k (λ (_ : RqHoldq). new) (r.holdqs t).entries (p.order t),
          );
    } in
    let m =
      Rewritten-Missing x r e hq xs hqs (some new) p f h there' rem refl
        (λ a b. ground (arith, rem.shorter, p.counted t k hq there)) w in
    let left = set_holdqs t hqs r in
    let m' : Missing x left = subst (λ v. Missing x (set_holdqs v hqs r)) te m in
    let e' = record e { holdq = 0; state = pending; update = if u then true else e.update } in
    let (r', s, g, p') =
      requeue-Placed x left e' e m' f (ground (arith, p.tidy x e f))
        (refl, (p.tidy x e f).held_awake h) in
    (
      r',
      ground (arith, there, q, f, s),
      (
        new,
        ground (
          arith,
          requeue-holdqs e' left r' s,
          tree_get-modify (r.holdqs t) k k (λ (_ : RqHoldq). new),
          there,
        ),
        refl,
        p',
      ),
    )

release_loop-Leaves :
    (n : ℕ) (t : DeliveryType) (k : ℕ) (u : Bool) (xs : List ℕ) (r : Ram)
    → Leaves t k xs r
    → (r' : Ram) × (i : ℕ) × (ys : List ℕ) × (release_loop n t k u r ≡ some (r', i))
      × (i + length ys ≡ length xs)
      × (i ≤ n)
      × ((i ≡ n) ⊎ (ys ≡ []))
      × Leaves t k ys r'
unfolding release_loop release_first tree_get tree_xget
release_loop-Leaves zero t k u xs r l = (r, 0, xs, refl, omega arith, omega arith, inl refl, l)
release_loop-Leaves (suc n) t k u [] r (hq, there, q, p) =
    (r, 0, [], ground (arith, there, q), refl, omega arith, inr refl, (hq, there, q, p))
release_loop-Leaves (suc n) t k u (x ∷ xs) r l =
    let (r1, s, l1) = release_first-Leaves t k x u xs r l in
    let (r', i, ys, s', e, b, o, l') = release_loop-Leaves n t k u xs r1 l1 in
    (
      r',
      suc i,
      ys,
      rw (s, release_loop) (rw s'),
      omega (arith, e),
      omega (arith, b),
      ground (arith, o),
      l',
    )

close_holdq-Placed :
    (t : DeliveryType) (k : ℕ) (ys : List ℕ) (r : Ram)
    → Leaves t k ys r
    → (r' : Ram) × (close_holdq t k r ≡ some r') × (held_list r' t k ≡ ys) × Placed r'
unfolding close_holdq held_list tree_get tree_xget tree_xpop set_holdqs
close_holdq-Placed t k (y ∷ ys) r (hq, there, q, p) =
    (r, ground (arith, there, q), ground (arith, there, q), p)
close_holdq-Placed t k [] r (hq, there, q, p) =
    let hqs : Tree RqHoldq = record {
      entries = remove_entry k (r.holdqs t).entries;
      count = (r.holdqs t).count - 1;
    } in
    let look = λ (j : ℕ). find-remove k j (r.holdqs t).entries (p.order t) in
    (
      set_holdqs t hqs r,
      ground (arith, there, q),
      ground (arith, look k),
      record {
        on_lists = p.on_lists;
        in_holdqs =
            λ v j id. ground (arith, look j, p.in_holdqs v j id, there, q, same_type→eq v t);
        agree = p.agree;
        tidy = p.tidy;
        order = λ v.
            ground (arith, remove_entry-Ascending k (r.holdqs t).entries (p.order t), p.order v);
        counted = λ v j h g. ground (arith, look j, p.counted v j h, same_type→eq v t);
      },
    )

-- The loop with its end.
release_and_close :
    (n : ℕ) (t : DeliveryType) (k : ℕ) (u : Bool) (xs : List ℕ) (r : Ram)
    → Leaves t k xs r
    → (r' : Ram) × (i : ℕ) × (◌>>=◌ {B = Ram × ℕ}
          (release_loop n t k u r)
          (λ (r1, j). map_some (λ r2. (r2, j)) (close_holdq t k r1))
        ≡ some (r', i))
      × (i + length (held_list r' t k) ≡ length xs)
      × (i ≤ n)
      × ((i ≡ n) ⊎ (length (held_list r' t k) ≡ 0))
      × Placed r'
release_and_close n t k u xs r l =
    let (r1, i, ys, s, e, b, o, l1) = release_loop-Leaves n t k u xs r l in
    let (r2, c, left, p) = close_holdq-Placed t k ys r1 l1 in
    (r2, i, ground (arith, s, c), ground (arith, left, e), b, ground (arith, left, o), p)

-- How many of `m` envelopes are released: all of them for -1 (`none`) and 0, and otherwise as many
-- as are asked for, if there are that many.
unfoldable pub released : Option ℕ → ℕ → ℕ
released none m = m
released (some n) m = if n == 0 then m else if leb n m then n else m

-- Where every envelope is linked where it belongs: scheduler_ram_release() does not fault. Its result
-- is the number of envelopes of the holding queue for -1 and 0, and otherwise the smaller of this and
-- the number that is asked for. So many envelopes fewer are in the holding queue then, and every
-- envelope is linked where it belongs.
pub release-Placed :
    (now : ℕ) (t : DeliveryType) (k : ℕ) (n : Option ℕ) (r : Ram)
    → Placed r
    → (r' : Ram) × (i : ℕ) × (scheduler_ram_release now t k n r ≡ some (r', i))
      × (i ≡ released n (length (held_list r t k)))
      × (i + length (held_list r' t k) ≡ length (held_list r t k))
      × Placed r'
unfolding scheduler_ram_release held_list released
release-Placed now t k n r p =
    let r0 : Ram = record r { currtime = now } in
    let p0 = clock-Placed now r p in
    elim (Option-cases (tree_get (r.holdqs t) k)) [
      | inl gone ↦
          (r0, 0, rw (gone, scheduler_ram_release), ground (arith, gone), ground (arith, gone), p0)
      | inr (hq, there) ↦
          let rounds : ℕ = elim n [
            | none ↦ length hq.q
            | some m ↦ if m == 0 then length hq.q else m
          ] in
          let u : Bool = elim n [ none ↦ true | some m ↦ false ] in
          let (r', i, s, e, b, o, p') =
            release_and_close rounds t k u hq.q r0 (hq, there, refl, p0) in
          (
            r',
            i,
            rw (there, scheduler_ram_release) s,
            ground (arith, there, e, b, o),
            ground (arith, there, e),
            p',
          )
    ]
