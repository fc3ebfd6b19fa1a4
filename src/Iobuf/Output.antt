-- ===== src/Iobuf/Output.antt =====
-- The output of usr.sbin/smtpd/iobuf.c: bytes are written in the order in which they are queued.
use open_smtpd.Base.{
  sub64, sub64_lem, ℕ, ◌+◌, ◌-◌, ◌^◌, ◌≤◌, ◌<◌, ◌≡◌, refl, sym, ap, subst, ◌∙◌, ◌⊎◌, inl, inr, Bool,
  true, false, not, Option, some, List, [], ◌∷◌, ◌++◌, arith, leb, ◌==◌, ◌>>=◌, Bool-cases,
  Option-cases, ==→eq, length, All, if◌then◌else◌,
}
use open_smtpd.Iobuf.{Ioqbuf, Iobuf, Ret, value, failed, iobufq_min, is_empty}
use open_smtpd.Iobuf.Queue.{
  last, at_least, link_new, ioqbuf_alloc, reserve_last, has_room, reserve_new, iobuf_reserve,
  queue_at, iobuf_queue, waiting,
}
use open_smtpd.Iobuf.Drain.{IsBuffer, queue_bytes, IsQueue}
use open_smtpd.Iobuf.Filled.{
  last-snoc, split_last, queue_bytes-snoc, All-front, filled, with_last, reserve_last-queue, Queued,
  Queues, filled-IsQueue,
}
use mathlib.Core.List.{append-nil}

-- A memory that is given has as many bytes as it was asked for.
abbrev pub Gives : (ℕ → Option (List ℕ)) → Type 0
Gives malloc = (n : ℕ) (mem : List ℕ) → malloc n ≡ some mem → length mem ≡ n

-- The two ways in which place is found, then the bytes are written.
queue_last :
    (io : Iobuf) (front : List Ioqbuf) (q : Ioqbuf) (bytes : List ℕ)
    → All IsBuffer front
    → IsBuffer q
    → q.wpos + length bytes ≤ q.size
    → io.queued ≡ length (queue_bytes front ++ waiting q)
    → io.queued + length bytes < 2 ^ 64
    → queue_bytes io.outq ≡ queue_bytes front ++ waiting q
    → Queues bytes io (reserve_last (length bytes) (with_last io front q) >>= queue_at bytes)
queue_last io front q bytes a v h counted small same =
    let (u, w) = filled-IsQueue io front q bytes a v h counted small in
    (
      value (length bytes),
      record (with_last io front (filled q bytes)) { queued = io.queued + length bytes },
      reserve_last-queue io front q bytes v h,
      u,
      inl (refl, w ∙ ap (λ xs. xs ++ bytes) (sym same)),
    )

at_least-word : (n : ℕ) → n < 2 ^ 64 → at_least n iobufq_min < 2 ^ 64
at_least-word n h = ground arith

at_least-more : (n : ℕ) → 0 + n ≤ at_least n iobufq_min
at_least-more n = ground arith

linked_list : (qs : List Ioqbuf) (b : Bool) → b ≡ not (is_empty qs) → (if b then qs else []) ≡ qs
linked_list [] b h = rw h refl
linked_list (q ∷ qs) b h = rw h refl

linked_full : (qs : List Ioqbuf) (b : Bool) → b ≡ not (is_empty qs) → b ≡ true → is_empty qs ≡ false
linked_full [] b h l = absurd (ground arith)
linked_full (q ∷ qs) b h l = refl

nothing-queued : (xs bytes : List ℕ) → (length bytes == 0) ≡ true → xs ≡ xs ++ bytes
nothing-queued xs [] h = sym (append-nil xs)
nothing-queued xs (b ∷ bytes) h = absurd (ground arith)

with_last_eq :
    (io : Iobuf) (front : List Ioqbuf) (q : Ioqbuf)
    → io.outq ≡ front ++ q ∷ []
    → io.outqlast ≡ true
    → io ≡ with_last io front q
with_last_eq io front q h l = cc

new_buffer : List ℕ → ℕ → Ioqbuf
new_buffer mem len = record { buf = mem; size = len; wpos = 0; rpos = 0 }

queue_new :
    (malloc : ℕ → Option (List ℕ)) (io : Iobuf) (bytes : List ℕ)
    → Gives malloc
    → IsQueue io
    → io.queued + length bytes < 2 ^ 64
    → Queues bytes io
        (reserve_new (length bytes) io (ioqbuf_alloc malloc (length bytes) io) >>= queue_at bytes)
unfolding reserve_new ioqbuf_alloc link_new queue_at new_buffer waiting
queue_new malloc io bytes g v small =
    let len = at_least (length bytes) iobufq_min in
    elim (Option-cases (malloc len)) [
      | inl e ↦ rw e (failed, io, refl, v, inr (refl, refl))
      | inr (mem, e) ↦
          let list : (if io.outqlast then io.outq else []) ≡ io.outq =
            linked_list io.outq io.outqlast v.linked in
          let nothing : waiting (new_buffer mem len) ≡ [] = refl in
          let same : queue_bytes io.outq ≡ queue_bytes io.outq ++ waiting (new_buffer mem len) =
            sym (append-nil (queue_bytes io.outq))
            ∙ ap (λ xs. queue_bytes io.outq ++ xs) (sym nothing) in
          rw (e, list)
            (queue_last io io.outq (new_buffer mem len) bytes v.buffers
              (record {
                positions = omega arith;
                within = omega arith;
                memory = g len mem e;
                word = at_least-word (length bytes) (omega (arith, small));
              })
              (at_least-more (length bytes)) (v.counted ∙ ap (λ xs. length xs) same) small same)
    ]

-- There is a last buffer with room for more than these bytes, or a new one is wanted.
has_room_lem :
    (len : ℕ) (io : Iobuf)
    → IsQueue io
    → (has_room len io ≡ some false)
      ⊎ ((front : List Ioqbuf) × (q : Ioqbuf) × (io.outq ≡ front ++ q ∷ [])
          × (io.outqlast ≡ true)
          × (has_room len io ≡ some true)
          × (q.wpos + len ≤ q.size))
unfolding has_room
has_room_lem len io v = elim (Bool-cases io.outqlast) [
  | inr l ↦ inl (rw l refl)
  | inl l ↦
      let (front, q, e) = split_last io.outq (linked_full io.outq io.outqlast v.linked l) in
      let found : last io.outq ≡ some q = ap last e ∙ last-snoc front q in
      let buffers = All-front front q (subst (λ qs. All IsBuffer qs) e v.buffers) in
      let room : sub64 q.size q.wpos ≡ q.size - q.wpos =
        sub64_lem q.size q.wpos buffers.1.within buffers.1.word in
      elim (Bool-cases (leb (sub64 q.size q.wpos) len)) [
        | inl full ↦ inl (rw l (rw found (rw full refl)))
        | inr more ↦
            inr (
              front,
              q,
              e,
              l,
              rw l (rw found (rw more refl)),
              ground (arith, room, buffers.1.within),
            )
      ]
]

-- Where memory that is given has the size that was asked for and the count does not overflow,
-- iobuf_queue() keeps a queue in order and writes nothing outside of its buffers. It gives the number of
-- the bytes and has put them all behind those that wait, or it gives -1 and has changed nothing.
pub iobuf_queue-bytes :
    (malloc : ℕ → Option (List ℕ)) (io : Iobuf) (bytes : List ℕ)
    → Gives malloc
    → IsQueue io
    → io.queued + length bytes < 2 ^ 64
    → (r : Ret) × (io' : Iobuf) × (iobuf_queue malloc bytes io ≡ some (r, io'))
      × IsQueue io'
      × Queued bytes io r io'
unfolding iobuf_queue iobuf_reserve
iobuf_queue-bytes malloc io bytes g v small = elim (Bool-cases (length bytes == 0)) [
  | inl e ↦ rw e (
    value 0,
    io,
    refl,
    v,
    inl (
      ap (λ n. value n) (sym (==→eq (length bytes) 0 e)),
      nothing-queued (queue_bytes io.outq) bytes e,
    ),
  )
  | inr e ↦ elim (has_room_lem (length bytes) io v) [
    | inl r ↦ rw (e, r) (queue_new malloc io bytes g v small)
    | inr (front, q, list, l, r, fits) ↦
        let (a, u) = All-front front q (subst (λ qs. All IsBuffer qs) list v.buffers) in
        let same : queue_bytes io.outq ≡ queue_bytes front ++ waiting q =
          ap queue_bytes list ∙ queue_bytes-snoc front q in
        let (x, io', p, w, b) =
          queue_last io front q bytes a u fits (v.counted ∙ ap (λ xs. length xs) same) small same in
        rw (e, r)
          (
            x,
            io',
            ap (λ i. reserve_last (length bytes) i >>= queue_at bytes)
                  (with_last_eq io front q list l)
                ∙ p,
            w,
            b,
          )
  ]
]
