-- ===== src/Iobuf/Filled.antt =====
-- Output that is queued in usr.sbin/smtpd/iobuf.c stands behind what waits already.
use open_smtpd.Base.{
  ℕ, ◌+◌, ◌^◌, ◌≤◌, ◌<◌, ◌≡◌, refl, sym, ap, ◌∙◌, ◌⊎◌, true, false, not, Option, some, List, [],
  ◌∷◌, ◌++◌, arith, ◌>>=◌, length, length-append, All,
}
use open_smtpd.Iobuf.{Ioqbuf, Iobuf, Ret, value, failed, is_empty}
use open_smtpd.Iobuf.Bytes.{take, drop}
use open_smtpd.Iobuf.Queue.{last, set_last, reserve_last, write_last, queue_at, waiting}
use open_smtpd.Iobuf.Input.{put_lem, length-put, put-behind}
use open_smtpd.Iobuf.Drain.{IsBuffer, queue_bytes, IsQueue}
use mathlib.Core.List.{append-nil, append_assoc}

pub last-snoc : (front : List Ioqbuf) (q : Ioqbuf) → last (front ++ q ∷ []) ≡ some q
last-snoc [] q = refl
last-snoc (p ∷ []) q = refl
last-snoc (p ∷ p' ∷ front) q = last-snoc (p' ∷ front) q

set_last-snoc :
    (front : List Ioqbuf) (q q' : Ioqbuf) → set_last q' (front ++ q ∷ []) ≡ front ++ q' ∷ []
set_last-snoc [] q q' = refl
set_last-snoc (p ∷ []) q q' = refl
set_last-snoc (p ∷ p' ∷ front) q q' = ap (λ qs. p ∷ qs) (set_last-snoc (p' ∷ front) q q')

pub split_last :
    (qs : List Ioqbuf)
    → is_empty qs ≡ false
    → (front : List Ioqbuf) × (q : Ioqbuf) × (qs ≡ front ++ q ∷ [])
split_last [] h = absurd (ground arith)
split_last (q ∷ []) h = ([], q, refl)
split_last (q ∷ p ∷ qs) h =
    let (front, q', e) = split_last (p ∷ qs) refl in (q ∷ front, q', ap (λ ps. q ∷ ps) e)

pub queue_bytes-snoc :
    (front : List Ioqbuf) (q : Ioqbuf)
    → queue_bytes (front ++ q ∷ []) ≡ queue_bytes front ++ waiting q
unfolding queue_bytes
queue_bytes-snoc [] q = append-nil (waiting q)
queue_bytes-snoc (p ∷ front) q =
    ap (λ xs. waiting p ++ xs) (queue_bytes-snoc front q)
    ∙ sym (append_assoc (waiting p) (queue_bytes front) (waiting q))

All-snoc :
    (front : List Ioqbuf) (q : Ioqbuf)
    → All IsBuffer front
    → IsBuffer q
    → All IsBuffer (front ++ q ∷ [])
All-snoc [] q a v = (v, tt)
All-snoc (p ∷ front) q (u, a) v = (u, All-snoc front q a v)

pub All-front :
    (front : List Ioqbuf) (q : Ioqbuf)
    → All IsBuffer (front ++ q ∷ [])
    → All IsBuffer front × IsBuffer q
All-front [] q (v, t) = (tt, v)
All-front (p ∷ front) q (u, a) = let (b, v) = All-front front q a in ((u, b), v)

snoc-nonempty : (front : List Ioqbuf) (q : Ioqbuf) → is_empty (front ++ q ∷ []) ≡ false
snoc-nonempty [] q = refl
snoc-nonempty (p ∷ front) q = refl

-- What a buffer becomes by some bytes behind the others.
abbrev pub filled : Ioqbuf → List ℕ → Ioqbuf
filled q bytes = record q {
  buf = take q.wpos q.buf ++ (bytes ++ drop (q.wpos + length bytes) q.buf);
  wpos = q.wpos + length bytes;
}

filled-IsBuffer :
    (q : Ioqbuf) (bytes : List ℕ)
    → IsBuffer q
    → q.wpos + length bytes ≤ q.size
    → IsBuffer (filled q bytes) × (waiting (filled q bytes) ≡ waiting q ++ bytes)
unfolding waiting
filled-IsBuffer q bytes v h =
    let fits : q.wpos + length bytes ≤ length q.buf = omega (arith, h, v.memory) in
    (
      record {
        positions = omega (arith, v.positions);
        within = h;
        memory = length-put q.buf q.wpos bytes fits ∙ v.memory;
        word = v.word;
      },
      put-behind q.buf bytes q.rpos q.wpos v.positions fits,
    )

-- A queue whose last buffer is `q`.
abbrev pub with_last : Iobuf → List Ioqbuf → Ioqbuf → Iobuf
with_last io front q = record io { outq = front ++ q ∷ []; outqlast = true }

pub reserve_last-queue :
    (io : Iobuf) (front : List Ioqbuf) (q : Ioqbuf) (bytes : List ℕ)
    → IsBuffer q
    → q.wpos + length bytes ≤ q.size
    → reserve_last (length bytes) (with_last io front q) >>= queue_at bytes
      ≡ some (
        value (length bytes),
        record (with_last io front (filled q bytes)) { queued = io.queued + length bytes },
      )
unfolding reserve_last queue_at write_last
reserve_last-queue io front q bytes v h =
    let q' : Ioqbuf = record q { wpos = q.wpos + length bytes } in
    let fits : q.wpos + length bytes ≤ length q.buf = omega (arith, h, v.memory) in
    rw (last-snoc front q) (
      rw (set_last-snoc front q q') (
        rw (last-snoc front q') (
          rw (put_lem q.buf q.wpos bytes fits)
            (rw (set_last-snoc front q' (filled q bytes)) refl))))

-- What a call has done: all of the bytes stand behind those that waited, or it failed.
abbrev pub Queued : List ℕ → Iobuf → Ret → Iobuf → Type 0
Queued bytes io r io' =
    ((r ≡ value (length bytes)) × (queue_bytes io'.outq ≡ queue_bytes io.outq ++ bytes))
    ⊎ ((r ≡ failed) × (io' ≡ io))

abbrev pub Queues : List ℕ → Iobuf → Option (Ret × Iobuf) → Type 0
Queues bytes io x =
    (r : Ret) × (io' : Iobuf) × (x ≡ some (r, io')) × IsQueue io' × Queued bytes io r io'

pub filled-IsQueue :
    (io : Iobuf) (front : List Ioqbuf) (q : Ioqbuf) (bytes : List ℕ)
    → All IsBuffer front
    → IsBuffer q
    → q.wpos + length bytes ≤ q.size
    → io.queued ≡ length (queue_bytes front ++ waiting q)
    → io.queued + length bytes < 2 ^ 64
    → IsQueue (record (with_last io front (filled q bytes)) { queued = io.queued + length bytes })
      × (queue_bytes (front ++ filled q bytes ∷ []) ≡ (queue_bytes front ++ waiting q) ++ bytes)
filled-IsQueue io front q bytes a v h counted small =
    let (u, w) = filled-IsBuffer q bytes v h in
    let all =
      queue_bytes-snoc front (filled q bytes)
      ∙ ap (λ xs. queue_bytes front ++ xs) w
      ∙ sym (append_assoc (queue_bytes front) (waiting q) bytes) in
    (
      record {
        buffers = All-snoc front (filled q bytes) a u;
        counted = omega (
          arith,
          counted,
          ap (λ xs. length xs) all,
          length-append {0} (queue_bytes front ++ waiting q) bytes,
        );
        linked = ap not (sym (snoc-nonempty front (filled q bytes)));
        word = small;
      },
      all,
    )
