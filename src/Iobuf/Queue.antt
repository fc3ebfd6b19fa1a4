-- ===== src/Iobuf/Queue.antt =====
-- usr.sbin/smtpd/iobuf.c: the buffers that wait to be written.
use open_smtpd.Base.{
  sub64, ℕ, zero, suc, ◌+◌, Bool, true, false, not, Option, none, some, List, [], ◌∷◌, ◌++◌, ltb,
  leb, ◌==◌, ◌>>=◌, map_some, length, if◌then◌else◌,
}
use open_smtpd.Iobuf.{
  Ioqbuf, Iobuf, Ret, value, want_read, want_write, closed, error, failed, put, iobufq_min,
  iobuf_drain,
}
use open_smtpd.Iobuf.Bytes.{take, drop}

abbrev pub last : List Ioqbuf → Option Ioqbuf
last [] = none
last (q ∷ []) = some q
last (q ∷ p ∷ qs) = last (p ∷ qs)

abbrev pub set_last : Ioqbuf → List Ioqbuf → List Ioqbuf
set_last q' [] = []
set_last q' (q ∷ []) = q' ∷ []
set_last q' (q ∷ p ∷ qs) = q ∷ set_last q' (p ∷ qs)

-- The buffer that `outqlast` points to.
abbrev pub outq_last : Iobuf → Option Ioqbuf
outq_last io = if io.outqlast then last io.outq else none

abbrev pub at_least : ℕ → ℕ → ℕ
at_least n least = if ltb n least then least else n

-- A new buffer behind the last one, or at the front where `outqlast` is NULL.
unfoldable pub link_new : List ℕ → ℕ → Iobuf → Iobuf
link_new mem len io =
    let q : Ioqbuf = record { buf = mem; size = len; wpos = 0; rpos = 0 } in
    record io { outq = (if io.outqlast then io.outq else []) ++ q ∷ []; outqlast = true }

-- `malloc` gives the memory behind the structure, or `none`.
unfoldable pub ioqbuf_alloc : (ℕ → Option (List ℕ)) → ℕ → Iobuf → Option Iobuf
unfolding link_new
ioqbuf_alloc malloc n io =
    let len = at_least n iobufq_min in map_some (λ mem. link_new mem len io) (malloc len)

-- The place that is taken is in the last buffer; the result is its offset.
unfoldable pub reserve_last : ℕ → Iobuf → Option (Option ℕ × Iobuf)
reserve_last len io = do
  q ← outq_last io
  some (
    some q.wpos,
    record io {
      outq = set_last (record q { wpos = q.wpos + len }) io.outq;
      queued = io.queued + len;
    },
  )

unfoldable pub has_room : ℕ → Iobuf → Option Bool
has_room len io =
    if io.outqlast
    then map_some (λ q. not (leb (sub64 q.size q.wpos) len)) (last io.outq)
    else some false

unfoldable pub reserve_new : ℕ → Iobuf → Option Iobuf → Option (Option ℕ × Iobuf)
unfolding reserve_last
reserve_new len io none = some (none, io)
reserve_new len io (some io') = reserve_last len io'

unfoldable pub iobuf_reserve : (ℕ → Option (List ℕ)) → ℕ → Iobuf → Option (Option ℕ × Iobuf)
unfolding reserve_last has_room reserve_new ioqbuf_alloc
iobuf_reserve malloc len io = if len == 0 then some (none, io) else (do
  room ← has_room len io
  (if room then reserve_last len io else reserve_new len io (ioqbuf_alloc malloc len io)))

-- memmove() to the place that was taken.
unfoldable pub write_last : ℕ → List ℕ → Iobuf → Option Iobuf
unfolding put
write_last i bytes io = do
  q ← outq_last io
  mem ← put q.buf i bytes
  some (record io { outq = set_last (record q { buf = mem }) io.outq })

unfoldable pub queue_at : List ℕ → Option ℕ × Iobuf → Option (Ret × Iobuf)
unfolding write_last
queue_at bytes (none, io) = some (failed, io)
queue_at bytes (some i, io) = map_some (λ io'. (value (length bytes), io')) (write_last i bytes io)

unfoldable pub iobuf_queue : (ℕ → Option (List ℕ)) → List ℕ → Iobuf → Option (Ret × Iobuf)
unfolding iobuf_reserve queue_at
iobuf_queue malloc bytes io =
    if length bytes == 0
    then some (value 0, io)
    else (do r ← iobuf_reserve malloc (length bytes) io; queue_at bytes r)

abbrev pub total : List (List ℕ) → ℕ
total [] = 0
total (bytes ∷ iov) = length bytes + total iov

unfoldable pub write_pieces : ℕ → List (List ℕ) → Iobuf → Option Iobuf
unfolding write_last
write_pieces i [] io = some io
write_pieces i ([] ∷ iov) io = write_pieces i iov io
write_pieces i ((b ∷ bytes) ∷ iov) io = do
  io' ← write_last i (b ∷ bytes) io
  write_pieces (i + length (b ∷ bytes)) iov io'

unfoldable pub queuev_at : List (List ℕ) → Option ℕ × Iobuf → Option (Ret × Iobuf)
unfolding write_pieces
queuev_at iov (none, io) = some (failed, io)
queuev_at iov (some i, io) = map_some (λ io'. (value 0, io')) (write_pieces i iov io)

unfoldable pub iobuf_queuev : (ℕ → Option (List ℕ)) → List (List ℕ) → Iobuf → Option (Ret × Iobuf)
unfolding iobuf_reserve queuev_at
iobuf_queuev malloc iov io = do r ← iobuf_reserve malloc (total iov) io; queuev_at iov r

-- The text is what vasprintf() gives, `none` where it fails.
unfoldable pub iobuf_vfqueue :
    (ℕ → Option (List ℕ)) → Option (List ℕ) → Iobuf → Option (Ret × Iobuf)
unfolding iobuf_queue
iobuf_vfqueue malloc none io = some (failed, io)
iobuf_vfqueue malloc (some text) io = iobuf_queue malloc text io

-- The bytes of a buffer that are not written yet.
unfoldable pub waiting : Ioqbuf → List ℕ
unfolding take drop
waiting q = drop q.rpos (take q.wpos q.buf)

-- The vector for writev(), at most IOV_MAX parts.
unfoldable pub iov_of : ℕ → List Ioqbuf → List (List ℕ)
unfolding waiting
iov_of zero qs = []
iov_of (suc n) [] = []
iov_of (suc n) (q ∷ qs) = waiting q ∷ iov_of n qs

-- What writev() comes to: EAGAIN or EINTR, EPIPE, another error, or so many bytes.
pub data Sent : Type 0 where
  not_now hung_up refused : Sent
  sent : ℕ → Sent

unfoldable pub write_answer : Iobuf → Sent → Ret × Iobuf
unfolding iobuf_drain
write_answer io not_now = (want_write, io)
write_answer io hung_up = (closed, io)
write_answer io refused = (error, io)
write_answer io (sent n) = (value n, iobuf_drain n io)

unfoldable pub iobuf_write : ℕ → (List (List ℕ) → Sent) → Iobuf → Ret × Iobuf
unfolding iov_of write_answer
iobuf_write iov_max writev io = write_answer io (writev (iov_of iov_max io.outq))

-- What tls_write() comes to.
pub data TlsSent : Type 0 where
  pollin pollout tls_refused : TlsSent
  tls_sent : ℕ → TlsSent

unfoldable pub iobuf_write_tls : (List ℕ → TlsSent) → Iobuf → Option (Ret × Iobuf)
unfolding waiting iobuf_drain
iobuf_write_tls tls_write io = elim io.outq [
  | [] ↦ none
  | q ∷ qs ↦ elim (tls_write (waiting q)) [
    | pollin ↦ some (want_read, io)
    | pollout ↦ some (want_write, io)
    | tls_refused ↦ some (error, io)
    | tls_sent zero ↦ some (closed, io)
    | tls_sent (suc n) ↦ some (value (suc n), iobuf_drain (suc n) io)
  ]
]

abbrev pub is_error : Ret → Bool
is_error (value n) = false
is_error r = true

-- Each call of writev() has its answer in the list; `none` where the loop goes on behind its end.
unfoldable pub iobuf_flush : ℕ → List (List (List ℕ) → Sent) → Iobuf → Option (Ret × Iobuf)
unfolding iobuf_write
iobuf_flush iov_max [] io = if io.queued == 0 then some (value 0, io) else none
iobuf_flush iov_max (writev ∷ answers) io =
    let r = iobuf_write iov_max writev io in
    let rest = iobuf_flush iov_max answers (r.1) in
    if io.queued == 0 then some (value 0, io) else if is_error (r.0) then some r else rest
