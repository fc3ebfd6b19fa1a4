-- ===== src/Iobuf.antt =====
-- Buffered input and output: usr.sbin/smtpd/iobuf.c. `none` is an access outside of a buffer's memory,
-- or to memory that was freed.
pub mod Bytes
pub mod Queue
pub mod Input
pub mod Line
pub mod Drain
pub mod Filled
pub mod Output
pub mod Written
mod Tests
use open_smtpd.Base.{
  sub64, ℕ, ◌+◌, Bool, true, false, not, ◌&&◌, Option, none, some, List, [], ◌∷◌, ◌++◌, ltb, leb,
  ◌==◌, ◌>>=◌, length, if◌then◌else◌,
}
use open_smtpd.Iobuf.Bytes.{take, drop}

-- struct ioqbuf; `buf` is its memory, of `size` bytes.
pub record Ioqbuf : Type 0 where
  pub buf : List ℕ
  pub size : ℕ
  pub wpos : ℕ
  pub rpos : ℕ

-- struct iobuf; the list `outq` is linked by `next`, and `outqlast` says that the pointer is set, which
-- is then to be to the last of the list.
pub record Iobuf : Type 0 where
  pub buf : List ℕ
  pub max : ℕ
  pub size : ℕ
  pub wpos : ℕ
  pub rpos : ℕ
  pub queued : ℕ
  pub outq : List Ioqbuf
  pub outqlast : Bool

-- What a function gives; `failed` is -1 of those that give no other error.
pub data Ret : Type 0 where
  value : ℕ → Ret
  want_read want_write closed error failed : Ret

-- memmove() of some bytes to a place in a memory.
unfoldable pub put : List ℕ → ℕ → List ℕ → Option (List ℕ)
unfolding take drop
put mem i bytes =
    if leb (i + length bytes) (length mem)
    then some (take i mem ++ (bytes ++ drop (i + length bytes) mem))
    else none

abbrev pub iobuf_max : ℕ
iobuf_max = 65536

abbrev pub iobufq_min : ℕ
iobufq_min = 4096

unfoldable pub iobuf_clear : Iobuf
iobuf_clear = record {
  buf = [];
  max = 0;
  size = 0;
  wpos = 0;
  rpos = 0;
  queued = 0;
  outq = [];
  outqlast = false;
}

abbrev pub or_else : ℕ → ℕ → ℕ
or_else n default = if n == 0 then default else n

-- `calloc` gives a memory of so many bytes, or `none`.
unfoldable pub set_up : Option (List ℕ) → ℕ → ℕ → Ret × Iobuf
unfolding iobuf_clear
set_up none size max = (failed, iobuf_clear)
set_up (some mem) size max = (value 0, record iobuf_clear { buf = mem; size = size; max = max })

unfoldable pub iobuf_init : (ℕ → Option (List ℕ)) → ℕ → ℕ → Ret × Iobuf
unfolding set_up
iobuf_init calloc size max =
    let m = or_else max iobuf_max in
    let s = or_else size m in if ltb m s then (failed, iobuf_clear) else set_up (calloc s) s m

abbrev pub is_empty {ℓ} : {A : Type ℓ} → List A → Bool
is_empty [] = true
is_empty (x ∷ xs) = false

-- The buffers that are left of a queue, and how many bytes were not drained.
unfoldable pub drain : ℕ → List Ioqbuf → List Ioqbuf × ℕ
drain left [] = ([], left)
drain left (q ∷ qs) =
    if left == 0
    then (q ∷ qs, left)
    else if ltb left (sub64 q.wpos q.rpos)
    then (record q { rpos = q.rpos + left } ∷ qs, 0)
    else drain (sub64 left (sub64 q.wpos q.rpos)) qs

unfoldable pub iobuf_drain : ℕ → Iobuf → Iobuf
unfolding drain
iobuf_drain n io =
    let r = drain n io.outq in
    record io {
      outq = r.0;
      queued = sub64 io.queued (sub64 n (r.1));
      outqlast = io.outqlast && not (is_empty (r.0));
    }

unfoldable pub extended : Option (List ℕ) → ℕ → Iobuf → Ret × Iobuf
extended none n io = (failed, io)
extended (some mem) n io = (value 0, record io { buf = mem; size = io.size + n })

unfoldable pub iobuf_extend : (List ℕ → ℕ → Option (List ℕ)) → ℕ → Iobuf → Ret × Iobuf
unfolding extended
iobuf_extend recallocarray n io =
    if ltb io.max n
    then (failed, io)
    else if ltb (sub64 io.max io.size) n
    then (failed, io)
    else extended (recallocarray io.buf (io.size + n)) n io

unfoldable pub iobuf_left : Iobuf → ℕ
iobuf_left io = sub64 io.size io.wpos

unfoldable pub iobuf_space : Iobuf → ℕ
iobuf_space io = sub64 io.size (sub64 io.wpos io.rpos)

unfoldable pub iobuf_len : Iobuf → ℕ
iobuf_len io = sub64 io.wpos io.rpos

-- The bytes from iobuf_data() on, iobuf_len() many.
unfoldable pub iobuf_data : Iobuf → List ℕ
unfolding take drop
iobuf_data io = drop io.rpos (take io.wpos io.buf)

unfoldable pub iobuf_drop : ℕ → Iobuf → Iobuf
unfolding iobuf_len
iobuf_drop n io =
    if leb (iobuf_len io) n
    then record io { rpos = 0; wpos = 0 }
    else record io { rpos = io.rpos + n }

unfoldable pub find_newline : List ℕ → ℕ → Option ℕ
find_newline [] i = none
find_newline (b ∷ bytes) i = if b == b'\n' then some i else find_newline bytes (i + 1)

-- The line that is found, without its end, which a NUL replaces.
unfoldable pub line_taken : Iobuf → Option ℕ → Option (Iobuf × Option (List ℕ))
unfolding put iobuf_drop iobuf_data take
line_taken io none = some (io, none)
line_taken io (some i) = do
  mem ← put io.buf (io.rpos + i) (0 ∷ [])
  some (record (iobuf_drop (i + 1) io) { buf = mem }, some (take i (iobuf_data io)))

unfoldable pub iobuf_getline : Iobuf → Option (Iobuf × Option (List ℕ))
unfolding line_taken find_newline iobuf_data
iobuf_getline io = line_taken io (find_newline (iobuf_data io) 0)

unfoldable pub iobuf_normalize : Iobuf → Option Iobuf
unfolding put iobuf_data
iobuf_normalize io =
    if io.rpos == 0
    then some io
    else if io.rpos == io.wpos
    then some (record io { rpos = 0; wpos = 0 })
    else (do
      mem ← put io.buf 0 (iobuf_data io)
      some (record io { buf = mem; wpos = sub64 io.wpos io.rpos; rpos = 0 }))

-- What read() comes to: EAGAIN or EINTR, another error, or bytes, none at the end of the file.
pub data Received : Type 0 where
  again broken : Received
  got : List ℕ → Received

unfoldable pub received : List ℕ → Iobuf → Option (Ret × Iobuf)
unfolding put
received [] io = some (closed, io)
received (b ∷ bytes) io = do
  mem ← put io.buf io.wpos (b ∷ bytes)
  some (value (length (b ∷ bytes)), record io { buf = mem; wpos = io.wpos + length (b ∷ bytes) })

unfoldable pub read_answer : Iobuf → Received → Option (Ret × Iobuf)
unfolding received
read_answer io again = some (want_read, io)
read_answer io broken = some (error, io)
read_answer io (got bytes) = received bytes io

unfoldable pub iobuf_read : (ℕ → Received) → Iobuf → Option (Ret × Iobuf)
unfolding iobuf_left read_answer
iobuf_read read io = read_answer io (read (iobuf_left io))

-- What tls_read() comes to.
pub data TlsReceived : Type 0 where
  wants_pollin wants_pollout tls_broken : TlsReceived
  tls_got : List ℕ → TlsReceived

unfoldable pub tls_read_answer : Iobuf → TlsReceived → Option (Ret × Iobuf)
unfolding received
tls_read_answer io wants_pollin = some (want_read, io)
tls_read_answer io wants_pollout = some (want_write, io)
tls_read_answer io tls_broken = some (error, io)
tls_read_answer io (tls_got bytes) = received bytes io

unfoldable pub iobuf_read_tls : (ℕ → TlsReceived) → Iobuf → Option (Ret × Iobuf)
unfolding iobuf_left tls_read_answer
iobuf_read_tls tls_read io = tls_read_answer io (tls_read (iobuf_left io))
