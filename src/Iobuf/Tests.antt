-- ===== src/Iobuf/Tests.antt =====
-- Tests of iobuf.c.
use open_smtpd.Base.{
  ℕ, zero, suc, ◌≤◌, ◌≡◌, refl, sym, ap, ◌∙◌, true, Option, none, some, List, [], ◌∷◌, ◌++◌, arith,
  length,
}
use open_smtpd.Iobuf.{
  Iobuf, Ret, iobuf_left, iobuf_data, iobuf_getline, Received, again, got, iobuf_read,
}
use open_smtpd.Iobuf.Queue.{iobuf_queue, iov_of, Sent, sent, iobuf_write}
use open_smtpd.Iobuf.Input.{IsValid, read_bytes, iobuf_read-data}
use open_smtpd.Iobuf.Line.{iobuf_getline-line}
use open_smtpd.Iobuf.Drain.{queue_bytes, IsQueue}
use open_smtpd.Iobuf.Filled.{Queued}
use open_smtpd.Iobuf.Output.{Gives, iobuf_queue-bytes}
use open_smtpd.Iobuf.Written.{joined, Bounded, written, iobuf_write-bytes}

-- Room for 8 bytes, in which two lines begin.
abbrev example_input : Iobuf
example_input = record {
  buf = 97 ∷ 98 ∷ b'\n' ∷ 99 ∷ 100 ∷ 0 ∷ 0 ∷ 0 ∷ [];
  max = 16;
  size = 8;
  wpos = 5;
  rpos = 0;
  queued = 3;
  outq = record { buf = 97 ∷ 98 ∷ 99 ∷ 100 ∷ 0 ∷ 0 ∷ 0 ∷ []; size = 7; wpos = 4; rpos = 1 } ∷ [];
  outqlast = true;
}

input-IsValid : IsValid example_input
input-IsValid = record {
  positions = omega arith;
  within = omega arith;
  memory = refl;
  bound = omega arith;
  word = omega arith;
}

output-IsQueue : IsQueue example_input
unfolding queue_bytes
output-IsQueue = record {
  buffers = (
    record { positions = omega arith; within = omega arith; memory = refl; word = omega arith },
    tt,
  );
  counted = refl;
  linked = refl;
  word = omega arith;
}

iobuf_getline-line_example :
    (io' : Iobuf) × (iobuf_getline example_input ≡ some (io', some (97 ∷ 98 ∷ [])))
    × IsValid io'
    × (iobuf_data io' ≡ 99 ∷ 100 ∷ [])
iobuf_getline-line_example =
    iobuf_getline-line example_input (97 ∷ 98 ∷ []) (99 ∷ 100 ∷ []) input-IsValid (refl, (refl, tt))
      (unfold iobuf_data in refl)

abbrev example_read : ℕ → Received
example_read zero = again
example_read (suc zero) = again
example_read (suc (suc n)) = got (101 ∷ b'\n' ∷ [])

example_read-bounded : (n : ℕ) → length (read_bytes (example_read n)) ≤ n
example_read-bounded zero = omega arith
example_read-bounded (suc zero) = omega arith
example_read-bounded (suc (suc n)) = omega arith

iobuf_read-data_example :
    (r : Ret) × (io' : Iobuf) × (iobuf_read example_read example_input ≡ some (r, io'))
    × IsValid io'
    × (iobuf_data io'
        ≡ iobuf_data example_input ++ read_bytes (example_read (iobuf_left example_input)))
iobuf_read-data_example =
    iobuf_read-data example_read example_input input-IsValid example_read-bounded

abbrev zeros : ℕ → List ℕ
zeros zero = []
zeros (suc n) = 0 ∷ zeros n

length-zeros : (n : ℕ) → length (zeros n) ≡ n
length-zeros zero = refl
length-zeros (suc n) = ap suc (length-zeros n)

abbrev some_length : ℕ → Option (List ℕ) → ℕ
some_length n none = n
some_length n (some mem) = length mem

abbrev example_malloc : ℕ → Option (List ℕ)
example_malloc n = some (zeros n)

malloc-Gives : Gives example_malloc
malloc-Gives n mem h = ap (some_length n) (sym h) ∙ length-zeros n

-- The bytes go into a second buffer.
iobuf_queue-bytes_example :
    (r : Ret) × (io' : Iobuf) × (iobuf_queue example_malloc (101 ∷ 102 ∷ 103 ∷ []) example_input
      ≡ some (r, io'))
    × IsQueue io'
    × Queued (101 ∷ 102 ∷ 103 ∷ []) example_input r io'
iobuf_queue-bytes_example =
    iobuf_queue-bytes example_malloc example_input (101 ∷ 102 ∷ 103 ∷ []) malloc-Gives
      output-IsQueue (omega arith)

abbrev two_of : List ℕ → ℕ
two_of (b ∷ c ∷ bytes) = 2
two_of _ = 0

abbrev example_writev : List (List ℕ) → Sent
example_writev iov = sent (two_of (joined iov))

two_of-bound : (bytes : List ℕ) → two_of bytes ≤ length bytes
two_of-bound [] = omega arith
two_of-bound (b ∷ []) = omega arith
two_of-bound (b ∷ c ∷ bytes) = omega arith

abbrev sent_count : Sent → ℕ
sent_count (sent n) = n
sent_count s = 0

writev-Bounded : Bounded example_writev
writev-Bounded iov n h = omega (arith, two_of-bound (joined iov), ap sent_count h)

iobuf_write-bytes_example :
    IsQueue ((iobuf_write 16 example_writev example_input).1)
    × (written (example_writev (iov_of 16 example_input.outq)) (iov_of 16 example_input.outq)
          ++ queue_bytes ((iobuf_write 16 example_writev example_input).1).outq
        ≡ queue_bytes example_input.outq)
iobuf_write-bytes_example =
    iobuf_write-bytes 16 example_writev example_input output-IsQueue writev-Bounded
