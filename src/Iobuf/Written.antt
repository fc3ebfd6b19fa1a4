-- ===== src/Iobuf/Written.antt =====
-- What usr.sbin/smtpd/iobuf.c hands to writev(), and what waits then.
use open_smtpd.Base.{
  sub64, sub64_lem, ℕ, zero, suc, ◌-◌, ◌≤◌, ◌≡◌, refl, sym, ap, ◌∙◌, Bool, not, ◌&&◌, List, [], ◌∷◌,
  ◌++◌, arith, length, length-append,
}
use open_smtpd.Iobuf.{Ioqbuf, Iobuf, is_empty, drain, iobuf_drain}
use open_smtpd.Iobuf.Bytes.{take, drop, length-drop, drop-append, take-drop}
use open_smtpd.Iobuf.Queue.{
  waiting, iov_of, Sent, not_now, hung_up, refused, sent, write_answer, iobuf_write,
}
use open_smtpd.Iobuf.Drain.{queue_bytes, IsQueue, drain-Drains}
use mathlib.Core.List.{append_assoc}

linked_drain :
    (n : ℕ) (qs : List Ioqbuf) (b : Bool)
    → b ≡ not (is_empty qs)
    → (b && not (is_empty ((drain n qs).0))) ≡ not (is_empty ((drain n qs).0))
linked_drain n [] b h = unfold drain in rw h refl
linked_drain n (q ∷ qs) b h = rw h refl

iobuf_drain-IsQueue :
    (n : ℕ) (io : Iobuf)
    → IsQueue io
    → n ≤ io.queued
    → IsQueue (iobuf_drain n io)
      × (queue_bytes (iobuf_drain n io).outq ≡ drop n (queue_bytes io.outq))
unfolding iobuf_drain
iobuf_drain-IsQueue n io v h =
    let (bytes, all, a) =
      drain-Drains n io.outq v.buffers (omega (arith, h, v.counted)) (omega (arith, h, v.word)) in
    let n_less : n - 0 ≡ n = omega arith in
    let gone : sub64 n ((drain n io.outq).1) ≡ n =
      ap (λ k. sub64 n k) all ∙ sub64_lem n 0 (omega arith) (omega (arith, h, v.word)) ∙ n_less in
    let left : sub64 io.queued n ≡ io.queued - n = sub64_lem io.queued n h v.word in
    (
      record {
        buffers = a;
        counted =
            ap (λ k. sub64 io.queued k) gone
            ∙ left
            ∙ omega
                (arith, v.counted, ap (λ xs. length xs) bytes, length-drop n (queue_bytes io.outq));
        linked = linked_drain n io.outq io.outqlast v.linked;
        word = omega (arith, ap (λ k. sub64 io.queued k) gone, left, v.word);
      },
      bytes,
    )

abbrev pub joined : List (List ℕ) → List ℕ
joined [] = []
joined (bytes ∷ iov) = bytes ++ joined iov

-- The vector is the beginning of what waits.
iov_of-joined :
    (k : ℕ) (qs : List Ioqbuf) → (rest : List ℕ) × (queue_bytes qs ≡ joined (iov_of k qs) ++ rest)
unfolding iov_of queue_bytes
iov_of-joined zero qs = (queue_bytes qs, refl)
iov_of-joined (suc k) [] = ([], refl)
iov_of-joined (suc k) (q ∷ qs) =
    let (rest, e) = iov_of-joined k qs in
    (
      rest,
      ap (λ xs. waiting q ++ xs) e ∙ sym (append_assoc (waiting q) (joined (iov_of k qs)) rest),
    )

-- writev() writes no more than it was given.
abbrev pub Bounded : (List (List ℕ) → Sent) → Type 0
Bounded writev = (iov : List (List ℕ)) (n : ℕ) → writev iov ≡ sent n → n ≤ length (joined iov)

-- The bytes of a vector that a call has written.
abbrev pub written : Sent → List (List ℕ) → List ℕ
written (sent n) iov = take n (joined iov)
written s iov = []

write_answer-bytes :
    (s : Sent) (k : ℕ) (io : Iobuf)
    → IsQueue io
    → ((n : ℕ) → s ≡ sent n → n ≤ length (joined (iov_of k io.outq)))
    → IsQueue ((write_answer io s).1)
      × (written s (iov_of k io.outq) ++ queue_bytes ((write_answer io s).1).outq
          ≡ queue_bytes io.outq)
unfolding write_answer
write_answer-bytes not_now k io v b = (v, refl)
write_answer-bytes hung_up k io v b = (v, refl)
write_answer-bytes refused k io v b = (v, refl)
write_answer-bytes (sent n) k io v b =
    let iov = joined (iov_of k io.outq) in
    let bound : n ≤ length iov = b n refl in
    let (rest, e) = iov_of-joined k io.outq in
    let size = length-append {0} iov rest in
    let (q, d) =
      iobuf_drain-IsQueue n io v (omega (arith, bound, v.counted, ap (λ xs. length xs) e, size)) in
    let behind : queue_bytes (iobuf_drain n io).outq ≡ drop n iov ++ rest =
      d ∙ ap (λ xs. drop n xs) e ∙ drop-append n iov rest bound in
    (
      q,
      ap (λ xs. take n iov ++ xs) behind
          ∙ sym (append_assoc (take n iov) (drop n iov) rest)
          ∙ ap (λ xs. xs ++ rest) (take-drop n iov)
          ∙ sym e,
    )

-- Where writev() writes no more than it is given, iobuf_write() keeps a queue in order, and what was
-- written, with what waits then behind it, is what waited before.
pub iobuf_write-bytes :
    (iov_max : ℕ) (writev : List (List ℕ) → Sent) (io : Iobuf)
    → IsQueue io
    → Bounded writev
    → IsQueue ((iobuf_write iov_max writev io).1)
      × (written (writev (iov_of iov_max io.outq)) (iov_of iov_max io.outq)
            ++ queue_bytes ((iobuf_write iov_max writev io).1).outq
          ≡ queue_bytes io.outq)
unfolding iobuf_write
iobuf_write-bytes iov_max writev io v b =
    write_answer-bytes (writev (iov_of iov_max io.outq)) iov_max io v (b (iov_of iov_max io.outq))
