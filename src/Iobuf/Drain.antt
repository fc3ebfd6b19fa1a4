-- ===== src/Iobuf/Drain.antt =====
-- Output that was written is taken off the front of the queue of usr.sbin/smtpd/iobuf.c.
use open_smtpd.Base.{
  sub64, sub64_lem, ℕ, ◌+◌, ◌-◌, ◌^◌, ◌≤◌, ◌<◌, ◌≡◌, refl, sym, ap, ◌∙◌, inl, inr, not, List, [],
  ◌∷◌, ◌++◌, arith, ltb, ◌==◌, Bool-cases, length, length-append, All,
}
use open_smtpd.Iobuf.{Ioqbuf, Iobuf, is_empty, drain}
use open_smtpd.Iobuf.Bytes.{
  take, drop, length-take, length-drop, drop-append, drop-behind, drop-drop, drop-length,
}
use open_smtpd.Iobuf.Queue.{waiting}

pub record IsBuffer (q : Ioqbuf) : Type 0 where
  pub positions : q.rpos ≤ q.wpos
  pub within : q.wpos ≤ q.size
  pub memory : length q.buf ≡ q.size
  pub word : q.size < 2 ^ 64

-- The bytes that wait, in the order in which they are to be written.
unfoldable pub queue_bytes : List Ioqbuf → List ℕ
unfolding waiting
queue_bytes [] = []
queue_bytes (q ∷ qs) = waiting q ++ queue_bytes qs

-- Each buffer is in order, the bytes are counted, and the last buffer is known if there is one.
pub record IsQueue (io : Iobuf) : Type 0 where
  pub buffers : All IsBuffer io.outq
  pub counted : io.queued ≡ length (queue_bytes io.outq)
  pub linked : io.outqlast ≡ not (is_empty io.outq)
  pub word : io.queued < 2 ^ 64

pub length-waiting : (q : Ioqbuf) → IsBuffer q → length (waiting q) ≡ q.wpos - q.rpos
unfolding waiting
length-waiting q v = omega (
  arith,
  length-drop q.rpos (take q.wpos q.buf),
  length-take q.wpos q.buf (omega (arith, v.within, v.memory)),
)

pub len_lem : (q : Ioqbuf) → IsBuffer q → sub64 q.wpos q.rpos ≡ length (waiting q)
len_lem q v =
    sub64_lem q.wpos q.rpos v.positions (omega (arith, v.within, v.word)) ∙ sym (length-waiting q v)

-- What drain() does to the buffers.
abbrev pub Drains : ℕ → List Ioqbuf → List Ioqbuf × ℕ → Type 0
Drains n qs r = (queue_bytes (r.0) ≡ drop n (queue_bytes qs)) × (r.1 ≡ 0) × All IsBuffer (r.0)

waiting-front : (q : Ioqbuf) (n : ℕ) → waiting (record q { rpos = q.rpos + n }) ≡ drop n (waiting q)
unfolding waiting
waiting-front q n = drop-drop n q.rpos (take q.wpos q.buf)

pub drain-Drains :
    (n : ℕ) (qs : List Ioqbuf)
    → All IsBuffer qs
    → n ≤ length (queue_bytes qs)
    → n < 2 ^ 64
    → Drains n qs (drain n qs)
unfolding drain queue_bytes
drain-Drains n [] a h small = (sym (drop-length n [] (omega arith)), omega (arith, h), tt)
drain-Drains n (q ∷ qs) (v, a) h small = elim (Bool-cases (n == 0)) [
  | inl e ↦
      let zero_left : n ≡ 0 = ground arith in
      rw e (ap (λ k. drop k (queue_bytes (q ∷ qs))) (sym zero_left), zero_left, (v, a))
  | inr e ↦ elim (Bool-cases (ltb n (sub64 q.wpos q.rpos))) [
    | inl f ↦
        let len = len_lem q v in
        let l = length-waiting q v in
        rw (e, f)
          (
            ap (λ xs. xs ++ queue_bytes qs) (waiting-front q n)
                ∙ sym (drop-append n (waiting q) (queue_bytes qs) (ground (arith, len))),
            refl,
            (
              record {
                positions = ground (arith, len, l, v.positions);
                within = v.within;
                memory = v.memory;
                word = v.word;
              },
              a,
            ),
          )
    | inr f ↦
        let len = len_lem q v in
        let all = length-append {0} (waiting q) (queue_bytes qs) in
        let whole : length (waiting q) ≤ n = ground (arith, len) in
        let left : sub64 n (sub64 q.wpos q.rpos) ≡ n - length (waiting q) =
          ap (λ k. sub64 n k) len ∙ sub64_lem n (length (waiting q)) whole small in
        let rest =
          drain-Drains (n - length (waiting q)) qs a (omega (arith, h, all, whole))
            (omega (arith, small)) in
        rw (e, f, left)
          (rest.0 ∙ sym (drop-behind n (waiting q) (queue_bytes qs) whole), rest.1, rest.2)
  ]
]
