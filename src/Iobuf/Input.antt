-- ===== src/Iobuf/Input.antt =====
-- The input of usr.sbin/smtpd/iobuf.c: what is read comes out in the same order, line by line.
use open_smtpd.Base.{
  sub64_lem, ℕ, ◌+◌, ◌-◌, ◌^◌, ◌≤◌, ◌<◌, ◌≡◌, refl, sym, ap, ◌∙◌, inl, inr, true, some, List, [],
  ◌∷◌, ◌++◌, arith, leb, Bool-cases, length, length-append,
}
use open_smtpd.Iobuf.{
  Iobuf, Ret, value, want_read, closed, error, put, iobuf_left, iobuf_len, iobuf_data, iobuf_drop,
  Received, again, broken, got, received, read_answer, iobuf_read,
}
use open_smtpd.Iobuf.Bytes.{
  take, drop, length-take, length-drop, drop-append, take-behind, drop-drop, drop-length,
  take-exact,
}
use mathlib.Core.List.{append-nil}

-- The positions are in order, and in the memory.
pub record IsValid (io : Iobuf) : Type 0 where
  pub positions : io.rpos ≤ io.wpos
  pub within : io.wpos ≤ io.size
  pub memory : length io.buf ≡ io.size
  pub bound : io.size ≤ io.max
  pub word : io.max < 2 ^ 64

pub put_lem :
    (mem : List ℕ) (i : ℕ) (bytes : List ℕ)
    → i + length bytes ≤ length mem
    → put mem i bytes ≡ some (take i mem ++ (bytes ++ drop (i + length bytes) mem))
unfolding put
put_lem mem i bytes h = let e : leb (i + length bytes) (length mem) ≡ true = ground arith in rw e

pub length-put :
    (mem : List ℕ) (i : ℕ) (bytes : List ℕ)
    → i + length bytes ≤ length mem
    → length (take i mem ++ (bytes ++ drop (i + length bytes) mem)) ≡ length mem
length-put mem i bytes h = omega (
  arith,
  length-append {0} (take i mem) (bytes ++ drop (i + length bytes) mem),
  length-append {0} bytes (drop (i + length bytes) mem),
  length-take i mem (omega arith),
  length-drop (i + length bytes) mem,
)

-- What is written at the end of the taken part is behind what was there.
pub put-behind :
    (mem bytes : List ℕ) (r w : ℕ)
    → r ≤ w
    → w + length bytes ≤ length mem
    → drop r (take (w + length bytes) (take w mem ++ (bytes ++ drop (w + length bytes) mem)))
      ≡ drop r (take w mem) ++ bytes
put-behind mem bytes r w h fits =
    let tail = drop (w + length bytes) mem in
    let len : length (take w mem) ≡ w = length-take w mem (omega arith) in
    let more : w + length bytes - length (take w mem) ≡ length bytes = omega (arith, len) in
    let all : take (w + length bytes) (take w mem ++ (bytes ++ tail)) ≡ take w mem ++ bytes =
      take-behind (w + length bytes) (take w mem) (bytes ++ tail) (omega (arith, len))
      ∙ ap (λ k. take w mem ++ take k (bytes ++ tail)) more
      ∙ ap (λ xs. take w mem ++ xs) (take-exact bytes tail) in
    ap (λ xs. drop r xs) all ∙ drop-append r (take w mem) bytes (omega (arith, len))

pub length-data : (io : Iobuf) → IsValid io → length (iobuf_data io) ≡ io.wpos - io.rpos
unfolding iobuf_data
length-data io v = omega (
  arith,
  length-drop io.rpos (take io.wpos io.buf),
  length-take io.wpos io.buf (omega (arith, v.within, v.memory)),
)

pub iobuf_len_lem : (io : Iobuf) → IsValid io → iobuf_len io ≡ io.wpos - io.rpos
unfolding iobuf_len
iobuf_len_lem io v =
    sub64_lem io.wpos io.rpos v.positions (omega (arith, v.within, v.bound, v.word))

received-Kept :
    (bytes : List ℕ) (io : Iobuf)
    → IsValid io
    → length bytes ≤ iobuf_left io
    → (r : Ret) × (io' : Iobuf) × (received bytes io ≡ some (r, io'))
      × IsValid io'
      × (iobuf_data io' ≡ iobuf_data io ++ bytes)
unfolding received iobuf_data
received-Kept [] io v h = (closed, io, refl, v, sym (append-nil (iobuf_data io)))
received-Kept (b ∷ bytes) io v h =
    let left : iobuf_left io ≡ io.size - io.wpos =
      unfold iobuf_left in sub64_lem io.size io.wpos v.within (omega (arith, v.bound, v.word)) in
    let fits : io.wpos + length (b ∷ bytes) ≤ length io.buf =
      omega (arith, h, left, v.within, v.memory) in
    (
      value (length (b ∷ bytes)),
      record io {
        buf = take io.wpos io.buf ++ ((b ∷ bytes) ++ drop (io.wpos + length (b ∷ bytes)) io.buf);
        wpos = io.wpos + length (b ∷ bytes);
      },
      rw (put_lem io.buf io.wpos (b ∷ bytes) fits) refl,
      record {
        positions = omega (arith, v.positions);
        within = omega (arith, fits, v.memory);
        memory = length-put io.buf io.wpos (b ∷ bytes) fits ∙ v.memory;
        bound = v.bound;
        word = v.word;
      },
      put-behind io.buf (b ∷ bytes) io.rpos io.wpos v.positions fits,
    )

abbrev pub read_bytes : Received → List ℕ
read_bytes (got bytes) = bytes
read_bytes r = []

read_answer-data :
    (a : Received) (io : Iobuf)
    → IsValid io
    → length (read_bytes a) ≤ iobuf_left io
    → (r : Ret) × (io' : Iobuf) × (read_answer io a ≡ some (r, io'))
      × IsValid io'
      × (iobuf_data io' ≡ iobuf_data io ++ read_bytes a)
unfolding read_answer
read_answer-data again io v h = (want_read, io, refl, v, sym (append-nil (iobuf_data io)))
read_answer-data broken io v h = (error, io, refl, v, sym (append-nil (iobuf_data io)))
read_answer-data (got bytes) io v h = received-Kept bytes io v h

-- Where read() gives no more bytes than it is asked for, iobuf_read() keeps to the memory of a buffer
-- whose positions are in order, keeps them in order, and adds what was read behind the input.
pub iobuf_read-data :
    (read : ℕ → Received) (io : Iobuf)
    → IsValid io
    → ((n : ℕ) → length (read_bytes (read n)) ≤ n)
    → (r : Ret) × (io' : Iobuf) × (iobuf_read read io ≡ some (r, io'))
      × IsValid io'
      × (iobuf_data io' ≡ iobuf_data io ++ read_bytes (read (iobuf_left io)))
unfolding iobuf_read
iobuf_read-data read io v h = read_answer-data (read (iobuf_left io)) io v (h (iobuf_left io))

-- What iobuf_drop() leaves.
pub iobuf_drop-data :
    (n : ℕ) (io : Iobuf)
    → IsValid io
    → IsValid (iobuf_drop n io) × (iobuf_data (iobuf_drop n io) ≡ drop n (iobuf_data io))
unfolding iobuf_drop iobuf_data
iobuf_drop-data n io v =
    let len = iobuf_len_lem io v in
    let l = length-data io v in
    elim (Bool-cases (leb (iobuf_len io) n)) [
      | inl e ↦
          let all : drop n (drop io.rpos (take io.wpos io.buf)) ≡ [] =
            drop-length n (drop io.rpos (take io.wpos io.buf)) (ground (arith, len, l)) in
          rw e (
            record {
              positions = omega arith;
              within = omega arith;
              memory = v.memory;
              bound = v.bound;
              word = v.word;
            },
            sym all,
          )
      | inr e ↦ rw e (
        record {
          positions = ground (arith, len, v.positions);
          within = v.within;
          memory = v.memory;
          bound = v.bound;
          word = v.word;
        },
        drop-drop n io.rpos (take io.wpos io.buf),
      )
    ]
