-- ===== src/Iobuf/Line.antt =====
-- Lines in the input of usr.sbin/smtpd/iobuf.c, and the place that is made for more.
use open_smtpd.Base.{
  sub64, sub64_lem, ℕ, suc, ◌+◌, ◌-◌, ◌≤◌, ◌≡◌, refl, sym, ap, ◌∙◌, inl, inr, false, none, some,
  List, [], ◌∷◌, ◌++◌, arith, leb, ◌==◌, ◌>>=◌, Bool-cases, length, length-append, All,
}
use open_smtpd.Iobuf.{
  Iobuf, put, iobuf_len, iobuf_data, iobuf_drop, find_newline, line_taken, iobuf_getline,
  iobuf_normalize,
}
use open_smtpd.Iobuf.Bytes.{
  take, drop, length-take, drop-behind, drop-take, drop-length, take-exact,
}
use open_smtpd.Iobuf.Input.{IsValid, put_lem, length-put, length-data, iobuf_drop-data}

abbrev pub IsLine : List ℕ → Type 0
IsLine bytes = All (λ b. (b == b'\n') ≡ false) bytes

find_newline-line :
    (line rest : List ℕ) (i : ℕ)
    → IsLine line
    → find_newline (line ++ b'\n' ∷ rest) i ≡ some (i + length line)
unfolding find_newline
find_newline-line [] rest i h = let e : i ≡ i + 0 = omega arith in ap (λ k. some k) e
find_newline-line (b ∷ line) rest i (n, h) =
    let e : i + 1 + length line ≡ i + suc (length line) = omega arith in
    rw n (find_newline-line line rest (i + 1) h ∙ ap (λ k. some k) e)

find_newline-none : (bytes : List ℕ) (i : ℕ) → IsLine bytes → find_newline bytes i ≡ none
unfolding find_newline
find_newline-none [] i h = refl
find_newline-none (b ∷ bytes) i (n, h) = rw n (find_newline-none bytes (i + 1) h)

-- What is written before a place does not change what stands there.
put-before :
    (mem : List ℕ) (b j w : ℕ)
    → j + 1 ≤ length mem
    → drop (j + 1) (take w (take j mem ++ (b ∷ drop (j + 1) mem))) ≡ drop (j + 1) (take w mem)
unfolding drop
put-before mem b j w h =
    let len = length-take j mem (omega arith) in
    let one : j + 1 - length (take j mem) ≡ 1 = omega (arith, len) in
    drop-take (j + 1) w (take j mem ++ (b ∷ drop (j + 1) mem))
    ∙ ap (λ xs. take (w - (j + 1)) xs)
        (drop-behind (j + 1) (take j mem) (b ∷ drop (j + 1) mem) (omega (arith, len))
          ∙ ap (λ k. drop k (b ∷ drop (j + 1) mem)) one)
    ∙ sym (drop-take (j + 1) w mem)

written-data :
    (b i : ℕ) (io : Iobuf)
    → io.rpos + i + 1 ≤ length io.buf
    → iobuf_data (record (iobuf_drop (i + 1) io) {
      buf = take (io.rpos + i) io.buf ++ (b ∷ drop (io.rpos + i + 1) io.buf);
    })
      ≡ iobuf_data (iobuf_drop (i + 1) io)
unfolding iobuf_data iobuf_drop take drop
written-data b i io h = elim (Bool-cases (leb (iobuf_len io) (i + 1))) [
  | inl e ↦ rw e refl
  | inr e ↦
      let k : io.rpos + (i + 1) ≡ io.rpos + i + 1 = omega arith in
      rw (e, k) (put-before io.buf b (io.rpos + i) io.wpos h)
]

drop-line : (line rest : List ℕ) (b : ℕ) → drop (length line + 1) (line ++ b ∷ rest) ≡ rest
unfolding drop
drop-line line rest b =
    let e : length line + 1 - length line ≡ 1 = omega arith in
    drop-behind (length line + 1) line (b ∷ rest) (omega arith) ∙ ap (λ k. drop k (b ∷ rest)) e

iobuf_drop-buf : (n : ℕ) (io : Iobuf) → (iobuf_drop n io).buf ≡ io.buf
unfolding iobuf_drop
iobuf_drop-buf n io = elim (Bool-cases (leb (iobuf_len io) n)) [
  | inl e ↦ rw e refl
  | inr e ↦ rw e refl
]

same_size :
    (io : Iobuf) (mem : List ℕ)
    → IsValid io
    → length mem ≡ length io.buf
    → IsValid (record io { buf = mem })
same_size io mem v h = record {
  positions = v.positions;
  within = v.within;
  memory = h ∙ v.memory;
  bound = v.bound;
  word = v.word;
}

-- If the input begins with a line and its newline, iobuf_getline() gives the line, and the input goes on
-- behind the newline; no byte outside of the buffer is written.
pub iobuf_getline-line :
    (io : Iobuf) (line rest : List ℕ)
    → IsValid io
    → IsLine line
    → iobuf_data io ≡ line ++ b'\n' ∷ rest
    → (io' : Iobuf) × (iobuf_getline io ≡ some (io', some line))
      × IsValid io'
      × (iobuf_data io' ≡ rest)
unfolding iobuf_getline line_taken
iobuf_getline-line io line rest v l d =
    let i = length line in
    let size : i + 1 + length rest ≡ io.wpos - io.rpos =
      omega
        (arith, length-data io v, ap (λ xs. length xs) d, length-append {0} line (b'\n' ∷ rest)) in
    let fits : io.rpos + i + 1 ≤ length io.buf =
      omega (arith, size, v.positions, v.within, v.memory) in
    let dropped = iobuf_drop-data (i + 1) io v in
    let mem = take (io.rpos + i) io.buf ++ (0 ∷ drop (io.rpos + i + 1) io.buf) in
    let start : 0 + i ≡ i = omega arith in
    let found : find_newline (iobuf_data io) 0 ≡ some i =
      ap (λ xs. find_newline xs 0) d ∙ find_newline-line line rest 0 l ∙ ap (λ k. some k) start in
    let first : take i (iobuf_data io) ≡ line =
      ap (λ xs. take i xs) d ∙ take-exact line (b'\n' ∷ rest) in
    (
      record (iobuf_drop (i + 1) io) { buf = mem },
      rw (found, put_lem io.buf (io.rpos + i) (0 ∷ []) fits, first) refl,
      same_size (iobuf_drop (i + 1) io) mem dropped.0 (
          length-put io.buf (io.rpos + i) (0 ∷ []) fits
          ∙ ap length (sym (iobuf_drop-buf (i + 1) io))),
      written-data 0 i io fits
          ∙ dropped.1
          ∙ ap (λ xs. drop (i + 1) xs) d
          ∙ drop-line line rest b'\n',
    )

-- Without a newline in the input iobuf_getline() gives NULL and changes nothing.
pub iobuf_getline-none : (io : Iobuf) → IsLine (iobuf_data io) → iobuf_getline io ≡ some (io, none)
unfolding iobuf_getline line_taken
iobuf_getline-none io l = rw (find_newline-none (iobuf_data io) 0 l) refl

moved-data :
    (io : Iobuf)
    → IsValid io
    → (io' : Iobuf) × (put io.buf 0 (iobuf_data io)
          >>= (λ mem. some (record io { buf = mem; wpos = sub64 io.wpos io.rpos; rpos = 0 }))
        ≡ some io')
      × IsValid io'
      × (iobuf_data io' ≡ iobuf_data io)
      × (io'.rpos ≡ 0)
moved-data io v =
    let d = iobuf_data io in
    let len = length-data io v in
    let mem = take 0 io.buf ++ (d ++ drop (0 + length d) io.buf) in
    let fits : 0 + length d ≤ length io.buf = omega (arith, len, v.within, v.memory) in
    let end : sub64 io.wpos io.rpos ≡ length d =
      sub64_lem io.wpos io.rpos v.positions (omega (arith, v.within, v.bound, v.word)) ∙ sym len in
    (
      record io { buf = mem; wpos = sub64 io.wpos io.rpos; rpos = 0 },
      rw (put_lem io.buf 0 d fits) refl,
      record {
        positions = omega arith;
        within = omega (arith, end, len, v.within);
        memory = length-put io.buf 0 d fits ∙ v.memory;
        bound = v.bound;
        word = v.word;
      },
      unfold iobuf_data drop take in
          ap (λ k. take k mem) end ∙ take-exact d (drop (0 + length d) io.buf),
      refl,
    )

-- iobuf_normalize() keeps the input, moves it to the front of the buffer, and writes nothing outside of it.
pub iobuf_normalize-data :
    (io : Iobuf)
    → IsValid io
    → (io' : Iobuf) × (iobuf_normalize io ≡ some io')
      × IsValid io'
      × (iobuf_data io' ≡ iobuf_data io)
      × (io'.rpos ≡ 0)
unfolding iobuf_normalize
iobuf_normalize-data io v = elim (Bool-cases (io.rpos == 0)) [
  | inl e ↦ (io, rw e refl, v, refl, ground arith)
  | inr e ↦ elim (Bool-cases (io.rpos == io.wpos)) [
    | inl f ↦
        let none_left = length-data io v in
        (
          record io { rpos = 0; wpos = 0 },
          rw (e, f) refl,
          record {
            positions = omega arith;
            within = omega arith;
            memory = v.memory;
            bound = v.bound;
            word = v.word;
          },
          unfold iobuf_data take drop in
              sym (drop-length 0 (iobuf_data io) (ground (arith, none_left))),
          refl,
        )
    | inr f ↦ rw (e, f) (moved-data io v)
  ]
]
