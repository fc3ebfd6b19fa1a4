-- ===== src/Dns/Names.antt =====
-- Names in a packet of usr.sbin/smtpd/unpack_dns.c that are written out, without pointers.
use open_smtpd.Base.{
  ℕ, zero, suc, ◌+◌, ◌-◌, ◌/◌, ◌%◌, ◌≤◌, ◌<◌, min, ◌≡◌, refl, sym, ap, ◌∙◌, inl, inr, false, some,
  List, [], ◌∷◌, ◌++◌, arith, ltb, leb, ◌==◌, Bool-cases, length, length-append, All, if◌then◌else◌,
}
use open_smtpd.Dns.{
  returns, ◌>>=◌, get_elem?, slice, Walk, copied, label, expand_byte, expand_loop, expanded, named,
  expand_fuel, dname_expand,
}
use open_smtpd.Dns.Reads.{slice-append, take, slice-take}
use mathlib.Core.List.{append-nil, append_assoc}

-- A label has 1 to 63 bytes; a name ends with an empty one.
abbrev pub IsLabel : List ℕ → Type 0
IsLabel l = (0 < length l) × (length l < 64)

abbrev pub labels : List (List ℕ) → List ℕ
labels [] = []
labels (l ∷ ls) = (length l ∷ l) ++ labels ls

abbrev pub wire : List (List ℕ) → List ℕ
wire ls = labels ls ++ 0 ∷ []

pub get_here :
    (pre : List ℕ) (b : ℕ) (mem : List ℕ) → get_elem? (pre ++ b ∷ mem) (length pre) ≡ some b
get_here [] b mem = refl
get_here (c ∷ pre) b mem = get_here pre b mem

pub take-all : (n : ℕ) (xs : List ℕ) → length xs ≤ n → take n xs ≡ xs
unfolding take
take-all zero [] h = refl
take-all zero (x ∷ xs) h = absurd (omega arith)
take-all (suc n) [] h = refl
take-all (suc n) (x ∷ xs) h = ap (λ ys. x ∷ ys) (take-all n xs (omega arith))

take-append : (n : ℕ) (xs ys : List ℕ) → take n (xs ++ ys) ≡ take n xs ++ take (n - length xs) ys
unfolding take
take-append zero [] ys = refl
take-append zero (x ∷ xs) ys = let e : 0 - length (x ∷ xs) ≡ 0 = omega arith in rw e
take-append (suc n) [] ys = let e : suc n - 0 ≡ suc n = omega arith in rw e
take-append (suc n) (x ∷ xs) ys =
    let e : suc n - length (x ∷ xs) ≡ n - length xs = omega arith in rw (e, take-append n xs ys)

pub length-take : (n : ℕ) (xs : List ℕ) → length (take n xs) ≡ min n (length xs)
unfolding take
length-take zero xs = ground arith
length-take (suc n) [] = ground arith
length-take (suc n) (x ∷ xs) = ground (arith, length-take n xs)

take-min : (n k : ℕ) (xs : List ℕ) → k ≡ length xs → take (min n k) xs ≡ take n xs
take-min n k xs h = elim (Bool-cases (leb n k)) [
  | inl c ↦ let e : min n k ≡ n = ground arith in rw e
  | inr c ↦
      let e : min n k ≡ length xs = ground arith in
      rw e (take-all (length xs) xs (omega arith) ∙ sym (take-all n xs (ground arith)))
]

-- A walk that has followed no pointer.
unfoldable pub walk : ℕ → ℕ → ℕ → List ℕ → ℕ → Walk
walk offset start res dst max = record {
  offset = offset;
  start = start;
  end = offset;
  res = res;
  dst = dst;
  max = max;
}

copied-walk :
    (n offset start res : ℕ) (dst bytes : List ℕ) (max : ℕ)
    → length bytes ≡ min max (n + 1)
    → copied n bytes (walk offset start res dst max)
      ≡ walk (offset + n + 1) start (res + n + 1) (dst ++ bytes) (max - (n + 1))
unfolding copied walk
copied-walk n offset start res dst bytes max h = ground arith

-- A walk further along a packet.
pub walk_eq :
    {offset offset' res res' max max' : ℕ} {dst dst' : List ℕ} (start : ℕ)
    → offset ≡ offset'
    → res ≡ res'
    → dst ≡ dst'
    → max ≡ max'
    → walk offset start res dst max ≡ walk offset' start res' dst' max'
walk_eq start a b c d = cc

take-nil : (n : ℕ) → take n [] ≡ []
unfolding take
take-nil zero = refl
take-nil (suc n) = refl

take-end : (n : ℕ) (xs : List ℕ) → (if n == 0 then xs else xs ++ 0 ∷ []) ≡ xs ++ take n (0 ∷ [])
unfolding take
take-end zero xs = sym (append-nil xs)
take-end (suc n) xs = rw (take-nil n) (ground arith)

-- The empty label ends the name.
pub expand-end :
    (len fuel : ℕ) (pre rest : List ℕ) (w : Walk)
    → w.offset ≡ length pre
    → expand_loop (suc fuel) (pre ++ 0 ∷ rest) len w ≡ returns (some w)
unfolding expand_loop expand_byte
expand-end len fuel pre rest w h =
    let e : get_elem? (pre ++ 0 ∷ rest) w.offset ≡ some 0 =
      ap (get_elem? (pre ++ 0 ∷ rest)) h ∙ get_here pre 0 rest in
    rw e

length-le-labels : (ls : List (List ℕ)) → length ls ≤ length (labels ls)
length-le-labels [] = omega arith
length-le-labels (l ∷ ls) =
    omega (arith, length-le-labels ls, length-append {0} (length l ∷ l) (labels ls))

small_fuel : (n len : ℕ) → n ≤ len → n < expand_fuel len
small_fuel n len h = grind arith

room_eq : (max : ℕ) (l : List ℕ) → max - (length l + 1) ≡ max - length (length l ∷ l)
room_eq max l = omega arith

module _ (len start : ℕ) where
  pub expand-label :
      (fuel : ℕ) (pre l rest : List ℕ) (res : ℕ) (dst : List ℕ) (max : ℕ)
      → IsLabel l
      → length pre + length l + 1 ≤ len
      → expand_loop
          (suc fuel)
          (pre ++ ((length l ∷ l) ++ rest))
          len
          (walk (length pre) start res dst max)
        ≡ expand_loop fuel (pre ++ ((length l ∷ l) ++ rest)) len (
            walk
              (length pre + length l + 1)
              start
              (res + length l + 1)
              (dst ++ take max (length l ∷ l))
              (max - (length l + 1)))
  unfolding expand_loop expand_byte label copied walk
  expand-label fuel pre l rest res dst max h fits =
      let here = get_here pre (length l) (l ++ rest) in
      let zero_test : (length l == 0) ≡ false = ground arith in
      let pointer_test : (length l / 64 % 4 == 3) ≡ false = ground arith in
      let len_test : ltb len (length pre + length l + 1) ≡ false = ground arith in
      let m = min max (length l + 1) in
      let copy : slice (pre ++ ((length l ∷ l) ++ rest)) (length pre) m
          ≡ some (take max (length l ∷ l)) =
        slice-append pre ((length l ∷ l) ++ rest) m
        ∙ slice-take (length l ∷ l) rest m (ground arith)
        ∙ ap some (take-min max (length l + 1) (length l ∷ l) (omega arith)) in
      rw (here, zero_test, pointer_test, len_test, copy)
        (ap (expand_loop fuel (pre ++ ((length l ∷ l) ++ rest)) len) (
          copied-walk (length l) (length pre) start res dst (take max (length l ∷ l)) max
            (length-take max (length l ∷ l) ∙ ground arith)))

  -- The loop takes the labels one after the other, and ends at the empty one.
  expand-labels :
      (ls : List (List ℕ)) (fuel : ℕ) (pre rest : List ℕ) (res : ℕ) (dst : List ℕ) (max : ℕ)
      → All IsLabel ls
      → length ls < fuel
      → length pre + length (labels ls) + 1 ≤ len
      → expand_loop fuel (pre ++ (labels ls ++ 0 ∷ rest)) len (walk (length pre) start res dst max)
        ≡ returns (
            some (
              walk
                (length pre + length (labels ls))
                start
                (res + length (labels ls))
                (dst ++ take max (labels ls))
                (max - length (labels ls))))
  expand-labels ls zero pre rest res dst max a f fits = elim f [ ]
  expand-labels [] (suc fuel) pre rest res dst max a f fits =
      expand-end len fuel pre rest (walk (length pre) start res dst max) walk_offset
      ∙ ap (λ w. returns (some w))
          (walk_eq start (omega arith) (omega arith)
            (sym (ap (λ t. dst ++ t) (take-nil max) ∙ append-nil dst)) (omega arith))
    where
      walk_offset : (walk (length pre) start res dst max).offset ≡ length pre
      walk_offset = unfold walk in refl
  expand-labels (l ∷ ls) (suc fuel) pre rest res dst max (h, a) f fits =
      let lbl = length l ∷ l in
      let tail = labels ls ++ 0 ∷ rest in
      let more = length-append {0} lbl (labels ls) in
      let start_at = length-append {0} pre lbl in
      let room = max - (length l + 1) in
      let first = dst ++ take max lbl in
      ap (λ mem. expand_loop (suc fuel) (pre ++ mem) len (walk (length pre) start res dst max))
        (append_assoc lbl (labels ls) (0 ∷ rest))
      ∙ expand-label fuel pre l tail res dst max h (omega (arith, more))
      ∙ ap
          (λ mem.
            expand_loop fuel mem len
              (walk (length pre + length l + 1) start (res + length l + 1) first room))
          (sym (append_assoc pre lbl tail))
      ∙ ap (expand_loop fuel ((pre ++ lbl) ++ tail) len)
          (walk_eq {max = room} {dst = first} start (omega (arith, start_at)) refl refl refl)
      ∙ expand-labels ls fuel (pre ++ lbl) rest (res + length l + 1) first room a (omega arith)
          (omega (arith, more, start_at))
      ∙ ap (λ w. returns (some w))
          (walk_eq start (omega (arith, more, start_at)) (omega (arith, more))
            (append_assoc dst (take max lbl) (take room (labels ls))
              ∙ ap (λ t. dst ++ t)
                  (ap (λ k. take max lbl ++ take k (labels ls)) (room_eq max l)
                    ∙ sym (take-append max lbl (labels ls))))
            (omega (arith, more)))

-- The name that a walk over its labels leaves.
expanded-walk :
    (ls : List (List ℕ)) (pre : List ℕ) (max : ℕ)
    → expanded (
        walk
          (length pre + length (labels ls))
          (length pre)
          (0 + length (labels ls))
          ([] ++ take max (labels ls))
          (max - length (labels ls)))
      ≡ record {
        res = length (wire ls);
        newoffset = length pre + length (wire ls);
        dst = take max (wire ls);
      }
unfolding expanded walk
expanded-walk ls pre max =
    let more = length-append {0} (labels ls) (0 ∷ []) in
    let written =
      take-end (max - length (labels ls)) (take max (labels ls))
      ∙ sym (take-append max (labels ls) (0 ∷ [])) in
    ground (arith, more, written)

-- A name of labels of 1 to 63 bytes, anywhere in a packet: dname_expand() gives its length and the offset
-- behind it, and writes as much of it as there is room for, up to the empty label at its end.
pub dname_expand-wire :
    (ls : List (List ℕ)) (pre rest : List ℕ) (len max : ℕ)
    → All IsLabel ls
    → length pre + length (wire ls) ≤ len
    → dname_expand (pre ++ (labels ls ++ 0 ∷ rest)) len (length pre) max
      ≡ returns (
          some (record {
            res = length (wire ls);
            newoffset = length pre + length (wire ls);
            dst = take max (wire ls);
          }))
unfolding dname_expand walk
dname_expand-wire ls pre rest len max a fits =
    let more = length-append {0} (labels ls) (0 ∷ []) in
    let inside : leb len (length pre) ≡ false = ground (arith, more) in
    let found =
      expand-labels len (length pre) ls (expand_fuel len) pre rest 0 [] max a
        (small_fuel (length ls) len (omega (arith, length-le-labels ls, more)))
        (omega (arith, more)) in
    rw inside (
      ap (λ x. x >>= λ r. returns (named r)) found
      ∙ ap (λ x. returns (some x)) (expanded-walk ls pre max))
