-- ===== src/Dns/Outside.antt =====
-- Reads outside of a packet in usr.sbin/smtpd/unpack_dns.c: dname_expand() tests that a label ends in the
-- packet, and reads the byte behind it without a test.
use open_smtpd.Base.{
  sub64, ℕ, zero, suc, ◌+◌, ◌-◌, ◌^◌, ◌≤◌, ◌<◌, ◌≡◌, refl, sym, ap, ◌∙◌, false, none, some, List,
  [], ◌∷◌, ◌++◌, arith, ltb, leb, length, length-append,
}
use open_smtpd.Dns.{
  outside, returns, ◌>>=◌, get_elem?, slice, expand_loop, Expanded, expanded, named, expand_fuel,
  dname_expand, Unpack, unpack_data, unpack_u16, max_dname, name_of, unpack_dname,
}
use open_smtpd.Dns.Records.{unpack_query}
use open_smtpd.Dns.Reads.{take}
use open_smtpd.Dns.Names.{IsLabel, walk, expand-end, expand-label}
use mathlib.Core.List.{append-nil, append_assoc}

get_elem?-none : (mem : List ℕ) (i : ℕ) → length mem ≤ i → get_elem? mem i ≡ none
get_elem?-none [] i h = refl
get_elem?-none (b ∷ mem) zero h = absurd (omega arith)
get_elem?-none (b ∷ mem) (suc i) h = get_elem?-none mem i (omega arith)

slice-none : (mem : List ℕ) (i n : ℕ) → length mem ≤ i → slice mem i (suc n) ≡ none
unfolding slice
slice-none mem i n h = rw (get_elem?-none mem i h)

module _ (len start : ℕ) where
  label-behind :
      (fuel : ℕ) (pre l : List ℕ) (res : ℕ) (dst : List ℕ) (max : ℕ)
      → IsLabel l
      → 2 ≤ fuel
      → length pre + length l + 1 ≤ len
      → expand_loop fuel (pre ++ ((length l ∷ l) ++ [])) len (walk (length pre) start res dst max)
        ≡ outside
  label-behind zero pre l res dst max h f fits = absurd (omega arith)
  label-behind (suc zero) pre l res dst max h f fits = absurd (omega arith)
  label-behind (suc (suc fuel)) pre l res dst max h f fits =
      let all = length-append {0} pre ((length l ∷ l) ++ []) in
      let lbl = length-append {0} (length l ∷ l) [] in
      expand-label len start (suc fuel) pre l [] res dst max h fits
      ∙ unfold expand_loop walk in
        rw (
          get_elem?-none (pre ++ ((length l ∷ l) ++ [])) (length pre + length l + 1)
            (omega (arith, all, lbl)))

  label-taken :
      (fuel : ℕ) (pre l : List ℕ) (res : ℕ) (dst : List ℕ) (max : ℕ)
      → IsLabel l
      → 2 ≤ fuel
      → length pre + length l + 1 ≤ len
      → expand_loop fuel
          (pre ++ ((length l ∷ l) ++ 0 ∷ []))
          len
          (walk (length pre) start res dst max)
        ≡ returns (
            some (
              walk
                (length pre + length l + 1)
                start
                (res + length l + 1)
                (dst ++ take max (length l ∷ l))
                (max - (length l + 1))))
  label-taken zero pre l res dst max h f fits = absurd (omega arith)
  label-taken (suc zero) pre l res dst max h f fits = absurd (omega arith)
  label-taken (suc (suc fuel)) pre l res dst max h f fits =
      let w =
        walk (length pre + length l + 1) start (res + length l + 1) (dst ++ take max (length l ∷ l))
          (max - (length l + 1)) in
      let at : w.offset ≡ length (pre ++ (length l ∷ l)) =
        unfold walk in omega (arith, length-append {0} pre (length l ∷ l)) in
      expand-label len start (suc fuel) pre l (0 ∷ []) res dst max h fits
      ∙ ap (λ mem. expand_loop (suc fuel) mem len w)
          (sym (append_assoc pre (length l ∷ l) (0 ∷ [])))
      ∙ expand-end len fuel (pre ++ (length l ∷ l)) [] w at

fuel_two : (len : ℕ) → 2 ≤ expand_fuel len
fuel_two len = grind arith

-- Where a packet that ends with a label of 1 to 63 bytes is all there is in memory, a call of
-- dname_expand() at this label reads behind the memory.
pub dname_expand-behind :
    (pre l : List ℕ) (max : ℕ)
    → IsLabel l
    → dname_expand (pre ++ (length l ∷ l)) (length pre + length l + 1) (length pre) max ≡ outside
unfolding dname_expand expand_loop walk
dname_expand-behind pre l max h =
    let len = length pre + length l + 1 in
    let inside : leb len (length pre) ≡ false = ground arith in
    rw inside (
      ap
        (λ mem.
          expand_loop (expand_fuel len) (pre ++ mem) len (walk (length pre) (length pre) 0 [] max)
          >>= λ r. returns (named r))
        (sym (append-nil (length l ∷ l)))
      ∙ ap (λ x. x >>= λ r. returns (named r))
          (label-behind len (length pre) (expand_fuel len) pre l 0 [] max h (fuel_two len)
            (omega arith)))

-- A packet that ends with a label, and a zero byte behind it.
abbrev pub cut : List ℕ → List ℕ → Unpack
cut pre l = record {
  buf = pre ++ ((length l ∷ l) ++ 0 ∷ []);
  len = length pre + length l + 1;
  offset = length pre;
  err = false;
}

label_dname :
    (pre l : List ℕ)
    → IsLabel l
    → dname_expand (cut pre l).buf (cut pre l).len (cut pre l).offset max_dname
      ≡ returns (
          some (
            expanded (
              walk
                (cut pre l).len
                (length pre)
                (0 + length l + 1)
                (take max_dname (length l ∷ l))
                (max_dname - (length l + 1)))))
unfolding dname_expand walk
label_dname pre l h =
    let len = length pre + length l + 1 in
    let inside : leb len (length pre) ≡ false = ground arith in
    rw inside (
      ap (λ x. x >>= λ r. returns (named r))
        (label-taken len (length pre) (expand_fuel len) pre l 0 [] max_dname h (fuel_two len)
          (omega arith)))

-- The name is taken, with an offset behind the packet.
name-taken :
    (pre l : List ℕ) (x : Expanded)
    → x.newoffset ≡ length pre + length l + 2
    → ltb max_dname x.res ≡ false
    → dname_expand (cut pre l).buf (cut pre l).len (cut pre l).offset max_dname ≡ returns (some x)
    → unpack_dname (cut pre l)
      ≡ returns (record (cut pre l) { offset = length pre + length l + 2 }, some x.dst)
unfolding unpack_dname name_of
name-taken pre l x at small e = rw e (rw small (rw at refl))

wrapped : (n m : ℕ) → m ≡ n + 1 → m < 2 ^ 64 → ltb (sub64 n m) 2 ≡ false
wrapped n m e h = ground arith

-- The room behind the name is a difference of size_t, and wraps around.
u16-behind :
    (pre l : List ℕ)
    → length pre + length l + 2 < 2 ^ 64
    → unpack_u16 (record (cut pre l) { offset = length pre + length l + 2 }) ≡ outside
unfolding unpack_u16 unpack_data
u16-behind pre l small =
    let behind : length (pre ++ ((length l ∷ l) ++ 0 ∷ [])) ≤ length pre + length l + 2 =
      omega
        (arith, length-append {0} pre ((length l ∷ l) ++ 0 ∷ []), length-append {0} l (0 ∷ [])) in
    let room : ltb (sub64 (length pre + length l + 1) (length pre + length l + 2)) 2 ≡ false =
      wrapped (length pre + length l + 1) (length pre + length l + 2) (omega arith) small in
    rw room (
      rw (slice-none (pre ++ ((length l ∷ l) ++ 0 ∷ [])) (length pre + length l + 2) 1 behind) refl)

-- On a packet that ends with a label of 1 to 63 bytes, with one zero byte of memory behind it, a call of
-- unpack_query() at this label reads behind the memory, where lengths are of size_t: it takes the offset
-- behind the packet, and the room that is left wraps around.
pub unpack_query-behind :
    (pre l : List ℕ)
    → IsLabel l
    → length pre + length l + 2 < 2 ^ 64
    → unpack_query (cut pre l) ≡ outside
unfolding unpack_query expanded walk
unpack_query-behind pre l h small =
    let len = length pre + length l + 1 in
    let x = expanded (
      walk len (length pre) (0 + length l + 1) (take max_dname (length l ∷ l))
        (max_dname - (length l + 1))) in
    let at : x.newoffset ≡ length pre + length l + 2 = ground arith in
    let short : ltb max_dname x.res ≡ false = ground arith in
    rw (name-taken pre l x at short (label_dname pre l h)) (rw (u16-behind pre l small) refl)
