-- ===== src/Dns/Expand.antt =====
-- dname_expand() of usr.sbin/smtpd/unpack_dns.c ends, and keeps to its bounds.
use open_smtpd.Base.{
  ℕ, zero, suc, ◌+◌, ◌-◌, ◌*◌, ◌/◌, ◌%◌, ◌≤◌, ◌<◌, min, ◌≡◌, refl, ◌⊎◌, inl, inr, Bool, true, false,
  Option, none, some, List, [], ◌∷◌, arith, ltb, leb, ◌==◌, Bool-cases, length, length-append,
  if◌then◌else◌,
}
use open_smtpd.Dns.{
  Run, outside, stuck, returns, ◌>>=◌, Walk, at_least, follow, pointer, copied, label, expand_byte,
  expand_loop, Expanded, expanded, named, expand_fuel, dname_expand,
}
use open_smtpd.Dns.Reads.{get_elem?-some, slice-some}

-- What the loop keeps: the place where the labels began is in the packet, and the labels end there; as
-- much was written as there was room for, and the name goes on behind the place where it was found.
abbrev Keeps : ℕ → ℕ → ℕ → Walk → Type 0
Keeps first len room w =
    (w.start < len)
    × (w.start ≤ w.offset)
    × (w.offset ≤ len)
    × (w.end ≤ len)
    × (length w.dst ≡ min room w.res)
    × (w.max ≡ room - min room w.res)
    × (first < at_least w.end (w.offset + 1))

-- How far a walk has to go: pointers go back, and labels go on.
abbrev distance : ℕ → Walk → ℕ
distance len w = w.start * (len + 2) + (len + 1 - w.offset)

-- A call that ends with a result for which this holds.
abbrev pub Ends {ℓ} : {A : Type ℓ} → (A → Type 0) → Run A → Type 0
Ends P outside = ⊥
Ends P stuck = ⊥
Ends P (returns a) = P a

abbrev pub OrFails {ℓ} : {A : Type ℓ} → (A → Type 0) → Option A → Type 0
OrFails P none = Unit
OrFails P (some a) = P a

if-Ends :
    (P : Option Walk → Type 0) (b : Bool) (x y : Run (Option Walk))
    → (b ≡ true → Ends P x)
    → (b ≡ false → Ends P y)
    → Ends P (if b then x else y)
if-Ends P true x y h k = h refl
if-Ends P false x y h k = k refl

-- A pointer to an earlier place brings the walk nearer to its end.
distance-follow :
    (len ptr start offset : ℕ)
    → ptr < start
    → ptr * (len + 2) + (len + 1 - ptr) < start * (len + 2) + (len + 1 - offset)
distance-follow len ptr start offset h = grind arith

fits : (len offset : ℕ) → offset < len → offset * (len + 2) + (len + 1 - offset) < expand_fuel len
fits len offset h = grind arith

module _ (packet : List ℕ) (first len room : ℕ) (behind : len < length packet) where
  abbrev Good : Run (Option Walk) → Type 0
  Good = Ends (OrFails (Keeps first len room))

  abbrev Nearer : (Walk → Run (Option Walk)) → ℕ → Type 0
  Nearer go m = (w : Walk) → Keeps first len room w → distance len w < m → Good (go w)

  follow-Good :
      (go : Walk → Run (Option Walk)) (ptr : ℕ) (w : Walk)
      → Keeps first len room w
      → w.offset + 2 ≤ len
      → Nearer go (distance len w)
      → Good (follow go ptr w)
  unfolding follow
  follow-Good go ptr w (s, o, l, e, r, m, b) two near =
      if-Ends (OrFails (Keeps first len room)) (leb w.start ptr) _ _ (λ c. tt)
        (λ c.
          near _ (ground arith, omega arith, ground arith, ground arith, r, m, ground arith)
            (distance-follow len ptr w.start w.offset (ground arith)))

  pointer-Good :
      (go : Walk → Run (Option Walk)) (n : ℕ) (w : Walk)
      → Keeps first len room w
      → Nearer go (distance len w)
      → Good (pointer go packet len n w)
  unfolding pointer
  pointer-Good go n w k near =
      if-Ends (OrFails (Keeps first len room)) (ltb len (w.offset + 2)) _ _ (λ c. tt)
        (λ c.
          let (m, e) = get_elem?-some packet (w.offset + 1) (ground arith) in
          rw e (follow-Good go (256 * (n % 64) + m) w k (ground arith) near))

  label-Good :
      (go : Walk → Run (Option Walk)) (n : ℕ) (w : Walk)
      → Keeps first len room w
      → Nearer go (distance len w)
      → Good (label go packet len n w)
  unfolding label
  label-Good go n w (s, o, l, e, r, m, b) near =
      if-Ends (OrFails (Keeps first len room)) (ltb len (w.offset + n + 1)) _ _ (λ c. tt)
        (λ c.
          let (bs, f, k) = slice-some packet w.offset (min w.max (n + 1)) (ground arith) in
          rw f (
            unfold copied in
            near _
              (
                s,
                omega arith,
                ground arith,
                ground arith,
                ground (arith, length-append {0} w.dst bs),
                ground arith,
                ground arith,
              )
              (ground arith)))

  loop-Good :
      (fuel : ℕ) (w : Walk)
      → Keeps first len room w
      → distance len w < fuel
      → Good (expand_loop fuel packet len w)
  unfolding expand_loop expand_byte
  loop-Good zero w k d = elim d [ ]
  loop-Good (suc fuel) w k d =
      let (n, e) = get_elem?-some packet w.offset (omega arith) in
      let near : Nearer (expand_loop fuel packet len) (distance len w) =
        λ w' k' d'. loop-Good fuel w' k' (omega arith) in
      rw e (
        if-Ends (OrFails (Keeps first len room)) (n == 0) _ _ (λ c. k)
          (λ c.
            if-Ends (OrFails (Keeps first len room)) (n / 64 % 4 == 3) _ _
              (λ f. pointer-Good (expand_loop fuel packet len) n w k near)
              (λ f. label-Good (expand_loop fuel packet len) n w k near)))

-- A name: where it ends, and what was written of it.
abbrev pub Named : ℕ → ℕ → ℕ → Expanded → Type 0
Named first len room x =
    (first < x.newoffset) × (x.newoffset ≤ len + 1) × (0 < x.res) × (length x.dst ≡ min room x.res)

-- On any packet with a byte of memory behind it, whatever its pointers are, dname_expand() ends, reads
-- no further than that byte, and either gives -1, or a length and an offset behind the given one and at
-- most one byte behind the packet; it writes as many of the bytes as there is room for and no more.
pub dname_expand-Ends :
    (packet : List ℕ) (len offset max : ℕ)
    → len < length packet
    → Ends (OrFails (Named offset len max)) (dname_expand packet len offset max)
unfolding dname_expand
dname_expand-Ends packet len offset max behind = by_offset (Bool-cases (leb len offset))
  where
    first : Walk
    first = record { offset = offset; start = offset; end = offset; res = 0; dst = []; max = max }

    within : (w : Walk) → Keeps offset len max w → Named offset len max (expanded w)
    within w (s, o, l, e, r, m, b) =
        unfold expanded in
        (b, ground arith, omega arith, ground (arith, length-append {0} w.dst (0 ∷ [])))

    result :
        (x : Run (Option Walk))
        → Ends (OrFails (Keeps offset len max)) x
        → Ends (OrFails (Named offset len max)) (do r ← x; returns (named r))
    result outside k = k
    result stuck k = k
    result (returns none) k = tt
    result (returns (some w)) k = within w k

    by_offset :
        (leb len offset ≡ true) ⊎ (leb len offset ≡ false)
        → Ends (OrFails (Named offset len max)) (
            if leb len offset
            then returns none
            else (do r ← expand_loop (expand_fuel len) packet len first; returns (named r)))
    by_offset (inl c) = rw c tt
    by_offset (inr c) = rw c (
        result _ (
          loop-Good packet offset len max behind (expand_fuel len) first
            (
              ground arith,
              omega arith,
              ground arith,
              ground arith,
              ground arith,
              ground arith,
              ground arith,
            )
            (fits len offset (ground arith))))
