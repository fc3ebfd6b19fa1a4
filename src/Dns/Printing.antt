-- ===== src/Dns/Printing.antt =====
-- print_dname() of usr.sbin/smtpd/unpack_dns.c on the names that dname_expand() writes.
use open_smtpd.Base.{
  sub64, ℕ, zero, suc, ◌+◌, ◌-◌, ◌^◌, ◌≤◌, ◌<◌, ◌≡◌, refl, sym, ap, subst, ◌∙◌, ◌⊎◌, inl, inr, true,
  false, ◌||◌, some, List, [], ◌∷◌, ◌++◌, arith, ◌==◌, Bool-cases, length, length-append, All,
  count,
}
use open_smtpd.Dns.{Run, outside, stuck, returns, slice}
use open_smtpd.Dns.Records.{smaller, dot_of, print_labels, print_dname}
use open_smtpd.Dns.Reads.{slice-append, take, slice-take}
use open_smtpd.Dns.Expand.{Ends}
use open_smtpd.Dns.Names.{IsLabel, labels, get_here, take-all, length-take}
use mathlib.Core.List.{append-nil, append_assoc}

-- The text of a name: its labels, with a dot behind each.
abbrev pub dotted : List (List ℕ) → List ℕ
dotted [] = []
dotted (l ∷ ls) = (l ++ b'.' ∷ []) ++ dotted ls

-- A label behind its length.
slice-label :
    (pre l tail : List ℕ) (n count : ℕ)
    → count ≤ length l
    → slice (pre ++ n ∷ (l ++ tail)) (length pre + 1) count ≡ some (take count l)
slice-label pre l tail n count h =
    let e : length pre + 1 ≡ length (pre ++ n ∷ []) =
      omega (arith, length-append {0} pre (n ∷ [])) in
    rw e (
      ap (λ mem. slice mem (length (pre ++ n ∷ [])) count)
        (sym (append_assoc pre (n ∷ []) (l ++ tail)))
      ∙ slice-append (pre ++ n ∷ []) (l ++ tail) count
      ∙ slice-take l tail count h)

-- What is printed fits into the room; it is the whole text if that fits.
abbrev Prints : List (List ℕ) → ℕ → List ℕ → List ℕ → Type 0
Prints ls left out out' =
    (length out' ≤ length out + left) × (length (dotted ls) ≤ left → out' ≡ out ++ dotted ls)

dot_of_lem :
    (left : ℕ)
    → ((left ≡ 0) × (dot_of left ≡ ([], 0))) ⊎ ((0 < left) × (dot_of left ≡ (b'.' ∷ [], left - 1)))
unfolding dot_of
dot_of_lem zero = inl (refl, refl)
dot_of_lem (suc left) = inr (omega arith, ground arith)

-- The text of a label and its dot, cut to the room.
label_text : List ℕ → ℕ → List ℕ
label_text l left =
    let count = smaller (length l) (left - 1) in take count l ++ (dot_of (left - count)).0

label_room : List ℕ → ℕ → ℕ
label_room l left = (dot_of (left - smaller (length l) (left - 1))).1

label_text-length :
    (l : List ℕ) (left : ℕ)
    → 0 < length l
    → 0 < left
    → (length (label_text l left) + label_room l left ≡ left) × (label_room l left < left)
unfolding label_text label_room dot_of
label_text-length l left h k =
    let count = smaller (length l) (left - 1) in
    let t = length-take count l in
    ground
      (arith, t, length-append {0} (take count l) (b'.' ∷ []), length-append {0} (take count l) [])

label_room-fits :
    (l : List ℕ) (left : ℕ) → length l + 1 ≤ left → label_room l left ≡ left - (length l + 1)
unfolding label_room dot_of
label_room-fits l left h = ground arith

label_text-fits :
    (l : List ℕ) (left : ℕ)
    → length l + 1 ≤ left
    → (label_text l left ≡ l ++ b'.' ∷ []) × (label_room l left ≡ left - (length l + 1))
unfolding label_text label_room dot_of
label_text-fits l left h =
    let c : smaller (length l) (left - 1) ≡ length l = ground arith in
    let z : (left - length l == 0) ≡ false = ground arith in
    (rw (c, z, take-all (length l) l (omega arith)), label_room-fits l left h)

label-printed :
    (fuel : ℕ) (pre l tail : List ℕ) (left : ℕ) (out : List ℕ)
    → 0 < length l
    → 0 < left
    → print_labels (suc fuel) (pre ++ length l ∷ (l ++ tail)) (length pre) left out
      ≡ print_labels fuel
          (pre ++ length l ∷ (l ++ tail))
          (length pre + length l + 1)
          (label_room l left)
          (out ++ label_text l left)
unfolding print_labels label_text label_room
label-printed fuel pre l tail left out h k =
    let test : (length l == 0 || left == 0) ≡ false = ground arith in
    let count = smaller (length l) (left - 1) in
    rw (
      get_here pre (length l) (l ++ tail),
      test,
      slice-label pre l tail (length l) count (ground arith),
    )

print_stop :
    (fuel : ℕ) (pre l tail : List ℕ) (left : ℕ) (out : List ℕ)
    → left ≡ 0
    → print_labels (suc fuel) (pre ++ length l ∷ (l ++ tail)) (length pre) left out ≡ returns out
unfolding print_labels
print_stop fuel pre l tail left out z =
    let test : (length l == 0 || left == 0) ≡ true = ground arith in
    rw (get_here pre (length l) (l ++ tail), test)

Ends-map {ℓ} :
    {A : Type ℓ} {P Q : A → Type 0} (x : Run A) → ((a : A) → P a → Q a) → Ends P x → Ends Q x
Ends-map outside f h = h
Ends-map stuck f h = h
Ends-map (returns a) f h = f a h

-- The rest of the text after a label.
Prints-label :
    (l : List ℕ) (ls : List (List ℕ)) (left : ℕ) (out out' : List ℕ)
    → 0 < length l
    → 0 < left
    → Prints ls (label_room l left) (out ++ label_text l left) out'
    → Prints (l ∷ ls) left out out'
Prints-label l ls left out out' h k (short, whole) =
    let cut = label_text-length l left h k in
    let dot = length-append {0} l (b'.' ∷ []) in
    (
      omega (arith, cut.0, length-append {0} out (label_text l left)),
      λ fits.
          let all = length-append {0} (l ++ b'.' ∷ []) (dotted ls) in
          let (t, r) = label_text-fits l left (omega (arith, all, dot, fits)) in
          whole (omega (arith, all, dot, fits, r))
          ∙ ap (λ x. (out ++ x) ++ dotted ls) t
          ∙ append_assoc out (l ++ b'.' ∷ []) (dotted ls),
    )

print_labels-Prints :
    (ls : List (List ℕ)) (fuel : ℕ) (pre rest : List ℕ) (left : ℕ) (out : List ℕ)
    → All IsLabel ls
    → left < fuel
    → Ends
        (Prints ls left out)
        (print_labels fuel (pre ++ (labels ls ++ 0 ∷ rest)) (length pre) left out)
print_labels-Prints ls zero pre rest left out a f = elim f [ ]
print_labels-Prints [] (suc fuel) pre rest left out a f =
    unfold print_labels in rw (get_here pre 0 rest) (omega arith, λ h. sym (append-nil out))
print_labels-Prints (l ∷ ls) (suc fuel) pre rest left out (h, a) f =
    subst
      (λ mem.
        Ends (Prints (l ∷ ls) left out)
          (print_labels (suc fuel) (pre ++ mem) (length pre) left out))
      (sym (append_assoc (length l ∷ l) (labels ls) (0 ∷ rest)))
      (by_room
        (λ lt.
          print_labels-Prints ls fuel (pre ++ (length l ∷ l)) rest (label_room l left)
            (out ++ label_text l left) a lt)
        (Bool-cases (left == 0)))
  where
    lbl : List ℕ
    lbl = length l ∷ l

    tail : List ℕ
    tail = labels ls ++ 0 ∷ rest

    moved : length pre + length l + 1 ≡ length (pre ++ lbl)
    moved = omega (arith, length-append {0} pre lbl)

    by_room :
        (label_room l left < fuel
          → Ends (Prints ls (label_room l left) (out ++ label_text l left)) (
              print_labels fuel
                ((pre ++ lbl) ++ tail)
                (length (pre ++ lbl))
                (label_room l left)
                (out ++ label_text l left)))
        → ((left == 0) ≡ true) ⊎ ((left == 0) ≡ false)
        → Ends
            (Prints (l ∷ ls) left out)
            (print_labels (suc fuel) (pre ++ (lbl ++ tail)) (length pre) left out)
    by_room rec (inl z) =
        let none_left : left ≡ 0 = ground arith in
        let all = length-append {0} (l ++ b'.' ∷ []) (dotted ls) in
        let dot = length-append {0} l (b'.' ∷ []) in
        rw (print_stop fuel pre l tail left out none_left)
          (omega arith, λ fits. absurd (omega (arith, fits, all, dot)))
    by_room rec (inr z) =
        let some_left : 0 < left = ground arith in
        let cut = label_text-length l left h.0 some_left in
        let printed =
          label-printed fuel pre l tail left out h.0 some_left
          ∙ ap
              (λ i.
                print_labels fuel (pre ++ (lbl ++ tail)) i (label_room l left)
                  (out ++ label_text l left))
              moved
          ∙ ap
              (λ mem.
                print_labels fuel mem (length (pre ++ lbl)) (label_room l left)
                  (out ++ label_text l left))
              (sym (append_assoc pre lbl tail)) in
        subst (Ends (Prints (l ∷ ls) left out)) (sym printed) (
          Ends-map _ (λ out'. Prints-label l ls left out out' h.0 some_left)
            (rec (omega (arith, cut.1, f))))

printed :
    (l : List ℕ) (ls : List (List ℕ)) (rest : List ℕ) (max : ℕ)
    → IsLabel l
    → All IsLabel ls
    → 0 < max
    → max < 2 ^ 64
    → Ends (Prints (l ∷ ls) (max - 1) []) (print_dname (labels (l ∷ ls) ++ 0 ∷ rest) max)
unfolding print_dname
printed l ls rest max h a m big =
    let left : sub64 max 1 ≡ max - 1 = ground arith in
    let test : (length l == 0) ≡ false = ground arith in
    rw (test, left)
      (print_labels-Prints (l ∷ ls) (max - 1 + 2) [] rest (max - 1) [] (h, a) (omega arith))

-- For a name that is not empty and whose labels have 1 to 63 bytes, print_dname() ends and keeps to the
-- buffer of `max` bytes, its NUL included, where `max` is a size_t and not 0.
pub print_dname-Ends :
    (l : List ℕ) (ls : List (List ℕ)) (rest : List ℕ) (max : ℕ)
    → IsLabel l
    → All IsLabel ls
    → 0 < max
    → max < 2 ^ 64
    → Ends (λ text. length text < max) (print_dname (labels (l ∷ ls) ++ 0 ∷ rest) max)
print_dname-Ends l ls rest max h a m big =
    Ends-map {P = Prints (l ∷ ls) (max - 1) []} {Q = λ text. length text < max} _
      (λ text p. omega (arith, p.0)) (printed l ls rest max h a m big)

returned : {a : List ℕ} (x : Run (List ℕ)) → Ends (λ b. b ≡ a) x → x ≡ returns a
returned outside h = absurd h
returned stuck h = absurd h
returned (returns b) h = ap (λ c. returns c) h

-- Where there is room for a name that is not empty, and its labels have 1 to 63 bytes, each label is printed with a dot behind it; the room is a size_t.
pub print_dname-dotted :
    (l : List ℕ) (ls : List (List ℕ)) (rest : List ℕ) (max : ℕ)
    → IsLabel l
    → All IsLabel ls
    → length (dotted (l ∷ ls)) < max
    → max < 2 ^ 64
    → print_dname (labels (l ∷ ls) ++ 0 ∷ rest) max ≡ returns (dotted (l ∷ ls))
print_dname-dotted l ls rest max h a m big = returned _ (
    Ends-map {P = Prints (l ∷ ls) (max - 1) []} {Q = λ text. text ≡ dotted (l ∷ ls)} _
      (λ text p. p.1 (omega (arith, m))) (printed l ls rest max h a (omega (arith, m)) big))
