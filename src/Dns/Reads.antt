-- ===== src/Dns/Reads.antt =====
-- Reads of memory.
use open_smtpd.Base.{
  ℕ, zero, suc, ◌+◌, ◌≤◌, ◌<◌, ◌≡◌, refl, ap, ◌∙◌, some, List, [], ◌∷◌, ◌++◌, arith, length,
}
use open_smtpd.Dns.{get_elem?, slice}
use native.Mathlib.Nat.{zero-add, suc-add}

pub get_elem?-some : (mem : List ℕ) (i : ℕ) → i < length mem → (b : ℕ) × (get_elem? mem i ≡ some b)
get_elem?-some [] i h = absurd (omega arith)
get_elem?-some (b ∷ mem) zero h = (b, refl)
get_elem?-some (b ∷ mem) (suc i) h = get_elem?-some mem i (omega arith)

pub slice-some :
    (mem : List ℕ) (i n : ℕ)
    → i + n ≤ length mem
    → (bs : List ℕ) × (slice mem i n ≡ some bs) × (length bs ≡ n)
unfolding slice
slice-some mem i zero h = ([], refl, refl)
slice-some mem i (suc n) h =
    let (b, e) = get_elem?-some mem i (omega arith) in
    let (bs, f, l) = slice-some mem (suc i) n (omega arith) in (b ∷ bs, rw (e, f), ap suc l)

-- What stands behind the first bytes.
pub get_elem?-append :
    (pre mem : List ℕ) (i : ℕ) → get_elem? (pre ++ mem) (length pre + i) ≡ get_elem? mem i
get_elem?-append [] mem i = rw zero-add
get_elem?-append (b ∷ pre) mem i = rw suc-add (get_elem?-append pre mem i)

slice-cons : (b : ℕ) (mem : List ℕ) (i n : ℕ) → slice (b ∷ mem) (suc i) n ≡ slice mem i n
unfolding slice
slice-cons b mem i zero = refl
slice-cons b mem i (suc n) = rw (slice-cons b mem (suc i) n)

pub slice-append : (pre mem : List ℕ) (n : ℕ) → slice (pre ++ mem) (length pre) n ≡ slice mem 0 n
slice-append [] mem n = refl
slice-append (b ∷ pre) mem n = slice-cons b (pre ++ mem) (length pre) n ∙ slice-append pre mem n

unfoldable pub take : ℕ → List ℕ → List ℕ
take zero xs = []
take (suc n) [] = []
take (suc n) (x ∷ xs) = x ∷ take n xs

pub slice-take :
    (xs mem : List ℕ) (n : ℕ) → n ≤ length xs → slice (xs ++ mem) 0 n ≡ some (take n xs)
unfolding slice take
slice-take xs mem zero h = refl
slice-take [] mem (suc n) h = absurd (omega arith)
slice-take (x ∷ xs) mem (suc n) h =
    rw (slice-cons x (xs ++ mem) 0 n, slice-take xs mem n (omega arith))
