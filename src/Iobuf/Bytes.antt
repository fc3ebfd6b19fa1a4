-- ===== src/Iobuf/Bytes.antt =====
-- Parts of a list of bytes. It models no code of its own.
use open_smtpd.Base.{
  ℕ, zero, suc, ◌+◌, ◌-◌, ◌≤◌, ◌≡◌, refl, sym, ap, ◌∙◌, List, [], ◌∷◌, ◌++◌, arith, length,
}

unfoldable pub take : ℕ → List ℕ → List ℕ
take zero xs = []
take (suc n) [] = []
take (suc n) (x ∷ xs) = x ∷ take n xs

unfoldable pub drop : ℕ → List ℕ → List ℕ
drop zero xs = xs
drop (suc n) [] = []
drop (suc n) (x ∷ xs) = drop n xs

pub length-take : (n : ℕ) (xs : List ℕ) → n ≤ length xs → length (take n xs) ≡ n
unfolding take
length-take zero xs h = refl
length-take (suc n) [] h = absurd (omega arith)
length-take (suc n) (x ∷ xs) h = ap suc (length-take n xs (omega arith))

pub length-drop : (n : ℕ) (xs : List ℕ) → length (drop n xs) ≡ length xs - n
unfolding drop
length-drop zero xs = omega arith
length-drop (suc n) [] = omega arith
length-drop (suc n) (x ∷ xs) = omega (arith, length-drop n xs)

-- A part that ends within the first list, or that begins behind it.
pub drop-append : (n : ℕ) (xs ys : List ℕ) → n ≤ length xs → drop n (xs ++ ys) ≡ drop n xs ++ ys
unfolding drop
drop-append zero xs ys h = refl
drop-append (suc n) [] ys h = absurd (omega arith)
drop-append (suc n) (x ∷ xs) ys h = drop-append n xs ys (omega arith)

pub drop-behind :
    (n : ℕ) (xs ys : List ℕ) → length xs ≤ n → drop n (xs ++ ys) ≡ drop (n - length xs) ys
unfolding drop
drop-behind n [] ys h = let e : n - 0 ≡ n = omega arith in ap (λ k. drop k ys) (sym e)
drop-behind zero (x ∷ xs) ys h = absurd (omega arith)
drop-behind (suc n) (x ∷ xs) ys h =
    let e : n - length xs ≡ suc n - suc (length xs) = omega arith in
    drop-behind n xs ys (omega arith) ∙ ap (λ k. drop k ys) e

pub take-behind :
    (n : ℕ) (xs ys : List ℕ) → length xs ≤ n → take n (xs ++ ys) ≡ xs ++ take (n - length xs) ys
unfolding take
take-behind n [] ys h = let e : n - 0 ≡ n = omega arith in ap (λ k. take k ys) (sym e)
take-behind zero (x ∷ xs) ys h = absurd (omega arith)
take-behind (suc n) (x ∷ xs) ys h =
    let e : n - length xs ≡ suc n - suc (length xs) = omega arith in
    ap (λ zs. x ∷ zs) (take-behind n xs ys (omega arith) ∙ ap (λ k. xs ++ take k ys) e)

drop-nil : (n : ℕ) → drop n [] ≡ []
unfolding drop
drop-nil zero = refl
drop-nil (suc n) = refl

pub drop-drop : (m n : ℕ) (xs : List ℕ) → drop (n + m) xs ≡ drop m (drop n xs)
unfolding drop
drop-drop m zero xs = let e : 0 + m ≡ m = omega arith in ap (λ k. drop k xs) e
drop-drop m (suc n) [] = drop-nil (suc n + m) ∙ sym (drop-nil m)
drop-drop m (suc n) (x ∷ xs) =
    let e : suc n + m ≡ suc (n + m) = omega arith in ap (λ k. drop k (x ∷ xs)) e ∙ drop-drop m n xs

take-nil : (n : ℕ) → take n [] ≡ []
unfolding take
take-nil zero = refl
take-nil (suc n) = refl

pub drop-take : (r w : ℕ) (xs : List ℕ) → drop r (take w xs) ≡ take (w - r) (drop r xs)
unfolding take drop
drop-take zero w xs = let e : w ≡ w - 0 = omega arith in ap (λ k. take k xs) e
drop-take (suc r) zero xs =
    let e : 0 ≡ 0 - suc r = omega arith in ap (λ k. take k (drop (suc r) xs)) e
drop-take (suc r) (suc w) [] = sym (take-nil (suc w - suc r))
drop-take (suc r) (suc w) (x ∷ xs) =
    let e : w - r ≡ suc w - suc r = omega arith in drop-take r w xs ∙ ap (λ k. take k (drop r xs)) e

pub take-length : (n : ℕ) (xs : List ℕ) → n ≡ length xs → take n xs ≡ xs
unfolding take
take-length zero [] h = refl
take-length zero (x ∷ xs) h = absurd (omega arith)
take-length (suc n) [] h = absurd (omega arith)
take-length (suc n) (x ∷ xs) h = ap (λ ys. x ∷ ys) (take-length n xs (omega arith))

pub drop-length : (n : ℕ) (xs : List ℕ) → length xs ≤ n → drop n xs ≡ []
unfolding drop
drop-length zero [] h = refl
drop-length zero (x ∷ xs) h = absurd (omega arith)
drop-length (suc n) [] h = refl
drop-length (suc n) (x ∷ xs) h = drop-length n xs (omega arith)

pub take-drop : (n : ℕ) (xs : List ℕ) → take n xs ++ drop n xs ≡ xs
unfolding take drop
take-drop zero xs = refl
take-drop (suc n) [] = refl
take-drop (suc n) (x ∷ xs) = ap (λ ys. x ∷ ys) (take-drop n xs)

pub take-exact : (xs ys : List ℕ) → take (length xs) (xs ++ ys) ≡ xs
unfolding take
take-exact [] ys = refl
take-exact (x ∷ xs) ys = ap (λ zs. x ∷ zs) (take-exact xs ys)
