-- ===== src/Mproc/RoundTrip.antt =====
-- usr.sbin/smtpd/mproc.c: what the m_get_*() calls read from a message is what the m_add_*() calls
-- wrote.
use open_smtpd.Base.{
  ℕ, ◌≡◌, refl, sym, subst, ap, ◌∙◌, Option, none, some, List, [], ◌∷◌, ◌++◌, map, arith, ◌>>=◌,
  map_some, All,
}
use mathlib.Core.List.{append_assoc, append-nil}
use open_smtpd.Mproc.{
  Mproc, Msg, m_create, m_add, m_add_u32, m_add_size, m_add_string, m_add_data, add_pairs,
  m_add_params,
}
use open_smtpd.Mproc.Room.{m_add-buf}
use open_smtpd.Mproc.Wire.{
  Item, u32, size, string, bytes, params, Kind, kind, IsItem, add_item, get_item, wire_string,
  wire_pairs, wire, get_item-wire,
}

-- The calls that write a message, one for each item, and those that read one.
unfoldable pub compose : Mproc → List Item → Option Mproc
compose p [] = some p
compose p (i ∷ is) = add_item p i >>= λ p'. compose p' is

unfoldable pub read : List Kind → Msg → Option (List Item × Msg)
read [] m = some ([], m)
read (k ∷ ks) m = get_item k m >>= λ (i, m'). map_some (λ (is, rest). (i ∷ is, rest)) (read ks m')

>>=-some {ℓ κ} :
    {A : Type ℓ} {B : Type κ} (o : Option A) (f : A → Option B) {b : B}
    → (o >>= f) ≡ some b
    → (a : A) × (o ≡ some a) × (f a ≡ some b)
>>=-some none f h = cc
>>=-some (some a) f h = (a, refl, h)

-- What two calls append.
two-buf :
    (o : Option Mproc) (f : Mproc → Option Mproc) (p p' : Mproc) (xs ys : List ℕ)
    → ((q : Mproc) → o ≡ some q → q.m_buf ≡ p.m_buf ++ xs)
    → ((q q' : Mproc) → f q ≡ some q' → q'.m_buf ≡ q.m_buf ++ ys)
    → (o >>= f) ≡ some p'
    → p'.m_buf ≡ p.m_buf ++ (xs ++ ys)
two-buf o f p p' xs ys hx hy h =
    let (q, e, g) = >>=-some o f h in
    hy q p' g ∙ ap (λ l. l ++ ys) (hx q e) ∙ append_assoc p.m_buf xs ys

add_string-buf :
    (s : Option (List ℕ)) (p p' : Mproc)
    → m_add_string p s ≡ some p'
    → p'.m_buf ≡ p.m_buf ++ wire_string s
unfolding m_add_string wire_string
add_string-buf none p p' h = m_add-buf p _ p' h
add_string-buf (some s) p p' h =
    two-buf (m_add p (b's' ∷ [])) _ p p' (b's' ∷ []) (s ++ 0 ∷ []) (m_add-buf p _)
      (λ q. m_add-buf q (s ++ 0 ∷ [])) h

add_pairs-buf :
    (d : List (List ℕ × List ℕ)) (p p' : Mproc)
    → add_pairs p d ≡ some p'
    → p'.m_buf ≡ p.m_buf ++ wire_pairs d
unfolding add_pairs wire_pairs
add_pairs-buf [] p p' h = ground (arith, append-nil p.m_buf)
add_pairs-buf ((k, v) ∷ d) p p' h =
    rw (append_assoc (wire_string (some k)) (wire_string (some v)) (wire_pairs d)) (
      two-buf _ _ p p' _ _ (add_string-buf (some k) p)
        (λ q q' g. two-buf _ _ q q' _ _ (add_string-buf (some v) q) (add_pairs-buf d) g) h)

add_item-buf : (i : Item) (p p' : Mproc) → add_item p i ≡ some p' → p'.m_buf ≡ p.m_buf ++ wire i
unfolding add_item wire m_add_u32 m_add_size m_add_data m_add_params
add_item-buf (u32 v) p p' h = m_add-buf p _ p' h
add_item-buf (size v) p p' h = m_add-buf p _ p' h
add_item-buf (string s) p p' h = add_string-buf s p p' h
add_item-buf (bytes v) p p' h = two-buf _ _ p p' _ v (m_add-buf p _) (λ q. m_add-buf q v) h
add_item-buf (params d) p p' h = two-buf _ _ p p' _ _ (m_add-buf p _) (add_pairs-buf d) h

compose-read :
    (is : List Item) (p p' : Mproc)
    → compose p is ≡ some p'
    → All IsItem is
    → (m : List ℕ) × (p'.m_buf ≡ p.m_buf ++ m)
      × ((rest : List ℕ) → read (map kind is) (m ++ rest) ≡ some (is, rest))
unfolding compose read
compose-read [] p p' h ok = ([], ground (arith, append-nil p.m_buf), λ rest. refl)
compose-read (i ∷ is) p p' h ok =
    let (q, e, g) = >>=-some (add_item p i) _ h in
    let (m, b, again) = compose-read is q p' g ok.1 in
    (
      wire i ++ m,
      b ∙ ap (λ l. l ++ m) (add_item-buf i p q e) ∙ append_assoc p.m_buf (wire i) m,
      λ rest.
          rw (append_assoc (wire i) m rest)
            (rw (get_item-wire i (m ++ rest) ok.0) (rw (again rest))),
    )

-- A message that was composed from m_create() on, of any items that their types can hold, reads
-- back as these items, and is at its end then.
pub read-compose :
    (p p' : Mproc) (type peerid pid fd : ℕ) (is : List Item)
    → compose (m_create p type peerid pid fd) is ≡ some p'
    → All IsItem is
    → read (map kind is) p'.m_buf ≡ some (is, [])
unfolding m_create
read-compose p p' type peerid pid fd is h ok =
    let (m, b, again) = compose-read is (m_create p type peerid pid fd) p' h ok in
    subst (λ l. read (map kind is) l ≡ some (is, [])) (append-nil m ∙ sym b) (again [])
