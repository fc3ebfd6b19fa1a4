-- ===== src/Mproc/Wire.antt =====
-- usr.sbin/smtpd/mproc.c: the items of a message, and their bytes, which the m_get_*() calls read
-- back.
use open_smtpd.Base.{
  ℕ, zero, suc, ◌/◌, ◌^◌, ◌<◌, ◌≡◌, ◌≢◌, refl, ap, subst, Option, none, some, List, [], ◌∷◌, ◌++◌,
  arith, map_some, length, All,
}
use mathlib.Core.List.{append_assoc}
use native.Mathlib.Nat.{pow-suc}
use open_smtpd.Mproc.{
  Mproc, Msg, le_bytes, le_value, m_add_u32, m_add_size, m_add_string, m_add_data, m_add_params,
  split, m_get, m_get_u32, m_get_size, until_zero, m_get_string, m_get_data, get_present, get_pairs,
  m_get_params,
}

length-le_bytes : (w v : ℕ) → length (le_bytes w v) ≡ w
unfolding le_bytes
length-le_bytes zero v = refl
length-le_bytes (suc w) v = ap suc (length-le_bytes w (v / 256))

le_value-le_bytes : (w v : ℕ) → v < 256 ^ w → le_value (le_bytes w v) ≡ v
unfolding le_bytes le_value
le_value-le_bytes zero v h = omega (arith, h)
le_value-le_bytes (suc w) v h =
    omega (arith, le_value-le_bytes w (v / 256) (omega (arith, pow-suc 256 w, h)))

split-append : (xs rest : List ℕ) → split (length xs) (xs ++ rest) ≡ some (xs, rest)
unfolding split
split-append [] rest = refl
split-append (x ∷ xs) rest = rw (split-append xs rest)

-- No byte of a string is its terminator.
abbrev pub NoZero : List ℕ → Type 0
NoZero = All (λ b. b ≢ 0)

until_zero-append : (s rest : List ℕ) → NoZero s → until_zero (s ++ 0 ∷ rest) ≡ some (s, rest)
unfolding until_zero
until_zero-append [] rest h = refl
until_zero-append (b ∷ s) rest h = ground (arith, until_zero-append s rest h.1)

split-le_bytes :
    (w v : ℕ) (rest : List ℕ) → split w (le_bytes w v ++ rest) ≡ some (le_bytes w v, rest)
split-le_bytes w v rest =
    subst (λ n. split n (le_bytes w v ++ rest) ≡ some (le_bytes w v, rest)) (length-le_bytes w v)
      (split-append (le_bytes w v) rest)

get_u32-bytes :
    (v : ℕ) (rest : List ℕ) → v < 2 ^ 32 → m_get_u32 (le_bytes 4 v ++ rest) ≡ some (v, rest)
unfolding m_get_u32 m_get
get_u32-bytes v rest h = rw (split-le_bytes 4 v rest) (rw (le_value-le_bytes 4 v h))

get_size-bytes :
    (v : ℕ) (rest : List ℕ) → v < 2 ^ 64 → m_get_size (le_bytes 8 v ++ rest) ≡ some (v, rest)
unfolding m_get_size m_get
get_size-bytes v rest h = rw (split-le_bytes 8 v rest) (rw (le_value-le_bytes 8 v h))

-- One item of a message, by the pair of calls that writes and reads it.
pub data Item : Type 0 where
  u32 : ℕ → Item
  size : ℕ → Item
  string : Option (List ℕ) → Item
  bytes : List ℕ → Item
  params : List (List ℕ × List ℕ) → Item

pub data Kind : Type 0 where
  u32_kind size_kind string_kind bytes_kind params_kind : Kind

abbrev pub kind : Item → Kind
kind (u32 v) = u32_kind
kind (size v) = size_kind
kind (string s) = string_kind
kind (bytes v) = bytes_kind
kind (params d) = params_kind

abbrev pub NoZeroPairs : List (List ℕ × List ℕ) → Type 0
NoZeroPairs = All (λ d. NoZero d.0 × NoZero d.1)

-- The values that an item's C type can hold.
abbrev pub IsItem : Item → Type 0
IsItem (u32 v) = v < 2 ^ 32
IsItem (size v) = v < 2 ^ 64
IsItem (string none) = Unit
IsItem (string (some s)) = NoZero s
IsItem (bytes v) = length v < 2 ^ 64
IsItem (params d) = (length d < 2 ^ 64) × NoZeroPairs d

unfoldable pub add_item : Mproc → Item → Option Mproc
add_item p (u32 v) = m_add_u32 p v
add_item p (size v) = m_add_size p v
add_item p (string s) = m_add_string p s
add_item p (bytes v) = m_add_data p v
add_item p (params d) = m_add_params p d

-- m_get_data() gives NULL for no bytes.
abbrev pub not_null : Option (List ℕ) → List ℕ
not_null none = []
not_null (some v) = v

unfoldable pub get_item : Kind → Msg → Option (Item × Msg)
get_item u32_kind m = map_some (λ (v, rest). (u32 v, rest)) (m_get_u32 m)
get_item size_kind m = map_some (λ (v, rest). (size v, rest)) (m_get_size m)
get_item string_kind m = map_some (λ (s, rest). (string s, rest)) (m_get_string m)
get_item bytes_kind m = map_some (λ (v, rest). (bytes (not_null v), rest)) (m_get_data m)
get_item params_kind m = map_some (λ (d, rest). (params d, rest)) (m_get_params m)

unfoldable pub wire_string : Option (List ℕ) → List ℕ
wire_string none = 0 ∷ []
wire_string (some s) = b's' ∷ s ++ 0 ∷ []

unfoldable pub wire_pairs : List (List ℕ × List ℕ) → List ℕ
wire_pairs [] = []
wire_pairs ((k, v) ∷ d) = wire_string (some k) ++ wire_string (some v) ++ wire_pairs d

-- The bytes of an item.
unfoldable pub wire : Item → List ℕ
wire (u32 v) = le_bytes 4 v
wire (size v) = le_bytes 8 v
wire (string s) = wire_string s
wire (bytes v) = le_bytes 8 (length v) ++ v
wire (params d) = le_bytes 8 (length d) ++ wire_pairs d

get_string-wire :
    (s rest : List ℕ) → NoZero s → m_get_string (wire_string (some s) ++ rest) ≡ some (some s, rest)
unfolding m_get_string wire_string
get_string-wire s rest h = rw (append_assoc s (0 ∷ []) rest) (rw (until_zero-append s rest h))

get_string-null : (rest : List ℕ) → m_get_string (wire_string none ++ rest) ≡ some (none, rest)
unfolding m_get_string wire_string
get_string-null rest = refl

get_present-wire :
    (s rest : List ℕ) → NoZero s → get_present (wire_string (some s) ++ rest) ≡ some (s, rest)
unfolding get_present
get_present-wire s rest h = rw (get_string-wire s rest h)

get_pairs-wire :
    (d : List (List ℕ × List ℕ)) (rest : List ℕ)
    → NoZeroPairs d
    → get_pairs (length d) (wire_pairs d ++ rest) ≡ some (d, rest)
unfolding get_pairs wire_pairs
get_pairs-wire [] rest h = refl
get_pairs-wire ((k, v) ∷ d) rest h = simp append_assoc (
    rw (get_present-wire k (wire_string (some v) ++ (wire_pairs d ++ rest)) h.0.0)
      (rw (get_present-wire v (wire_pairs d ++ rest) h.0.1) (rw (get_pairs-wire d rest h.1))))

get_bytes-wire :
    (v rest : List ℕ)
    → length v < 2 ^ 64
    → get_item bytes_kind (le_bytes 8 (length v) ++ (v ++ rest)) ≡ some (bytes v, rest)
unfolding get_item m_get_data
get_bytes-wire [] rest h = rw (get_size-bytes 0 rest (omega arith))
get_bytes-wire (b ∷ v) rest h =
    rw (get_size-bytes (length (b ∷ v)) ((b ∷ v) ++ rest) h)
      (ground (arith, split-append (b ∷ v) rest))

pub get_item-wire :
    (i : Item) (rest : List ℕ) → IsItem i → get_item (kind i) (wire i ++ rest) ≡ some (i, rest)
unfolding get_item wire m_get_data m_get_params
get_item-wire (u32 v) rest h = rw (get_u32-bytes v rest h)
get_item-wire (size v) rest h = rw (get_size-bytes v rest h)
get_item-wire (string none) rest h = rw (get_string-null rest)
get_item-wire (string (some s)) rest h = rw (get_string-wire s rest h)
get_item-wire (bytes v) rest h =
    rw (append_assoc (le_bytes 8 (length v)) v rest) (get_bytes-wire v rest h)
get_item-wire (params d) rest h =
    rw (append_assoc (le_bytes 8 (length d)) (wire_pairs d) rest)
      (rw (get_size-bytes (length d) (wire_pairs d ++ rest) h.0) (rw (get_pairs-wire d rest h.1)))
