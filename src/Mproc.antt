-- ===== src/Mproc.antt =====
-- usr.sbin/smtpd/mproc.c: the contents of the messages between the processes, which m_add_*()
-- compose and m_get_*() take apart. A byte is a number below 256. Both ends run on one host: a
-- number is its bytes in memory, least significant first, and a signed one is its bit pattern.
pub mod Room
pub mod Wire
pub mod RoundTrip
mod Tests
use open_smtpd.Base.{
  ℕ, zero, suc, ◌+◌, ◌*◌, ◌/◌, ◌%◌, ◌^◌, Bool, true, false, Option, none, some, List, [], ◌∷◌, ◌++◌,
  ltb, ◌==◌, ◌||◌, if◌then◌else◌, ◌>>=◌, map_some, length,
}

-- The members of struct mproc that a message under construction uses; `m_buf` holds the bytes up to
-- `m_pos`.
pub record Mproc : Type 0 where
  pub m_alloc : ℕ
  pub m_buf : List ℕ
  pub m_type : ℕ
  pub m_peerid : ℕ
  pub m_pid : ℕ
  pub m_fd : ℕ

abbrev pub imsg_header_size : ℕ
imsg_header_size = 16

abbrev pub max_imsgsize : ℕ
max_imsgsize = 16384

unfoldable pub m_create : Mproc → ℕ → ℕ → ℕ → ℕ → Mproc
m_create p type peerid pid fd = record p {
  m_buf = [];
  m_type = type;
  m_peerid = peerid;
  m_pid = pid;
  m_fd = fd;
}

-- `while (p->m_pos + len > alloc) alloc *= 2;`, on fuel.
unfoldable pub grow : ℕ → ℕ → ℕ → Option ℕ
grow zero need alloc = none
grow (suc f) need alloc =
    let rest = grow f need (alloc * 2) in if ltb alloc need then rest else some alloc

-- `none` is fatal(): the message is too large. `need` + 1 rounds of the loop are enough.
unfoldable pub m_add : Mproc → List ℕ → Option Mproc
unfolding grow
m_add p bytes =
    let need = length p.m_buf + length bytes in
    let alloc = if p.m_alloc == 0 then 128 else p.m_alloc in
    if ltb max_imsgsize (need + imsg_header_size)
    then none
    else map_some (λ n. record p { m_alloc = n; m_buf = p.m_buf ++ bytes })
        (grow (suc need) need alloc)

-- The bytes of a number in memory.
unfoldable pub le_bytes : ℕ → ℕ → List ℕ
le_bytes zero v = []
le_bytes (suc w) v = (v % 256) ∷ le_bytes w (v / 256)

unfoldable pub le_value : List ℕ → ℕ
le_value [] = 0
le_value (b ∷ bs) = b + 256 * le_value bs

-- m_add_int() and m_add_u32(), m_add_msgid(): four bytes.
unfoldable pub m_add_u32 : Mproc → ℕ → Option Mproc
m_add_u32 p v = m_add p (le_bytes 4 v)

-- m_add_size(), m_add_time(), m_add_id() and m_add_evpid(): eight bytes.
unfoldable pub m_add_size : Mproc → ℕ → Option Mproc
m_add_size p v = m_add p (le_bytes 8 v)

-- A string is the bytes before its terminator; `none` is NULL.
unfoldable pub m_add_string : Mproc → Option (List ℕ) → Option Mproc
m_add_string p none = m_add p (0 ∷ [])
m_add_string p (some v) = m_add p (b's' ∷ []) >>= λ p'. m_add p' (v ++ 0 ∷ [])

unfoldable pub m_add_data : Mproc → List ℕ → Option Mproc
m_add_data p v = m_add_size p (length v) >>= λ p'. m_add p' v

-- The pairs of a dictionary, in its order.
unfoldable pub add_pairs : Mproc → List (List ℕ × List ℕ) → Option Mproc
add_pairs p [] = some p
add_pairs p ((key, value) ∷ d) =
    m_add_string p (some key) >>= λ p1. m_add_string p1 (some value) >>= λ p2. add_pairs p2 d

unfoldable pub m_add_params : Mproc → List (List ℕ × List ℕ) → Option Mproc
m_add_params p d = m_add_size p (length d) >>= λ p'. add_pairs p' d

-- The bytes from `m->pos` up to `m->end`.
abbrev pub Msg : Type 0
Msg = List ℕ

unfoldable pub m_is_eom : Msg → Bool
m_is_eom [] = true
m_is_eom (b ∷ bs) = false

-- The first `n` bytes and those behind; `none` if there are fewer.
unfoldable pub split : ℕ → Msg → Option (List ℕ × Msg)
split zero m = some ([], m)
split (suc n) [] = none
split (suc n) (b ∷ bs) = map_some (λ (x, rest). (b ∷ x, rest)) (split n bs)

-- `none` is fatalx(): the message is too short.
unfoldable pub m_get : ℕ → Msg → Option (List ℕ × Msg)
unfolding split
m_get sz m = if ltb max_imsgsize sz then none else split sz m

unfoldable pub m_get_u32 : Msg → Option (ℕ × Msg)
m_get_u32 m = map_some (λ (x, rest). (le_value x, rest)) (m_get 4 m)

unfoldable pub m_get_size : Msg → Option (ℕ × Msg)
m_get_size m = map_some (λ (x, rest). (le_value x, rest)) (m_get 8 m)

-- The bytes before the first 0 (memchr), and those behind it; `none` if there is no 0.
unfoldable pub until_zero : Msg → Option (List ℕ × Msg)
until_zero [] = none
until_zero (b ∷ bs) =
    if b == 0 then some ([], bs) else map_some (λ (x, rest). (b ∷ x, rest)) (until_zero bs)

unfoldable pub m_get_string : Msg → Option (Option (List ℕ) × Msg)
unfolding until_zero
m_get_string [] = none
m_get_string (c ∷ m) =
    if c == 0 then some (none, m) else map_some (λ (x, rest). (some x, rest)) (until_zero m)

unfoldable pub m_get_data : Msg → Option (Option (List ℕ) × Msg)
unfolding split
m_get_data m = m_get_size m >>= λ (sz, m').
    if sz == 0 then some (none, m') else map_some (λ (x, rest). (some x, rest)) (split sz m')

-- A string that is not NULL: the key is looked up and the value duplicated, which NULL does not
-- survive.
unfoldable pub get_present : Msg → Option (List ℕ × Msg)
get_present m = m_get_string m >>= λ (s, rest). map_some (λ v. (v, rest)) s

-- The loop of m_get_params(): the pairs in the order in which dict_set() is called.
unfoldable pub get_pairs : ℕ → Msg → Option (List (List ℕ × List ℕ) × Msg)
get_pairs zero m = some ([], m)
get_pairs (suc c) m = get_present m >>= λ (key, m1). get_present m1 >>= λ (value, m2).
    map_some (λ (d, rest). ((key, value) ∷ d, rest)) (get_pairs c m2)

unfoldable pub m_get_params : Msg → Option (List (List ℕ × List ℕ) × Msg)
m_get_params m = m_get_size m >>= λ (c, m'). get_pairs c m'
