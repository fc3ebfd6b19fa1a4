-- ===== src/Dns.antt =====
-- Answers of the DNS: usr.sbin/smtpd/unpack_dns.c. A packet is the beginning of a memory of bytes, so
-- that a read behind the packet, and one behind the memory, can be told apart.
mod Reads
pub mod Records
pub mod Expand
pub mod Names
pub mod Outside
pub mod Printing
mod Tests
use open_smtpd.Base.{
  sub64, ℕ, zero, suc, ◌+◌, ◌-◌, ◌*◌, ◌/◌, ◌%◌, min, Bool, true, false, Option, none, some, List,
  [], ◌∷◌, ◌++◌, ltb, leb, ◌==◌, length, if◌then◌else◌,
}

-- What a call comes to: a read outside of the memory, fuel that ran out, or a result.
pub data Run {ℓ} (A : Type ℓ) : Type ℓ where
  outside : Run A
  stuck : Run A
  returns : A → Run A

infixl 5 ◌>>=◌
abbrev pub ◌>>=◌ {ℓ κ} : {A : Type ℓ} {B : Type κ} → Run A → (A → Run B) → Run B
outside >>= f = outside
stuck >>= f = stuck
returns a >>= f = f a

-- A byte of the memory, and some bytes, as memmove() reads them.
abbrev pub get_elem? : List ℕ → ℕ → Option ℕ
get_elem? [] i = none
get_elem? (b ∷ mem) zero = some b
get_elem? (b ∷ mem) (suc i) = get_elem? mem i

abbrev pub cons_some : Option ℕ → Option (List ℕ) → Option (List ℕ)
cons_some (some b) (some bs) = some (b ∷ bs)
cons_some _ _ = none

unfoldable pub slice : List ℕ → ℕ → ℕ → Option (List ℕ)
slice mem i zero = some []
slice mem i (suc n) = cons_some (get_elem? mem i) (slice mem (suc i) n)

abbrev pub read {ℓ} : {A : Type ℓ} → Option A → Run A
read none = outside
read (some a) = returns a

-- The variables of the loop of dname_expand(); `dst` is what was written, and `max` the room behind it,
-- 0 for a NULL pointer.
pub record Walk : Type 0 where
  pub offset : ℕ
  pub start : ℕ
  pub end : ℕ
  pub res : ℕ
  pub dst : List ℕ
  pub max : ℕ

abbrev pub at_least : ℕ → ℕ → ℕ
at_least a b = if ltb a b then b else a

-- A pointer goes back, before the place where the labels that are read began. Where the result is
-- `none` the function gives -1.
unfoldable pub follow : (Walk → Run (Option Walk)) → ℕ → Walk → Run (Option Walk)
follow go ptr w =
    if leb w.start ptr
    then returns none
    else go (record w { end = at_least w.end (w.offset + 2); offset = ptr; start = ptr })

unfoldable pub pointer : (Walk → Run (Option Walk)) → List ℕ → ℕ → ℕ → Walk → Run (Option Walk)
unfolding follow
pointer go packet len n w =
    if ltb len (w.offset + 2)
    then returns none
    else (do m ← read (get_elem? packet (w.offset + 1)); follow go (256 * (n % 64) + m) w)

-- A label of `n` bytes: as much of it as there is room for is copied, its length first.
unfoldable pub copied : ℕ → List ℕ → Walk → Walk
copied n bytes w = record w {
  dst = w.dst ++ bytes;
  max = w.max - length bytes;
  res = w.res + n + 1;
  offset = w.offset + n + 1;
  end = at_least w.end (w.offset + n + 1);
}

unfoldable pub label : (Walk → Run (Option Walk)) → List ℕ → ℕ → ℕ → Walk → Run (Option Walk)
unfolding slice copied
label go packet len n w =
    if ltb len (w.offset + n + 1)
    then returns none
    else (do bytes ← read (slice packet w.offset (min w.max (n + 1))); go (copied n bytes w))

unfoldable pub expand_byte : (Walk → Run (Option Walk)) → List ℕ → ℕ → Walk → ℕ → Run (Option Walk)
unfolding pointer label
expand_byte go packet len w n =
    if n == 0
    then returns (some w)
    else if n / 64 % 4 == 3
    then pointer go packet len n w
    else label go packet len n w

unfoldable pub expand_loop : ℕ → List ℕ → ℕ → Walk → Run (Option Walk)
unfolding expand_byte
expand_loop zero packet len w = stuck
expand_loop (suc fuel) packet len w = do
  n ← read (get_elem? packet w.offset)
  expand_byte (expand_loop fuel packet len) packet len w n

-- The length of the name, the offset behind it, and what was written.
pub record Expanded : Type 0 where
  pub res : ℕ
  pub newoffset : ℕ
  pub dst : List ℕ

unfoldable pub expanded : Walk → Expanded
expanded w = record {
  res = w.res + 1;
  newoffset = at_least w.end (w.offset + 1);
  dst = if w.max == 0 then w.dst else w.dst ++ 0 ∷ [];
}

abbrev pub named : Option Walk → Option Expanded
named none = none
named (some w) = some (expanded w)

abbrev pub expand_fuel : ℕ → ℕ
expand_fuel len = (len + 2) * (len + 2)

unfoldable pub dname_expand : List ℕ → ℕ → ℕ → ℕ → Run (Option Expanded)
unfolding expand_loop expanded
dname_expand packet len offset max = if leb len offset then returns none else (do
  r ←
      expand_loop (expand_fuel len) packet len
        (record { offset = offset; start = offset; end = offset; res = 0; dst = []; max = max })
  returns (named r))

-- struct unpack; `err` says that a text is set.
pub record Unpack : Type 0 where
  pub buf : List ℕ
  pub len : ℕ
  pub offset : ℕ
  pub err : Bool

unfoldable pub unpack_init : List ℕ → ℕ → Unpack
unpack_init buf len = record { buf = buf; len = len; offset = 0; err = false }

-- The members of a packet, `none` where they are not set.
unfoldable pub unpack_data : Unpack → ℕ → Run (Unpack × Option (List ℕ))
unfolding slice
unpack_data p n =
    if p.err
    then returns (p, none)
    else if ltb (sub64 p.len p.offset) n
    then returns (record p { err = true }, none)
    else (do
      bytes ← read (slice p.buf p.offset n)
      returns (record p { offset = p.offset + n }, some bytes))

-- ntohs() and ntohl() of bytes as they come.
unfoldable pub network_value : ℕ → List ℕ → ℕ
network_value acc [] = acc
network_value acc (b ∷ bytes) = network_value (acc * 256 + b) bytes

abbrev pub value_of : Option (List ℕ) → Option ℕ
value_of none = none
value_of (some bytes) = some (network_value 0 bytes)

unfoldable pub unpack_u16 : Unpack → Run (Unpack × Option ℕ)
unfolding unpack_data network_value
unpack_u16 p = do r ← unpack_data p 2; returns (r.0, value_of (r.1))

unfoldable pub unpack_u32 : Unpack → Run (Unpack × Option ℕ)
unfolding unpack_data network_value
unpack_u32 p = do r ← unpack_data p 4; returns (r.0, value_of (r.1))

unfoldable pub unpack_inaddr : Unpack → Run (Unpack × Option (List ℕ))
unfolding unpack_data
unpack_inaddr p = unpack_data p 4

unfoldable pub unpack_in6addr : Unpack → Run (Unpack × Option (List ℕ))
unfolding unpack_data
unpack_in6addr p = unpack_data p 16

-- MAXDNAME of <arpa/nameser.h>.
abbrev pub max_dname : ℕ
max_dname = 1025

unfoldable pub name_of : Unpack → Option Expanded → Unpack × Option (List ℕ)
name_of p none = (record p { err = true }, none)
name_of p (some x) =
    if ltb max_dname x.res
    then (record p { offset = x.newoffset; err = true }, none)
    else (record p { offset = x.newoffset }, some x.dst)

unfoldable pub unpack_dname : Unpack → Run (Unpack × Option (List ℕ))
unfolding dname_expand name_of
unpack_dname p =
    if p.err
    then returns (p, none)
    else (do e ← dname_expand p.buf p.len p.offset max_dname; returns (name_of p e))
