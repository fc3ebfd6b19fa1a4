-- ===== src/Dns/Records.antt =====
-- usr.sbin/smtpd/unpack_dns.c: the header, the queries and the records of an answer, and names as texts.
use open_smtpd.Base.{
  sub64, ℕ, zero, suc, ◌+◌, ◌-◌, ◌*◌, Bool, true, false, ◌&&◌, ◌||◌, Option, none, some, List, [],
  ◌∷◌, ◌++◌, ltb, ◌==◌, if◌then◌else◌,
}
use open_smtpd.Dns.{
  Run, stuck, returns, ◌>>=◌, get_elem?, slice, read, Unpack, unpack_data, network_value,
  unpack_u16, unpack_u32, unpack_inaddr, unpack_in6addr, unpack_dname,
}

-- struct dns_header.
pub record DnsHeader : Type 0 where
  pub id : ℕ
  pub flags : ℕ
  pub qdcount : ℕ
  pub ancount : ℕ
  pub nscount : ℕ
  pub arcount : ℕ

-- The id is left in network order: the value of its two bytes as the machine, which is little-endian,
-- has it.
unfoldable pub from_network : Option (List ℕ) → Option DnsHeader
unfolding network_value
from_network (some (i ∷ j ∷ f ∷ g ∷ q ∷ r ∷ a ∷ b ∷ n ∷ m ∷ x ∷ y ∷ [])) = some (record {
  id = i + 256 * j;
  flags = network_value 0 (f ∷ g ∷ []);
  qdcount = network_value 0 (q ∷ r ∷ []);
  ancount = network_value 0 (a ∷ b ∷ []);
  nscount = network_value 0 (n ∷ m ∷ []);
  arcount = network_value 0 (x ∷ y ∷ []);
})
from_network _ = none

-- HFIXEDSZ of <arpa/nameser.h>.
abbrev pub hfixedsz : ℕ
hfixedsz = 12

unfoldable pub unpack_header : Unpack → Run (Unpack × Option DnsHeader)
unfolding unpack_data from_network
unpack_header p = do r ← unpack_data p hfixedsz; returns (r.0, from_network (r.1))

-- struct dns_query; a member is `none` where it is not set.
pub record DnsQuery : Type 0 where
  pub q_dname : Option (List ℕ)
  pub q_type : Option ℕ
  pub q_class : Option ℕ

unfoldable pub unless_err {ℓ} : {A : Type ℓ} → Unpack → A → Unpack × Option A
unless_err p a = (p, if p.err then none else some a)

unfoldable pub unpack_query : Unpack → Run (Unpack × Option DnsQuery)
unfolding unpack_dname unpack_u16 unless_err
unpack_query p = do
  (p1, name) ← unpack_dname p
  (p2, type) ← unpack_u16 p1
  (p3, class) ← unpack_u16 p2
  returns (unless_err p3 (record { q_dname = name; q_type = type; q_class = class }))

-- The union of struct dns_rr; `other` has where its bytes begin, and how many they are.
pub data Rdata : Type 0 where
  cname ns ptr : Option (List ℕ) → Rdata
  mx : Option ℕ → Option (List ℕ) → Rdata
  soa :
      Option (List ℕ)
      → Option (List ℕ)
      → Option ℕ
      → Option ℕ
      → Option ℕ
      → Option ℕ
      → Option ℕ
      → Rdata
  in_a in_aaaa : Option (List ℕ) → Rdata
  other : ℕ → ℕ → Rdata

pub record DnsRr : Type 0 where
  pub rr_dname : Option (List ℕ)
  pub rr_type : Option ℕ
  pub rr_class : Option ℕ
  pub rr_ttl : Option ℕ
  pub rr : Rdata

abbrev pub is_value : Option ℕ → ℕ → Bool
is_value none n = false
is_value (some m) n = m == n

unfoldable pub unpack_soa : Unpack → Run (Unpack × Rdata)
unfolding unpack_dname unpack_u32
unpack_soa p = do
  (p1, mname) ← unpack_dname p
  (p2, rname) ← unpack_dname p1
  (p3, serial) ← unpack_u32 p2
  (p4, refresh) ← unpack_u32 p3
  (p5, retry) ← unpack_u32 p4
  (p6, expire) ← unpack_u32 p5
  (p7, minimum) ← unpack_u32 p6
  returns (p7, soa mname rname serial refresh retry expire minimum)

unfoldable pub unpack_mx : Unpack → Run (Unpack × Rdata)
unfolding unpack_dname unpack_u16
unpack_mx p = do
  (p1, preference) ← unpack_u16 p
  (p2, exchange) ← unpack_dname p1
  returns (p2, mx preference exchange)

unfoldable pub unpack_name : (Option (List ℕ) → Rdata) → Unpack → Run (Unpack × Rdata)
unfolding unpack_dname
unpack_name f p = do (p1, name) ← unpack_dname p; returns (p1, f name)

unfoldable pub unpack_other : ℕ → Unpack → Run (Unpack × Rdata)
unpack_other rdlen p = returns (record p { offset = p.offset + rdlen }, other p.offset rdlen)

-- The switch on the type: T_CNAME, T_MX, T_NS, T_PTR, T_SOA, T_A and T_AAAA, the last two of class C_IN.
unfoldable pub unpack_rdata : Option ℕ → Option ℕ → ℕ → Unpack → Run (Unpack × Rdata)
unfolding unpack_name unpack_mx unpack_soa unpack_inaddr unpack_in6addr unpack_other
unpack_rdata type class rdlen p =
    if is_value type 5
    then unpack_name cname p
    else if is_value type 15
    then unpack_mx p
    else if is_value type 2
    then unpack_name ns p
    else if is_value type 12
    then unpack_name ptr p
    else if is_value type 6
    then unpack_soa p
    else if is_value type 1 && is_value class 1
    then (do (p1, a) ← unpack_inaddr p; returns (p1, in_a a))
    else if is_value type 28 && is_value class 1
    then (do (p1, a) ← unpack_in6addr p; returns (p1, in_aaaa a))
    else unpack_other rdlen p

-- The advertised length must be the one that was read.
unfoldable pub right_length : ℕ → ℕ → Unpack → Unpack
right_length save_offset rdlen p =
    if p.err || sub64 p.offset save_offset == rdlen then p else record p { err = true }

unfoldable pub unpack_rest :
    Option (List ℕ)
    → Option ℕ
    → Option ℕ
    → Option ℕ
    → Unpack × Option ℕ
    → Run (Unpack × Option DnsRr)
unfolding unpack_rdata right_length unless_err
unpack_rest name type class ttl (p, none) = returns (p, none)
unpack_rest name type class ttl (p, some rdlen) =
    if p.err
    then returns (p, none)
    else if ltb (sub64 p.len p.offset) rdlen
    then returns (record p { err = true }, none)
    else (do
      (p1, rdata) ← unpack_rdata type class rdlen p
      returns (
          unless_err (right_length p.offset rdlen p1) (record {
            rr_dname = name;
            rr_type = type;
            rr_class = class;
            rr_ttl = ttl;
            rr = rdata;
          })))

unfoldable pub unpack_rr : Unpack → Run (Unpack × Option DnsRr)
unfolding unpack_dname unpack_u16 unpack_u32 unpack_rest
unpack_rr p = do
  (p1, name) ← unpack_dname p
  (p2, type) ← unpack_u16 p1
  (p3, class) ← unpack_u16 p2
  (p4, ttl) ← unpack_u32 p3
  r ← unpack_u16 p4
  unpack_rest name type class ttl r

-- print_dname(): the labels with a dot behind each, cut to the room that is left. The result is what
-- stands before the NUL.
abbrev pub smaller : ℕ → ℕ → ℕ
smaller a b = if ltb a b then a else b

unfoldable pub dot_of : ℕ → List ℕ × ℕ
dot_of left = if left == 0 then ([], 0) else (b'.' ∷ [], left - 1)

unfoldable pub print_label :
    (ℕ → ℕ → List ℕ → Run (List ℕ)) → List ℕ → ℕ → ℕ → List ℕ → ℕ → Run (List ℕ)
unfolding slice dot_of
print_label go dname i left out n = if n == 0 || left == 0 then returns out else (do
  let count = smaller n (left - 1)
  bytes ← read (slice dname (i + 1) count)
  let dot = dot_of (left - count)
  go (i + n + 1) (dot.1) (out ++ (bytes ++ dot.0)))

unfoldable pub print_labels : ℕ → List ℕ → ℕ → ℕ → List ℕ → Run (List ℕ)
unfolding print_label
print_labels zero dname i left out = stuck
print_labels (suc fuel) dname i left out = do
  n ← read (get_elem? dname i)
  print_label (print_labels fuel dname) dname i left out n

unfoldable pub print_dname : List ℕ → ℕ → Run (List ℕ)
unfolding print_labels
print_dname dname max = do
  n ← read (get_elem? dname 0)
  (if n == 0
      then returns (if ltb 1 max then b'.' ∷ [] else [])
      else print_labels (sub64 max 1 + 2) dname 0 (sub64 max 1) [])
