-- ===== src/Mproc/Room.antt =====
-- usr.sbin/smtpd/mproc.c: the room of a message under construction.
use open_smtpd.Base.{
  ℕ, ◌⊎◌, zero, suc, ◌+◌, ◌*◌, ◌≤◌, ◌<◌, ◌≡◌, refl, none, some, List, ◌++◌, ◌==◌, arith,
  if◌then◌else◌, length, length-append, inl, inr, dec_lt,
}
use open_smtpd.Mproc.{Mproc, grow, m_add, max_imsgsize, imsg_header_size}

grow_total :
    (f need alloc : ℕ)
    → 0 < alloc
    → need < alloc + f
    → (n : ℕ) × (grow (suc f) need alloc ≡ some n) × (need ≤ n)
unfolding grow
grow_total zero need alloc pos h = (alloc, ground arith, omega arith)
grow_total (suc f) need alloc pos h = elim (dec_lt alloc need) [
  | no enough ↦ (alloc, ground arith, omega arith)
  | yes short ↦
      let (n, e, k) = grow_total f need (alloc * 2) (omega arith) (omega arith) in
      (n, ground arith, k)
]

-- A buffer that holds what was written.
pub record HasRoom (p : Mproc) : Type 0 where
  pub room : length p.m_buf ≤ p.m_alloc

-- m_add() fails where the message with its header would exceed MAX_IMSGSIZE. Otherwise it ends with
-- the bytes appended, and the buffer has room for all that it holds.
pub m_add_lem :
    (p : Mproc) (bytes : List ℕ)
    → ((max_imsgsize < length p.m_buf + length bytes + imsg_header_size) × (m_add p bytes ≡ none))
      ⊎ ((length p.m_buf + length bytes + imsg_header_size ≤ max_imsgsize)
          × (p' : Mproc) × (m_add p bytes ≡ some p')
          × (p'.m_buf ≡ p.m_buf ++ bytes)
          × HasRoom p')
unfolding m_add
m_add_lem p bytes = elim (dec_lt max_imsgsize (length p.m_buf + length bytes + imsg_header_size)) [
  | yes large ↦ inl (large, ground arith)
  | no small ↦
      let need = length p.m_buf + length bytes in
      let alloc : ℕ = if p.m_alloc == 0 then 128 else p.m_alloc in
      let (n, e, k) = grow_total need need alloc (ground arith) (ground arith) in
      inr (
        omega arith,
        record p { m_alloc = n; m_buf = p.m_buf ++ bytes },
        ground (arith, e),
        refl,
        record { room = omega (arith, length-append p.m_buf bytes, k) },
      )
]

-- So what is appended is known wherever m_add() succeeds.
pub m_add-buf :
    (p : Mproc) (bytes : List ℕ) (p' : Mproc)
    → m_add p bytes ≡ some p'
    → p'.m_buf ≡ p.m_buf ++ bytes
m_add-buf p bytes p' h = elim (m_add_lem p bytes) [
  | inl (large, e) ↦ absurd (ground (arith, e))
  | inr (small, q, e, b, r) ↦ ground (arith, e, b)
]
