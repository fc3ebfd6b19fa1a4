-- ===== src/Mproc/Tests.antt =====
-- usr.sbin/smtpd/mproc.c: a message of several items at which the theorems are applied.
use open_smtpd.Base.{
  ℕ, ◌+◌, ◌<◌, ◌≤◌, ◌≡◌, ◌⊎◌, refl, none, some, List, [], ◌∷◌, ◌++◌, map, All, arith, length,
}
use open_smtpd.Mproc.{
  Mproc, m_create, m_add, m_add_u32, m_add_size, m_add_string, m_add_params, add_pairs, le_bytes,
  grow, max_imsgsize, imsg_header_size,
}
use open_smtpd.Mproc.Room.{HasRoom, m_add_lem}
use open_smtpd.Mproc.Wire.{Item, u32, string, params, kind, IsItem, add_item}
use open_smtpd.Mproc.RoundTrip.{compose, read, read-compose}

abbrev fresh : Mproc
fresh = record { m_alloc = 0; m_buf = []; m_type = 0; m_peerid = 0; m_pid = 0; m_fd = 0 }

abbrev two_bytes : List ℕ
two_bytes = 1 ∷ 2 ∷ []

m_add_lem_example :
    ((max_imsgsize < length fresh.m_buf + length two_bytes + imsg_header_size)
      × (m_add fresh two_bytes ≡ none))
    ⊎ ((length fresh.m_buf + length two_bytes + imsg_header_size ≤ max_imsgsize)
        × (p' : Mproc) × (m_add fresh two_bytes ≡ some p')
        × (p'.m_buf ≡ fresh.m_buf ++ two_bytes)
        × HasRoom p')
m_add_lem_example = m_add_lem fresh two_bytes

-- A number, a text, no text and one parameter.
abbrev items : List Item
items =
    u32 258 ∷ string (some (104 ∷ 105 ∷ [])) ∷ string none ∷ params ((107 ∷ [], 118 ∷ []) ∷ []) ∷ []

abbrev message : List ℕ
message =
    2 ∷ 1 ∷ 0 ∷ 0 ∷ 115 ∷ 104 ∷ 105 ∷ 0 ∷ 0 ∷ 1 ∷ 0 ∷ 0 ∷ 0 ∷ 0 ∷ 0 ∷ 0 ∷ 0 ∷ 115 ∷ 107 ∷ 0 ∷ 115
    ∷ 118 ∷ 0 ∷ []

abbrev composed : Mproc
composed = record { m_alloc = 128; m_buf = message; m_type = 7; m_peerid = 1; m_pid = 2; m_fd = 3 }

compose-items : compose (m_create fresh 7 1 2 3) items ≡ some composed
unfolding compose add_item m_add_u32 m_add_size m_add_string m_add_params add_pairs m_add le_bytes
    grow m_create
compose-items = refl

items-IsItem : All IsItem items
items-IsItem = (
  omega arith,
  (
    (ground arith, (ground arith, tt)),
    (tt, ((omega arith, (((ground arith, tt), (ground arith, tt)), tt)), tt)),
  ),
)

read-compose_example : read (map kind items) message ≡ some (items, [])
read-compose_example = read-compose fresh composed 7 1 2 3 items compose-items items-IsItem
