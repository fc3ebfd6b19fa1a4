-- ===== src/Smtp/Invariant/Defs.antt =====
-- The situations of a session of usr.sbin/smtpd/smtp_session.c: who moves next, and what is there then.
use open_smtpd.Base.{
  ◌≤◌, ◌<◌, ◌≡◌, refl, sym, ap, subst, ◌∙◌, inl, inr, Bool, true, false, not, ◌||◌, Option, none,
  some, List, [], ◌∷◌, arith, ◌==◌, ◌>>=◌, Bool-cases, length, if◌then◌else◌,
}
use open_smtpd.Smtp.Types.{
  State, state_new, state_connected, state_tls, state_helo, state_auth_init, state_auth_username,
  state_auth_password, state_auth_finalize, state_body, state_quit, FilterPhase, filter_connect,
  filter_helo, filter_ehlo, filter_starttls, filter_auth, filter_mail_from, filter_rcpt_to,
  filter_data, filter_data_line, filter_commit, SmtpTx, Wait, wait_lka_helo, wait_lka_mail,
  wait_lka_rcpt, wait_parent_auth, wait_queue_msg, wait_queue_fd, wait_queue_commit, wait_filters,
  wait_filter_fd, Request, message_rollback, filter_data_end, Session, Env,
}
use open_smtpd.Smtp.Session.{
  has_text, smtp_enter_state, send, waits_in, leave_tree, tree_xset, tree_xpop, set_tx, end_filter,
  smtp_filter_data_end, smtp_tx_rollback, drop_tx, smtp_tx_free, abandon,
}
use open_smtpd.Smtp.Check.{is_some}
use open_smtpd.Smtp.Transaction.{rollback_state}

abbrev pub IsTrue : Bool → Type 0
IsTrue b = b ≡ true

abbrev pub only_if : Bool → Bool → Bool
only_if a b = not a || b

-- A transaction is for a client that has said who it is, over TLS and authenticated where the listener
-- requires these, within the limits, and has as many recipients as it counts.
abbrev pub Allowed : Env → Session → Option SmtpTx → Type 0
Allowed e s none = Unit
Allowed e s (some tx) =
    IsTrue (has_text s.helo)
    × IsTrue (only_if e.f_starttls_require s.secure)
    × IsTrue (only_if e.f_auth_require s.authenticated)
    × (s.mailcount < e.sc_session_max_mails)
    × (tx.rcptcount ≤ e.sc_session_max_rcpt)
    × (tx.rcptcount ≡ length tx.rcpts)

-- A transaction whose message is not open, and one whose message is.
abbrev pub Closed : Option SmtpTx → Type 0
Closed none = Unit
Closed (some tx) = (tx.ofile ≡ false) × (tx.filter ≡ false)

abbrev pub IsOpen : Option SmtpTx → Type 0
IsOpen none = ⊥
IsOpen (some tx) = tx.ofile ≡ true

abbrev pub Filtered : Option SmtpTx → Type 0
Filtered none = ⊥
Filtered (some tx) = (tx.ofile ≡ true) × (tx.filter ≡ true)

-- What is there before a command.
abbrev pub Shape : State → Session → Type 0
Shape state_new s = ⊥
Shape state_connected s = (s.tx ≡ none) × (s.helo ≡ [])
Shape state_tls s = (s.tx ≡ none) × (s.reading ≡ false)
Shape state_helo s = Closed s.tx
Shape state_auth_init s = s.tx ≡ none
Shape state_auth_username s = s.tx ≡ none
Shape state_auth_password s = s.tx ≡ none
Shape state_auth_finalize s = ⊥
Shape state_body s = IsOpen s.tx
Shape state_quit s = s.reading ≡ false

-- The states in which an authentication is decided.
abbrev pub is_auth : State → Bool
is_auth state_auth_init = true
is_auth state_auth_password = true
is_auth _ = false

abbrev pub is_greeted : State → Bool
is_greeted state_connected = true
is_greeted state_helo = true
is_greeted _ = false

-- The states in which TLS starts.
abbrev pub is_opening : State → Bool
is_opening state_connected = true
is_opening state_tls = true
is_opening _ = false

-- A transaction is there.
abbrev pub HasTx : (SmtpTx → Type 0) → Option SmtpTx → Type 0
HasTx P none = ⊥
HasTx P (some tx) = P tx

-- What the filters are has_asked about can be carried out; whether a parameter is given.
abbrev pub Asked : FilterPhase → Bool → Env → Session → Type 0
Asked filter_connect given e s = (s.state ≡ state_connected) × (s.tx ≡ none) × (s.helo ≡ [])
Asked filter_helo given e s =
    IsTrue given × IsTrue (is_greeted s.state) × (s.tx ≡ none) × Shape s.state s
Asked filter_ehlo given e s =
    IsTrue given × IsTrue (is_greeted s.state) × (s.tx ≡ none) × Shape s.state s
Asked filter_starttls given e s = (s.state ≡ state_helo) × (s.tx ≡ none)
Asked filter_auth given e s = IsTrue given × (s.state ≡ state_helo) × (s.tx ≡ none)
Asked filter_mail_from given e s =
    IsTrue given
    × (s.state ≡ state_helo)
    × (s.tx ≡ none)
    × IsTrue (has_text s.helo)
    × IsTrue (only_if e.f_starttls_require s.secure)
    × IsTrue (only_if e.f_auth_require s.authenticated)
    × (s.mailcount < e.sc_session_max_mails)
Asked filter_rcpt_to given e s =
    IsTrue given
    × (s.state ≡ state_helo)
    × HasTx (λ tx. (tx.ofile ≡ false) × (tx.filter ≡ false)) s.tx
Asked filter_data given e s =
    (s.state ≡ state_helo) × HasTx (λ tx. (tx.ofile ≡ false) × (tx.filter ≡ false)) s.tx
Asked filter_data_line given e s = ⊥
Asked filter_commit given e s = (s.state ≡ state_body) × IsOpen s.tx
Asked _ given e s = IsTrue (is_greeted s.state) × Shape s.state s

-- What is there while the session waits for an answer.
abbrev pub Pending : Wait → Env → Session → Type 0
Pending wait_lka_helo e s = (s.tx ≡ none) × (s.helo ≡ [])
Pending wait_lka_mail e s =
    (s.state ≡ state_helo)
    × HasTx (λ tx. (tx.ofile ≡ false) × (tx.filter ≡ false) × (tx.rcpts ≡ [])) s.tx
Pending wait_queue_msg e s =
    (s.state ≡ state_helo)
    × HasTx (λ tx. (tx.ofile ≡ false) × (tx.filter ≡ false) × (tx.rcpts ≡ [])) s.tx
Pending wait_lka_rcpt e s =
    (s.state ≡ state_helo)
    × HasTx
        (λ tx. (tx.ofile ≡ false) × (tx.filter ≡ false) × (tx.rcptcount < e.sc_session_max_rcpt))
        s.tx
Pending wait_parent_auth e s = IsTrue (is_auth s.state) × (s.tx ≡ none)
Pending wait_queue_fd e s =
    (s.state ≡ state_helo) × HasTx (λ tx. (tx.ofile ≡ false) × (tx.filter ≡ false)) s.tx
Pending wait_filter_fd e s = (s.state ≡ state_helo) × HasTx (λ tx. tx.ofile ≡ true) s.tx
Pending wait_queue_commit e s = HasTx (λ tx. Unit {0}) s.tx
Pending wait_filters e s = Asked s.filter_phase (is_some s.filter_param) e s

-- All but the input and the output.
abbrev pub Rest : Env → Session → Type 0
Rest e s =
    (s.waits ≡ [])
    × (s.paused ≡ false)
    × (s.handshake ≡ false)
    × (s.freed ≡ false)
    × (s.mailcount ≤ e.sc_session_max_mails)
    × Allowed e s s.tx

-- It is the session's turn: it neither reads nor has output.
abbrev pub Turn : Env → Session → Type 0
Turn e s = Rest e s × (s.reading ≡ false) × (s.queued ≡ false)

-- Who moves next: nobody, the connection, another process, the timer, the TLS handshake, the filter.
pub data Situation (e : Env) (s : Session) : Type 0 where
  over :
      (s.waits ≡ []) × (s.paused ≡ false) × (s.freed ≡ true)
      → (s.reading ≡ false) × (s.queued ≡ false)
      → s.tx ≡ none
      → Situation e s
  ready :
      (s.waits ≡ []) × (s.paused ≡ false) × (s.handshake ≡ false) × (s.freed ≡ false)
      → s.queued ≡ not s.reading
      → Shape s.state s
      → Situation e s
  awaits :
      (w : Wait)
      → (s.waits ≡ w ∷ []) × (s.paused ≡ false) × (s.handshake ≡ false) × (s.freed ≡ false)
      → (s.reading ≡ false) × (s.queued ≡ false)
      → Pending w e s
      → Situation e s
  pauses :
      (s.waits ≡ []) × (s.paused ≡ true) × (s.handshake ≡ false) × (s.freed ≡ false)
      → (s.reading ≡ false) × (s.queued ≡ false)
      → s.tx ≡ none
      → Situation e s
  secures :
      (s.waits ≡ []) × (s.paused ≡ false) × (s.handshake ≡ true) × (s.freed ≡ false)
      → (s.reading ≡ true) × (s.queued ≡ false)
      → (s.tx ≡ none) × IsTrue (is_opening s.state)
      → Situation e s
  filters :
      (s.waits ≡ []) × (s.paused ≡ false) × (s.handshake ≡ false) × (s.freed ≡ false)
      → (s.reading ≡ false) × (s.queued ≡ false)
      → s.state ≡ state_body
      → Filtered s.tx
      → Situation e s

pub record Inv (e : Env) (s : Session) : Type 0 where
  pub bound : s.mailcount ≤ e.sc_session_max_mails
  pub allowed : Allowed e s s.tx
  pub situation : Situation e s

-- What a handler leaves: the session is over, has output, waits for one answer, pauses, or starts TLS.
pub data Handled (e : Env) (s : Session) : Type 0 where
  is_over :
      (s.waits ≡ []) × (s.paused ≡ false) × (s.freed ≡ true)
      → (s.reading ≡ false) × (s.queued ≡ false)
      → s.tx ≡ none
      → Handled e s
  has_output :
      (s.waits ≡ []) × (s.paused ≡ false) × (s.handshake ≡ false) × (s.freed ≡ false)
      → (s.reading ≡ false) × (s.queued ≡ true)
      → Shape s.state s
      → Handled e s
  has_asked :
      (w : Wait)
      → (s.waits ≡ w ∷ []) × (s.paused ≡ false) × (s.handshake ≡ false) × (s.freed ≡ false)
      → (s.reading ≡ false) × (s.queued ≡ false)
      → Pending w e s
      → Handled e s
  is_paused :
      (s.waits ≡ []) × (s.paused ≡ true) × (s.handshake ≡ false) × (s.freed ≡ false)
      → (s.reading ≡ false) × (s.queued ≡ false)
      → s.tx ≡ none
      → Handled e s
  starts_tls :
      (s.waits ≡ []) × (s.paused ≡ false) × (s.handshake ≡ true) × (s.freed ≡ false)
      → (s.reading ≡ true) × (s.queued ≡ false)
      → (s.tx ≡ none) × IsTrue (is_opening s.state)
      → Handled e s

pub record Done (e : Env) (s : Session) : Type 0 where
  pub bound : s.mailcount ≤ e.sc_session_max_mails
  pub allowed : Allowed e s s.tx
  pub handled : Handled e s

Handled-Situation : {e : Env} {s : Session} → Handled e s → Situation e s
Handled-Situation (is_over c rq n) = over c rq n
Handled-Situation (has_output c (r, q) sh) = ready c (q ∙ ap not (sym r)) sh
Handled-Situation (has_asked w c rq pe) = awaits w c rq pe
Handled-Situation (is_paused c rq n) = pauses c rq n
Handled-Situation (starts_tls c rq n) = secures c rq n

-- No fault, and the invariant.
abbrev pub Kept : Env → Option Session → Type 0
Kept e none = ⊥
Kept e (some s) = Inv e s

-- No fault, and a handler that is done.
abbrev pub Good : Env → Option Session → Type 0
Good e none = ⊥
Good e (some s) = Done e s

pub Good-Kept : (e : Env) (x : Option Session) → Good e x → Kept e x
Good-Kept e none g = g
Good-Kept e (some s) g = record {
  bound = g.bound;
  allowed = g.allowed;
  situation = Handled-Situation g.handled;
}

pub replied-Done :
    {e : Env} {s : Session}
    → Rest e s
    → s.reading ≡ false
    → s.queued ≡ true
    → Shape s.state s
    → Done e s
replied-Done (w, p, h, f, m, a) r q sh = record {
  bound = m;
  allowed = a;
  handled = has_output (w, p, h, f) (r, q) sh;
}

pub ended-Done :
    {e : Env} {s : Session}
    → s.mailcount ≤ e.sc_session_max_mails
    → (s.waits ≡ []) × (s.paused ≡ false) × (s.freed ≡ true)
    → (s.reading ≡ false) × (s.queued ≡ false)
    → s.tx ≡ none
    → Done e s
ended-Done {e} {s} m f r t = record {
  bound = m;
  allowed = subst (Allowed e s) (sym t) tt;
  handled = is_over f r t;
}

-- A session that begins to wait.
pub xset-Good :
    (e : Env) (w : Wait) (s : Session)
    → Turn e s
    → Pending w e (record s { waits = w ∷ [] })
    → Good e (tree_xset w s)
unfolding tree_xset waits_in
xset-Good e w s ((ws, p, h, f, m, a), r, q) pre =
    subst (λ x. Good e (if waits_in w x then none else some (record s { waits = w ∷ x }))) (sym ws)
      (record { bound = m; allowed = a; handled = has_asked w (refl, p, h, f) (r, q) pre })

-- A session that has its answer.
pub xpop-turn :
    (w : Wait) (s : Session) → s.waits ≡ w ∷ [] → tree_xpop w s ≡ some (record s { waits = [] })
unfolding tree_xpop waits_in leave_tree
xpop-turn w s h =
    subst
      (λ x.
        (if waits_in w x then some (record s { waits = leave_tree w x }) else none)
        ≡ some (record s { waits = [] }))
      (sym h) (popped w)
  where
    popped :
        (w : Wait)
        → (if waits_in w (w ∷ []) then some (record s { waits = leave_tree w (w ∷ []) }) else none)
          ≡ some (record s { waits = [] })
    popped w = ground arith

-- smtp_filter_data_end() changes what was sent, and whether the transaction has a filter.
abbrev pub DataEnds : Env → Session → SmtpTx → Type 0
DataEnds e s tx =
    (m : List Request) × (p : Bool) × (smtp_filter_data_end e s
      ≡ some (record s { tx = some (record tx { filter = p }); sent = m }))

pub data_end-DataEnds : (e : Env) (s : Session) (tx : SmtpTx) → s.tx ≡ some tx → DataEnds e s tx
unfolding smtp_filter_data_end end_filter send set_tx
data_end-DataEnds e s tx h = elim (Bool-cases (e.f_filtered)) [
  | inr off ↦ (s.sent, tx.filter, ground arith)
  | inl on ↦ elim (Bool-cases (tx.filter)) [
    | inl f ↦ (filter_data_end ∷ s.sent, false, ground arith)
    | inr f ↦ (s.sent, tx.filter, ground arith)
  ]
]

-- A rollback and the end of the transaction.
pub rollback_free :
    (e : Env) (s : Session) (tx tx' : SmtpTx)
    → s.tx ≡ some tx
    → (m : List Request) × ((do t ← smtp_tx_rollback e tx' s; smtp_tx_free t)
        ≡ some (record s { tx = none; sent = m }))
unfolding smtp_tx_rollback smtp_tx_free drop_tx send
rollback_free e s tx tx' h =
    let (m, p, d) =
      data_end-DataEnds e (record s { sent = message_rollback tx'.msgid ∷ s.sent }) tx h in
    (m, rw d)

pub rollback_state_lem :
    (e : Env) (s : Session) (tx tx' : SmtpTx)
    → s.tx ≡ some tx
    → (m : List Request) × (rollback_state e tx' s
        ≡ some (record s { tx = none; sent = m; state = state_helo }))
unfolding rollback_state smtp_tx_rollback smtp_tx_free drop_tx send smtp_enter_state
rollback_state_lem e s tx tx' h =
    let (m, p, d) =
      data_end-DataEnds e (record s { sent = message_rollback tx'.msgid ∷ s.sent }) tx h in
    (m, rw d)

pub abandon_lem :
    (e : Env) (s : Session)
    → (m : List Request) × (abandon e s s.tx ≡ some (record s { tx = none; sent = m }))
unfolding abandon smtp_tx_free drop_tx
abandon_lem e s = abandon_case s.tx refl
  where
    abandon_case :
        (o : Option SmtpTx)
        → s.tx ≡ o
        → (m : List Request) × (abandon e s o ≡ some (record s { tx = none; sent = m }))
    abandon_case none h = (s.sent, ground arith)
    abandon_case (some tx) h = elim (Bool-cases (tx.msgid == 0)) [
      | inl z ↦ (s.sent, rw z (ap (drop_tx s) h))
      | inr z ↦ let (m, r) = rollback_free e s tx tx h in (m, rw z r)
    ]

-- A session whose transaction is known.
pub with_tx :
    (P : Session → Type 0) (s : Session) (tx : SmtpTx)
    → s.tx ≡ some tx
    → P (record s { tx = some tx })
    → P s
with_tx P s tx h = subst P (λ i. record s { tx = sym h i })

pub Shape-at : (st : State) (s : Session) → s.state ≡ st → Shape st s → Shape s.state s
Shape-at st s h = subst (λ x. Shape x s) (sym h)

pub xset-eq :
    (w : Wait) (s : Session) → s.waits ≡ [] → tree_xset w s ≡ some (record s { waits = w ∷ [] })
unfolding tree_xset waits_in
xset-eq w s h = simp h

-- A session without a transaction may be for anybody.
pub Allowed-none : (e : Env) (s : Session) → s.tx ≡ none → Allowed e s s.tx
Allowed-none e s n = subst (Allowed e s) (sym n) tt

pub if-Good :
    (e : Env) (b : Bool) (x y : Option Session)
    → (b ≡ true → Good e x)
    → (b ≡ false → Good e y)
    → Good e (if b then x else y)
if-Good e true x y h k = h refl
if-Good e false x y h k = k refl

pub if-Kept :
    (e : Env) (b : Bool) (x y : Option Session)
    → (b ≡ true → Kept e x)
    → (b ≡ false → Kept e y)
    → Kept e (if b then x else y)
if-Kept e true x y h k = h refl
if-Kept e false x y h k = k refl
