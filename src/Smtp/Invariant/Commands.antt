-- ===== src/Smtp/Invariant/Commands.antt =====
-- The commands of usr.sbin/smtpd/smtp_session.c keep the invariant: smtp_proceed_*() after their checks.
use open_smtpd.Base.{
  ◌<◌, ◌≡◌, refl, sym, ap, subst, ◌≢◌, inl, inr, Bool, true, false, Option, none, some, List, [],
  ◌∷◌, arith, ◌>>=◌, Bool-cases,
}
use open_smtpd.Smtp.Text.{Text, strlcpy}
use open_smtpd.Smtp.Address.{Mailaddr, smtp_mailaddr}
use open_smtpd.Smtp.Types.{
  State, state_connected, state_helo, state_quit, FilterPhase, filter_connect, filter_helo,
  filter_ehlo, filter_starttls, filter_auth, filter_mail_from, filter_rcpt_to, filter_data,
  filter_data_line, filter_rset, filter_quit, filter_noop, filter_help, filter_wiz, filter_commit,
  SmtpTx, hello, eight_bit_mime, enhanced_status_codes, size, dsn, starttls, auth_plain_login,
  Reply, status, capability, Request, Session, Alloc, alloc_done, no_transaction, no_parser, Env,
}
use open_smtpd.Smtp.Session.{
  has_text, smtp_enter_state, smtp_reply, io_set_read, set_tx, advertise_tls, advertise_auth,
}
use open_smtpd.Smtp.Check.{smtp_line_max, is_some}
use open_smtpd.Smtp.Transaction.{
  new_tx, allocate_tx, smtp_tx, smtp_tx_rcpt_to, smtp_tx_open_message, smtp_message_end,
}
use open_smtpd.Smtp.Proceed.{
  smtp_proceed_rset, greeted, smtp_proceed_helo, reply_if, ehlo_replies, smtp_proceed_ehlo,
  smtp_proceed_starttls, tx_sender, mail_from_in, smtp_proceed_mail_from, smtp_proceed_rcpt_to,
  smtp_proceed_data, smtp_proceed_quit, smtp_proceed_noop, smtp_proceed_help, smtp_proceed_wiz,
  smtp_proceed_commit, smtp_send_banner, smtp_tls_init, smtp_proceed_connected, proceed_phase,
  proceed_any,
}
use open_smtpd.Smtp.Invariant.Defs.{
  IsTrue, only_if, Closed, IsOpen, Shape, is_greeted, is_opening, HasTx, Asked, Rest, Turn,
  starts_tls, Good, replied-Done, abandon_lem, with_tx, Shape-at, Allowed-none, if-Good,
}
use open_smtpd.Smtp.Invariant.Transaction.{
  smtp_free-Good, Opened, refuse_tx-Good, smtp_tx_mail_from-Good, smtp_tx_rcpt_to-Good,
  open_message-Good, smtp_message_end-Good,
}
use open_smtpd.Smtp.Invariant.Auth.{proceed_auth-Good}

tx_sender-Good :
    (e : Env) (s : Session) (tx : SmtpTx) (args : Text) (m : Option (Mailaddr × Text))
    → Opened e s tx
    → tx.rcpts ≡ []
    → Good e (tx_sender e (record s { tx = some tx }) args (some tx) m)
unfolding tx_sender set_tx
tx_sender-Good e s tx args none h rc = refuse_tx-Good e s 553 tx h
tx_sender-Good e s tx args (some (sender, opts)) h rc =
    smtp_tx_mail_from-Good e s (record tx { evp = record (tx.evp) { sender = sender } }) args h rc

-- What a client must be for MAIL FROM.
abbrev pub MayMail : Env → Session → Type 0
MayMail e s =
    (s.state ≡ state_helo)
    × (s.tx ≡ none)
    × IsTrue (has_text s.helo)
    × IsTrue (only_if e.f_starttls_require s.secure)
    × IsTrue (only_if e.f_auth_require s.authenticated)
    × (s.mailcount < e.sc_session_max_mails)

-- Memory for a transaction comes with memory for its parser.
abbrev pub Allocates : Env → Type 0
Allocates e = (s : Session) → e.alloc_tx s ≢ no_parser

pub quit-Good :
    (e : Env) (s : Session) (r : Reply)
    → Turn e s
    → Good e (some (smtp_enter_state state_quit (smtp_reply r s)))
unfolding smtp_enter_state smtp_reply
quit-Good e s r (rest, re, q) = replied-Done rest re refl re

mail_alloc-Good :
    (e : Env) (s : Session) (args : Text) (a : Alloc)
    → a ≢ no_parser
    → Turn e s
    → MayMail e s
    → Good e (do r ← allocate_tx a s; mail_from_in e args r)
unfolding allocate_tx mail_from_in new_tx set_tx
mail_alloc-Good e s args alloc_done ne ((w, p, h, f, m, al), r, q) (st, n, he, se, au, lt) =
    tx_sender-Good e s (new_tx s) args
      (smtp_mailaddr e.resolver (strlcpy smtp_line_max args) true s.smtpname)
      (((w, p, h, f, m, (he, se, au, lt, omega arith, refl)), r, q), st, refl, refl) refl
mail_alloc-Good e s args no_transaction ne t may = quit-Good e s (status 421) t
mail_alloc-Good e s args no_parser ne t may = absurd (ne refl)

proceed_mail_from-Good :
    (e : Env) (s : Session) (param : Option Text)
    → Allocates e
    → Turn e s
    → IsTrue (is_some param)
    → MayMail e s
    → Good e (smtp_proceed_mail_from e s param)
unfolding smtp_proceed_mail_from smtp_tx
proceed_mail_from-Good e s none al t ok may = cc
proceed_mail_from-Good e s (some args) al t ok may =
    mail_alloc-Good e s args (e.alloc_tx s) (al s) t may

greeted-Good :
    (e : Env) (s : Session) (args : Text) (b : Bool)
    → Turn e s
    → s.tx ≡ none
    → Rest e (greeted args b s) × ((greeted args b s).reading ≡ false)
unfolding greeted smtp_enter_state
greeted-Good e s args b ((w, p, h, f, m, a), r, q) n =
    ((w, p, h, f, m, Allowed-none e (greeted args b s) n), r)

proceed_helo-Good :
    (e : Env) (s : Session) (param : Option Text)
    → Turn e s
    → is_some param ≡ true
    → s.tx ≡ none
    → Good e (smtp_proceed_helo s param)
unfolding smtp_proceed_helo smtp_reply greeted smtp_enter_state
proceed_helo-Good e s none t ok n = cc
proceed_helo-Good e s (some args) t ok n =
    let (rest, r) = greeted-Good e s args false t n in
    replied-Done rest r refl (subst Closed (sym n) tt)

-- Further replies change nothing else.
abbrev Greeted : Env → Session → Type 0
Greeted e s = Rest e s × (s.reading ≡ false) × (s.state ≡ state_helo) × (s.tx ≡ none)

reply-Greeted : (e : Env) (s : Session) (r : Reply) → Greeted e s → Greeted e (smtp_reply r s)
unfolding smtp_reply
reply-Greeted e s r g = g

reply_if-Greeted :
    (e : Env) (s : Session) (b : Bool) (r : Reply) → Greeted e s → Greeted e (reply_if b r s)
reply_if-Greeted e s true r g = reply-Greeted e s r g
reply_if-Greeted e s false r g = g

last-Good : (e : Env) (s : Session) (r : Reply) → Greeted e s → Good e (some (smtp_reply r s))
unfolding smtp_reply
last-Good e s r (rest, re, st, n) =
    replied-Done rest re refl (Shape-at state_helo _ st (subst Closed (sym n) tt))

ehlo_replies-Good : (e : Env) (s : Session) → Greeted e s → Good e (some (ehlo_replies e s))
unfolding ehlo_replies
ehlo_replies-Good e s g =
    let s4 : Session = smtp_reply (capability size) (
      smtp_reply (capability enhanced_status_codes)
        (smtp_reply (capability eight_bit_mime) (smtp_reply (capability hello) s))) in
    let s5 : Session = reply_if e.f_ext_dsn (capability dsn) s4 in
    let s6 : Session = reply_if (advertise_tls e s) (capability starttls) s5 in
    let g5 : Greeted e s5 = reply_if-Greeted e s4 e.f_ext_dsn (capability dsn) g in
    let g6 : Greeted e s6 = reply_if-Greeted e s5 (advertise_tls e s) (capability starttls) g5 in
    last-Good e (reply_if (advertise_auth e s) (capability auth_plain_login) s6) (status 250)
      (reply_if-Greeted e s6 (advertise_auth e s) (capability auth_plain_login) g6)

proceed_ehlo-Good :
    (e : Env) (s : Session) (param : Option Text)
    → Turn e s
    → is_some param ≡ true
    → s.tx ≡ none
    → Good e (smtp_proceed_ehlo e s param)
unfolding smtp_proceed_ehlo greeted smtp_enter_state
proceed_ehlo-Good e s none t ok n = cc
proceed_ehlo-Good e s (some args) t ok n =
    let (rest, r) = greeted-Good e s args true t n in
    ehlo_replies-Good e (greeted args true s) (rest, r, refl, n)

-- A reply in the state that the session is in.
reply-Shape :
    (s : Session) (r : Reply) (st : State)
    → is_greeted st ≡ true
    → Shape st s
    → Shape st (smtp_reply r s)
unfolding smtp_reply
reply-Shape s r state_connected g sh = sh
reply-Shape s r state_helo g sh = sh
reply-Shape s r st g sh = cc

pub same_state-Good :
    (e : Env) (s : Session) (r : Reply)
    → Turn e s
    → is_greeted s.state ≡ true
    → Shape s.state s
    → Good e (some (smtp_reply r s))
unfolding smtp_reply
same_state-Good e s r t g sh = replied-Done t.0 t.1 refl (reply-Shape s r s.state g sh)

pub help-Good :
    (e : Env) (s : Session)
    → Turn e s
    → is_greeted s.state ≡ true
    → Shape s.state s
    → Good e (some (smtp_proceed_help s))
unfolding smtp_proceed_help smtp_reply
help-Good e s t g sh = replied-Done t.0 t.1 refl (four s.state g sh)
  where
    four : (st : State) → is_greeted st ≡ true → Shape st s → Shape st (smtp_proceed_help s)
    four state_connected g sh = sh
    four state_helo g sh = sh
    four st g sh = cc

-- Without its transaction a session has the shape of its state.
drop-Shape :
    (s : Session) (m : List Request) (st : State)
    → is_greeted st ≡ true
    → Shape st s
    → Shape st (record s { tx = none; sent = m })
drop-Shape s m state_connected g sh = (refl, sh.1)
drop-Shape s m state_helo g sh = tt
drop-Shape s m st g sh = cc

pub proceed_rset-Good :
    (e : Env) (s : Session)
    → Turn e s
    → is_greeted s.state ≡ true
    → Shape s.state s
    → Good e (smtp_proceed_rset e s)
unfolding smtp_proceed_rset smtp_reply
proceed_rset-Good e s ((w, p, h, f, m, a), r, q) g sh =
    let s' : Session = record s { queued = true; replies = status 250 ∷ s.replies } in
    let (sent, ok) = abandon_lem e s' in
    rw ok (
      replied-Done (w, p, h, f, m, tt) r refl
        (drop-Shape s' sent s.state g (reply-Shape s (status 250) s.state g sh)))

pub tls_init-Good :
    (e : Env) (s : Session)
    → Rest e s
    → s.queued ≡ false
    → s.tx ≡ none
    → IsTrue (is_opening s.state)
    → Good e (smtp_tls_init e s)
unfolding smtp_tls_init io_set_read
tls_init-Good e s (w, p, h, f, m, a) q n o = elim (Bool-cases (e.io_accept_tls s)) [
  | inl c ↦
      rw c
        (record { bound = m; allowed = a; handled = starts_tls (w, p, refl, f) (refl, q) (n, o) })
  | inr c ↦ rw c (smtp_free-Good e (record s { reading = true }) m w p)
]

pub proceed_connected-Good :
    (e : Env) (s : Session)
    → Turn e s
    → s.state ≡ state_connected
    → s.tx ≡ none
    → s.helo ≡ []
    → Good e (smtp_proceed_connected e s)
unfolding smtp_proceed_connected smtp_send_banner smtp_reply
proceed_connected-Good e s (rest, r, q) st n he =
    if-Good e e.f_smtps (smtp_tls_init e s) (some (smtp_send_banner s))
      (λ c. tls_init-Good e s rest q n (ap is_opening st))
      (λ c. replied-Done rest r refl (Shape-at state_connected _ st (n, he)))

starttls-Good :
    (e : Env) (s : Session) → Turn e s → s.tx ≡ none → Good e (some (smtp_proceed_starttls s))
unfolding smtp_proceed_starttls smtp_reply smtp_enter_state
starttls-Good e s t n = replied-Done t.0 t.1 refl (n, t.1)

-- What needs the transaction.
tx_phase :
    (P : SmtpTx → Type 0) (e : Env) (s : Session) (f : Option SmtpTx → Option Session)
    → HasTx P s.tx
    → ((tx : SmtpTx) → P tx → s.tx ≡ some tx → Good e (f (some tx)))
    → Good e (f s.tx)
tx_phase P e s f h go = by_tx s.tx h refl
  where
    by_tx : (o : Option SmtpTx) → HasTx P o → s.tx ≡ o → Good e (f o)
    by_tx none h eq = absurd h
    by_tx (some tx) h eq = go tx h eq

Closed-of : (tx : SmtpTx) → (tx.ofile ≡ false) × (tx.filter ≡ false) → Closed (some tx)
Closed-of tx h = h

rcpt_to-Good :
    (e : Env) (s : Session) (param : Option Text)
    → Turn e s
    → is_some param ≡ true
    → s.state ≡ state_helo
    → HasTx (λ tx. (tx.ofile ≡ false) × (tx.filter ≡ false)) s.tx
    → Good e (smtp_proceed_rcpt_to e s s.tx param)
unfolding smtp_proceed_rcpt_to
rcpt_to-Good e s none t ok st h = cc
rcpt_to-Good e s (some args) t ok st h =
    tx_phase (λ tx. (tx.ofile ≡ false) × (tx.filter ≡ false)) e s
      (λ o. smtp_proceed_rcpt_to e s o (some args)) h
      (λ tx c eq.
        with_tx (λ s'. Turn e s' → s'.state ≡ state_helo → Good e (smtp_tx_rcpt_to e s' tx args)) s
          tx eq (λ t' st'. smtp_tx_rcpt_to-Good e s tx args (t', st', c.0, c.1)) t st)

data-Good :
    (e : Env) (s : Session)
    → Turn e s
    → s.state ≡ state_helo
    → HasTx (λ tx. (tx.ofile ≡ false) × (tx.filter ≡ false)) s.tx
    → Good e (smtp_proceed_data s s.tx)
unfolding smtp_proceed_data
data-Good e s t st h =
    tx_phase (λ tx. (tx.ofile ≡ false) × (tx.filter ≡ false)) e s (λ o. smtp_proceed_data s o) h
      (λ tx c eq.
        with_tx (λ s'. Turn e s' → s'.state ≡ state_helo → Good e (smtp_tx_open_message s' tx)) s tx
          eq (λ t' st'. open_message-Good e s tx (t', st', c.0, c.1)) t st)

HasTx-of-IsOpen : (o : Option SmtpTx) → IsOpen o → HasTx (λ tx. tx.ofile ≡ true) o
HasTx-of-IsOpen none h = h
HasTx-of-IsOpen (some tx) h = h

commit-Good :
    (e : Env) (s : Session) → Turn e s → IsOpen s.tx → Good e (smtp_proceed_commit e s s.tx)
unfolding smtp_proceed_commit
commit-Good e s t h =
    tx_phase (λ tx. tx.ofile ≡ true) e s (λ o. smtp_proceed_commit e s o) (HasTx-of-IsOpen s.tx h)
      (λ tx c eq.
        with_tx (λ s'. Turn e s' → Good e (smtp_message_end e s' tx)) s tx eq
          (λ t'. smtp_message_end-Good e s tx t' c) t)

-- In the session's turn, a command or the banner that can be carried out is, without a fault. Then there
-- is output and no input is read, or the session waits for one answer or for the timer and neither reads
-- nor has output, or a TLS handshake begins, or the session is over; a transaction is for a client that
-- is identified, over TLS and authenticated where that is required, within the limits. This is so where
-- memory for a transaction comes with memory for its parser.
pub proceed_phase-Good :
    (phase : FilterPhase) (e : Env) (s : Session) (param : Option Text)
    → Allocates e
    → Turn e s
    → Asked phase (is_some param) e s
    → Good e (proceed_any phase e s param)
unfolding proceed_any proceed_phase smtp_proceed_noop smtp_proceed_wiz smtp_proceed_quit
proceed_phase-Good filter_connect e s param al t (st, n, he) = proceed_connected-Good e s t st n he
proceed_phase-Good filter_helo e s param al t (g, gr, n, sh) = proceed_helo-Good e s param t g n
proceed_phase-Good filter_ehlo e s param al t (g, gr, n, sh) = proceed_ehlo-Good e s param t g n
proceed_phase-Good filter_starttls e s param al t (st, n) = starttls-Good e s t n
proceed_phase-Good filter_auth e s param al t (g, st, n) = proceed_auth-Good e s param t g st n
proceed_phase-Good filter_mail_from e s param al t (g, st, n, he, se, au, lt) =
    proceed_mail_from-Good e s param al t g (st, n, he, se, au, lt)
proceed_phase-Good filter_rcpt_to e s param al t (g, st, h) = rcpt_to-Good e s param t g st h
proceed_phase-Good filter_data e s param al t (st, h) = data-Good e s t st h
proceed_phase-Good filter_data_line e s param al t a = absurd a
proceed_phase-Good filter_rset e s param al t (g, sh) = proceed_rset-Good e s t g sh
proceed_phase-Good filter_quit e s param al t a = quit-Good e s (status 221) t
proceed_phase-Good filter_noop e s param al t (g, sh) = same_state-Good e s (status 250) t g sh
proceed_phase-Good filter_help e s param al t (g, sh) = help-Good e s t g sh
proceed_phase-Good filter_wiz e s param al t (g, sh) = same_state-Good e s (status 500) t g sh
proceed_phase-Good filter_commit e s param al t (st, h) = commit-Good e s t h
