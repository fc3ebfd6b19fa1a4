-- ===== src/Smtp/Invariant/Transaction.antt =====
-- Transactions of usr.sbin/smtpd/smtp_session.c keep the invariant.
use open_smtpd.Base.{
  ℕ, ◌≤◌, ◌<◌, ◌≡◌, refl, ap, ◌⊎◌, inl, inr, Bool, true, false, ◌&&◌, Option, none, some, List, [],
  ◌∷◌, arith, leb, Bool-cases,
}
use open_smtpd.Smtp.Text.{Text, strlcpy}
use open_smtpd.Smtp.Address.{Mailaddr, smtp_mailaddr}
use open_smtpd.Smtp.Content.{is_ok}
use open_smtpd.Smtp.Types.{
  state_helo, Envelope, SmtpTx, wait_lka_mail, wait_lka_rcpt, wait_queue_msg, wait_queue_fd,
  wait_queue_commit, Reply, status, Request, check_sender, message_create, message_open,
  message_commit, expand_rcpt, filter_data_end, Session, Env,
}
use open_smtpd.Smtp.Session.{
  has_text, smtp_reply, send, tree_xset, set_tx, end_filter, smtp_filter_data_end, smtp_filter_end,
  drop_tx, smtp_tx_free, smtp_free,
}
use open_smtpd.Smtp.Check.{smtp_line_max}
use open_smtpd.Smtp.Options.{MailOptions, RcptOptions}
use open_smtpd.Smtp.Transaction.{
  smtp_tx_create_message, begin_message, refuse_tx, mail_from_options, mail_from_parsed,
  smtp_tx_mail_from, rcpt_to_options, rcpt_to_parsed, smtp_tx_rcpt_to, smtp_tx_open_message,
  smtp_tx_commit, error_reply, rollback_state, fail_message, smtp_message_end,
}
use open_smtpd.Smtp.Invariant.Defs.{
  HasTx, Rest, Turn, has_asked, Done, Good, replied-Done, ended-Done, xset-Good, data_end-DataEnds,
  rollback_state_lem, abandon_lem, Shape-at, xset-eq,
}

pub smtp_free-Good :
    (e : Env) (s : Session)
    → s.mailcount ≤ e.sc_session_max_mails
    → s.waits ≡ []
    → s.paused ≡ false
    → Good e (smtp_free e s)
unfolding smtp_free smtp_filter_end send
smtp_free-Good e s m w p =
    let (r, a) = abandon_lem e s in
    rw a (elim (Bool-cases (e.f_filtered)) [
      | inl f ↦ rw f (ended-Done m (w, p, refl) (refl, refl) refl)
      | inr f ↦ rw f (ended-Done m (w, p, refl) (refl, refl) refl)
    ])

-- A transaction that is open to commands, in the session's turn.
abbrev pub Opened : Env → Session → SmtpTx → Type 0
Opened e s tx =
    Turn e (record s { tx = some tx })
    × (s.state ≡ state_helo)
    × (tx.ofile ≡ false)
    × (tx.filter ≡ false)

pub refuse_tx-Good :
    (e : Env) (s : Session) (code : ℕ) (tx : SmtpTx)
    → Opened e s tx
    → Good e (refuse_tx code (record s { tx = some tx }))
unfolding refuse_tx smtp_reply smtp_tx_free drop_tx
refuse_tx-Good e s code tx (((w, p, h, f, m, a), r, q), st, o, fi) =
    replied-Done (w, p, h, f, m, tt) r refl (Shape-at state_helo _ st tt)

pub create_message-Good :
    (e : Env) (s : Session) (tx : SmtpTx)
    → Opened e s tx
    → tx.rcpts ≡ []
    → Good e (smtp_tx_create_message (record s { tx = some tx }))
unfolding smtp_tx_create_message send
create_message-Good e s tx (t, st, o, fi) rc =
    xset-Good e wait_queue_msg (record s { tx = some tx; sent = message_create ∷ s.sent }) t
      (st, (o, fi, rc))

begin_message-Good :
    (e : Env) (s : Session) (tx : SmtpTx) (evp : Envelope)
    → Opened e s tx
    → tx.rcpts ≡ []
    → Good e (begin_message e (record s { tx = some tx }) evp)
unfolding begin_message send
begin_message-Good e s tx evp (t, st, o, fi) rc =
    elim (Bool-cases (s.authenticated && has_text e.sendertable)) [
      | inl c ↦ rw c (
          xset-Good e wait_lka_mail
            (record s { tx = some tx; sent = check_sender s.username evp.sender ∷ s.sent }) t
            (st, (o, fi, rc)))
      | inr c ↦ rw c (create_message-Good e s tx (t, st, o, fi) rc)
    ]

mail_from_options-Good :
    (e : Env) (s : Session) (tx : SmtpTx) (o : MailOptions)
    → Opened e s tx
    → tx.rcpts ≡ []
    → Good e (mail_from_options e s tx o)
unfolding mail_from_options set_tx
mail_from_options-Good e s tx o h rc =
    let s' : Session = record s { eight_bit_mime = o.eight_bit_mime } in
    let tx' : SmtpTx = record tx { evp = o.evp } in
    elim (Bool-cases (o.refused)) [
      | inl c ↦ rw c (refuse_tx-Good e s' 503 tx' h)
      | inr c ↦ rw c (begin_message-Good e s' tx' o.evp h rc)
    ]

mail_from_parsed-Good :
    (e : Env) (s : Session) (tx : SmtpTx) (m : Option (Mailaddr × Text))
    → Opened e s tx
    → tx.rcpts ≡ []
    → Good e (mail_from_parsed e (record s { tx = some tx }) tx m)
unfolding mail_from_parsed
mail_from_parsed-Good e s tx none h rc = refuse_tx-Good e s 553 tx h
mail_from_parsed-Good e s tx (some (sender, opts)) h rc =
    mail_from_options-Good e (record s { tx = some tx }) tx _ h rc

pub smtp_tx_mail_from-Good :
    (e : Env) (s : Session) (tx : SmtpTx) (line : Text)
    → Opened e s tx
    → tx.rcpts ≡ []
    → Good e (smtp_tx_mail_from e (record s { tx = some tx }) tx line)
unfolding smtp_tx_mail_from
smtp_tx_mail_from-Good e s tx line h rc =
    mail_from_parsed-Good e s tx
      (smtp_mailaddr e.resolver (strlcpy smtp_line_max line) true s.smtpname) h rc

-- A reply that leaves the transaction open to commands.
pub replied-Good :
    (e : Env) (s : Session) (tx : SmtpTx) (r : Reply)
    → Opened e s tx
    → Good e (some (smtp_reply r (record s { tx = some tx })))
unfolding smtp_reply
replied-Good e s tx r ((rest, re, q), st, o, fi) =
    replied-Done rest re refl (Shape-at state_helo _ st (o, fi))

rcpt_to_options-Good :
    (e : Env) (s : Session) (tx : SmtpTx) (o : RcptOptions)
    → Opened e s tx
    → tx.rcptcount < e.sc_session_max_rcpt
    → Good e (rcpt_to_options s tx o)
unfolding rcpt_to_options set_tx send
rcpt_to_options-Good e s tx o (t, st, of, fi) lt = go o.refusal
  where
    tx' : SmtpTx
    tx' = record tx { evp = o.evp }

    go :
        (r : Option ℕ)
        → Good e (elim r [
          | some code ↦ some (smtp_reply (status code) (set_tx tx' s))
          | none ↦ tree_xset wait_lka_rcpt (send (expand_rcpt o.evp) (set_tx tx' s))
        ])
    go none =
        xset-Good e wait_lka_rcpt (record s { tx = some tx'; sent = expand_rcpt o.evp ∷ s.sent }) t
          (st, (of, fi, lt))
    go (some code) = replied-Good e s tx' (status code) (t, st, of, fi)

rcpt_to_parsed-Good :
    (e : Env) (s : Session) (tx : SmtpTx) (m : Option (Mailaddr × Text))
    → Opened e s tx
    → tx.rcptcount < e.sc_session_max_rcpt
    → Good e (rcpt_to_parsed e (record s { tx = some tx }) tx m)
unfolding rcpt_to_parsed
rcpt_to_parsed-Good e s tx none h lt = replied-Good e s tx (status 501) h
rcpt_to_parsed-Good e s tx (some (rcpt, opts)) h lt =
    rcpt_to_options-Good e (record s { tx = some tx }) tx _ h lt

pub smtp_tx_rcpt_to-Good :
    (e : Env) (s : Session) (tx : SmtpTx) (line : Text)
    → Opened e s tx
    → Good e (smtp_tx_rcpt_to e (record s { tx = some tx }) tx line)
unfolding smtp_tx_rcpt_to
smtp_tx_rcpt_to-Good e s tx line h = elim (Bool-cases (leb e.sc_session_max_rcpt tx.rcptcount)) [
  | inl c ↦ rw c (replied-Good e s tx (status 451) h)
  | inr c ↦ rw c (
      rcpt_to_parsed-Good e s tx
        (smtp_mailaddr e.resolver (strlcpy smtp_line_max line) false s.smtpname) h (ground arith))
]

pub open_message-Good :
    (e : Env) (s : Session) (tx : SmtpTx)
    → Opened e s tx
    → Good e (smtp_tx_open_message (record s { tx = some tx }) tx)
unfolding smtp_tx_open_message send
open_message-Good e s tx (t, st, o, fi) =
    xset-Good e wait_queue_fd (record s { tx = some tx; sent = message_open tx.msgid ∷ s.sent }) t
      (st, (o, fi))

-- In the session's turn, with a message that is open.
abbrev pub Writing : Env → Session → SmtpTx → Type 0
Writing e s tx = Turn e (record s { tx = some tx })

-- A transaction is given up: the reply is there already.
pub failed-Good :
    (e : Env) (s : Session) (tx tx' : SmtpTx)
    → Rest e (record s { tx = some tx })
    → s.reading ≡ false
    → s.queued ≡ true
    → Good e (rollback_state e tx' (record s { tx = some tx }))
failed-Good e s tx tx' (w, p, h, f, m, a) r q =
    let (sent, ok) = rollback_state_lem e (record s { tx = some tx }) tx tx' refl in
    rw ok (replied-Done (w, p, h, f, m, tt) r q tt)

smtp_tx_commit-Good :
    (e : Env) (s : Session) (tx tx' : SmtpTx)
    → Writing e s tx
    → Good e (smtp_tx_commit e (record s { tx = some tx }) tx')
unfolding smtp_tx_commit send
smtp_tx_commit-Good e s tx tx' ((w, p, h, f, m, a), r, q) =
    let s' : Session = record s { tx = some tx; sent = message_commit tx'.msgid ∷ s.sent } in
    let (sent, pipe, d) =
      data_end-DataEnds e (record s' { waits = wait_queue_commit ∷ [] }) tx refl in
    rw (xset-eq wait_queue_commit s' w) (
      rw d (record {
        bound = m;
        allowed = a;
        handled = has_asked wait_queue_commit (refl, p, h, f) (r, q) tt;
      }))

pub smtp_message_end-Good :
    (e : Env) (s : Session) (tx : SmtpTx)
    → Writing e s tx
    → tx.ofile ≡ true
    → Good e (smtp_message_end e (record s { tx = some tx }) tx)
unfolding smtp_message_end set_tx fail_message smtp_reply
smtp_message_end-Good e s tx ((w, p, h, f, m, a), r, q) o =
    let tx' : SmtpTx = record tx { ofile = false } in
    rw o (elim (Bool-cases (is_ok tx.content.error)) [
      | inl c ↦ rw c (smtp_tx_commit-Good e s tx' tx' ((w, p, h, f, m, a), r, q))
      | inr c ↦ rw c (
          failed-Good e
            (record s {
              queued = true;
              replies = status (error_reply tx.content.error) ∷ s.replies;
            })
            tx' tx' (w, p, h, f, m, a) r refl)
    ])

-- The message is to be committed: the queue is asked, and the session waits for its answer.
abbrev pub Commits : Session → SmtpTx → Session → Type 0
Commits s tx t =
    (t.waits ≡ wait_queue_commit ∷ [])
    × (t.queued ≡ false)
    × HasTx (λ x. x.ofile ≡ false) t.tx
    × ((t.sent ≡ message_commit tx.msgid ∷ s.sent)
        ⊎ (t.sent ≡ filter_data_end ∷ message_commit tx.msgid ∷ s.sent))

-- The message is given up: there is a reply, and no transaction.
abbrev pub GivesUp : Session → SmtpTx → Session → Type 0
GivesUp s tx t =
    (t.waits ≡ [])
    × (t.queued ≡ true)
    × (t.replies ≡ status (error_reply tx.content.error) ∷ s.replies)
    × (t.tx ≡ none)
    × (t.state ≡ state_helo)

abbrev pub Concludes : Env → Session → SmtpTx → Option Session → Type 0
Concludes e s tx none = ⊥
Concludes e s tx (some t) =
    Done e t
    × (is_ok tx.content.error ≡ true → Commits s tx t)
    × (is_ok tx.content.error ≡ false → GivesUp s tx t)

data_end_requests :
    (e : Env) (s : Session) (tx : SmtpTx)
    → s.tx ≡ some tx
    → (m : List Request) × (p : Bool) × (smtp_filter_data_end e s
        ≡ some (record s { tx = some (record tx { filter = p }); sent = m }))
      × ((m ≡ s.sent) ⊎ (m ≡ filter_data_end ∷ s.sent))
unfolding smtp_filter_data_end end_filter send set_tx
data_end_requests e s tx h = elim (Bool-cases (e.f_filtered)) [
  | inr off ↦ (s.sent, tx.filter, ground arith, inl refl)
  | inl on ↦ elim (Bool-cases (tx.filter)) [
    | inl f ↦ (filter_data_end ∷ s.sent, false, ground arith, inr refl)
    | inr f ↦ (s.sent, tx.filter, ground arith, inl refl)
  ]
]

commit-Concludes :
    (e : Env) (s : Session) (tx tx' : SmtpTx)
    → Writing e s tx'
    → tx'.ofile ≡ false
    → tx'.msgid ≡ tx.msgid
    → is_ok tx.content.error ≡ true
    → Concludes e s tx (smtp_tx_commit e (record s { tx = some tx' }) tx')
unfolding smtp_tx_commit send
commit-Concludes e s tx tx' ((w, p, h, f, m, a), r, q) o id ok =
    let s' : Session = record s { tx = some tx'; sent = message_commit tx'.msgid ∷ s.sent } in
    let (sent, pipe, d, k) =
      data_end_requests e (record s' { waits = wait_queue_commit ∷ [] }) tx' refl in
    rw (xset-eq wait_queue_commit s' w) (
      rw d (
        record {
          bound = m;
          allowed = a;
          handled = has_asked wait_queue_commit (refl, p, h, f) (r, q) tt;
        },
        (λ c. (refl, q, o, requests sent k)),
        (λ c. cc (c, ok)),
      ))
  where
    requests :
        (sent : List Request)
        → (sent ≡ message_commit tx'.msgid ∷ s.sent)
          ⊎ (sent ≡ filter_data_end ∷ message_commit tx'.msgid ∷ s.sent)
        → (sent ≡ message_commit tx.msgid ∷ s.sent)
          ⊎ (sent ≡ filter_data_end ∷ message_commit tx.msgid ∷ s.sent)
    requests sent (inl k) = inl cc
    requests sent (inr k) = inr cc

fail-Concludes :
    (e : Env) (s : Session) (tx tx' : SmtpTx)
    → Writing e s tx'
    → tx'.content ≡ tx.content
    → is_ok tx.content.error ≡ false
    → Concludes e s tx (fail_message e (record s { tx = some tx' }) tx')
unfolding fail_message smtp_reply
fail-Concludes e s tx tx' ((w, p, h, f, m, a), r, q) same bad =
    let reply = status (error_reply tx'.content.error) in
    let s' : Session = record s { queued = true; replies = reply ∷ s.replies } in
    let (sent, ok) = rollback_state_lem e (record s' { tx = some tx' }) tx' tx' refl in
    rw ok (
      replied-Done (w, p, h, f, m, tt) r refl tt,
      (λ c. cc (c, bad)),
      (λ c. (w, refl, ap (λ x. status (error_reply x.error) ∷ s.replies) same, refl, refl)),
    )

-- In the session's turn, the end of a message whose file is open closes the file. Unless the message has
-- an error, the queue is asked to commit it, and the session waits for the answer; if it has one, the
-- session replies what the error says, and has no transaction. In both cases what holds of a session
-- between two events holds.
pub smtp_message_end-Concludes :
    (e : Env) (s : Session) (tx : SmtpTx)
    → Writing e s tx
    → tx.ofile ≡ true
    → Concludes e s tx (smtp_message_end e (record s { tx = some tx }) tx)
unfolding smtp_message_end set_tx
smtp_message_end-Concludes e s tx t o =
    let tx' : SmtpTx = record tx { ofile = false } in
    rw o (elim (Bool-cases (is_ok tx.content.error)) [
      | inl c ↦ rw c (commit-Concludes e s tx tx' t refl refl c)
      | inr c ↦ rw c (fail-Concludes e s tx tx' t refl c)
    ])
