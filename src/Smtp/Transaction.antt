-- ===== src/Smtp/Transaction.antt =====
-- usr.sbin/smtpd/smtp_session.c: smtp_tx_*(), a transaction from MAIL FROM to its end.
use open_smtpd.Base.{
  ℕ, Bool, true, false, not, ◌&&◌, ◌||◌, Option, none, some, List, [], ◌∷◌, ◌++◌, leb, ◌==◌, ◌>>=◌,
  if◌then◌else◌,
}
use open_smtpd.Smtp.Text.{Text, codes, strlcpy, strsep}
use open_smtpd.Smtp.Address.{Mailaddr, smtp_mailaddr}
use open_smtpd.Smtp.Content.{is_ok, smtp_message_printf}
use open_smtpd.Smtp.Types.{
  state_helo, state_body, state_quit, TxError, error_size, error_io, error_loop, error_malformed,
  Envelope, SmtpRcpt, Content, SmtpTx, wait_lka_mail, wait_lka_rcpt, wait_queue_msg, wait_queue_fd,
  wait_queue_commit, status, check_sender, message_create, message_open, message_commit,
  expand_rcpt, Session, Alloc, alloc_done, no_transaction, no_parser, Env, no_envelope, no_content,
}
use open_smtpd.Smtp.Session.{
  has_text, smtp_enter_state, smtp_reply, send, tree_xset, set_tx, smtp_filter_data_end,
  smtp_tx_rollback, smtp_tx_free, writer_of,
}
use open_smtpd.Smtp.Check.{Checked, smtp_line_max}
use open_smtpd.Smtp.Options.{MailOptions, mail_options, RcptOptions, rcpt_options}

-- smtp_tx(): `false` is 0. Where the parser gets no memory the session keeps a pointer to the freed
-- transaction, which the reply that follows reads: `none`.
unfoldable pub new_tx : Session → SmtpTx
new_tx s = record {
  msgid = 0;
  evp = record no_envelope {
    bounce = s.bounce;
    authenticated = s.authenticated;
    smtpname = s.smtpname;
    helo = s.helo;
    username = s.username;
  };
  rcptcount = 0;
  destcount = 0;
  rcpts = [];
  content = no_content;
  ofile = false;
  filter = false;
  junk = false;
}

unfoldable pub allocate_tx : Alloc → Session → Option Checked
unfolding new_tx set_tx
allocate_tx alloc_done s = some (set_tx (new_tx s) s, true)
allocate_tx no_transaction s = some (s, false)
allocate_tx no_parser s = none

unfoldable pub smtp_tx : Env → Session → Option Checked
unfolding allocate_tx
smtp_tx e s = allocate_tx (e.alloc_tx s) s

unfoldable pub smtp_tx_create_message : Session → Option Session
unfolding send tree_xset
smtp_tx_create_message s = tree_xset wait_queue_msg (send message_create s)

-- smtp_tx_mail_from() behind the options: the sender is checked if there is a table of senders and the
-- client has authenticated.
unfoldable pub begin_message : Env → Session → Envelope → Option Session
unfolding send tree_xset smtp_tx_create_message
begin_message e s evp =
    if s.authenticated && has_text e.sendertable
    then tree_xset wait_lka_mail (send (check_sender s.username evp.sender) s)
    else smtp_tx_create_message s

unfoldable pub refuse_tx : ℕ → Session → Option Session
unfolding smtp_reply smtp_tx_free
refuse_tx code s = smtp_tx_free (smtp_reply (status code) s)

unfoldable pub mail_from_options : Env → Session → SmtpTx → MailOptions → Option Session
unfolding set_tx refuse_tx begin_message
mail_from_options e s tx o =
    let s' = set_tx (record tx { evp = o.evp }) (record s { eight_bit_mime = o.eight_bit_mime }) in
    if o.refused then refuse_tx 503 s' else begin_message e s' o.evp

unfoldable pub mail_from_parsed : Env → Session → SmtpTx → Option (Mailaddr × Text) → Option Session
unfolding refuse_tx mail_from_options mail_options strsep
mail_from_parsed e s tx none = refuse_tx 553 s
mail_from_parsed e s tx (some (sender, opts)) = mail_from_options e s tx (
    mail_options e.f_ext_dsn
      (record {
        eight_bit_mime = s.eight_bit_mime;
        evp = record (tx.evp) { sender = sender };
        refused = false;
      })
      (strsep b' ' opts))

unfoldable pub smtp_tx_mail_from : Env → Session → SmtpTx → Text → Option Session
unfolding mail_from_parsed smtp_mailaddr strlcpy
smtp_tx_mail_from e s tx line =
    mail_from_parsed e s tx (smtp_mailaddr e.resolver (strlcpy smtp_line_max line) true s.smtpname)

-- smtp_tx_rcpt_to() behind the options.
unfoldable pub rcpt_to_options : Session → SmtpTx → RcptOptions → Option Session
unfolding set_tx smtp_reply send tree_xset
rcpt_to_options s tx o =
    let s' = set_tx (record tx { evp = o.evp }) s in
    elim o.refusal [
      | some code ↦ some (smtp_reply (status code) s')
      | none ↦ tree_xset wait_lka_rcpt (send (expand_rcpt o.evp) s')
    ]

unfoldable pub rcpt_to_parsed : Env → Session → SmtpTx → Option (Mailaddr × Text) → Option Session
unfolding smtp_reply rcpt_to_options rcpt_options strsep
rcpt_to_parsed e s tx none = some (smtp_reply (status 501) s)
rcpt_to_parsed e s tx (some (rcpt, opts)) =
    rcpt_to_options s tx
      (rcpt_options e.f_ext_dsn (record (tx.evp) { rcpt = rcpt }) (strsep b' ' opts))

unfoldable pub smtp_tx_rcpt_to : Env → Session → SmtpTx → Text → Option Session
unfolding smtp_reply rcpt_to_parsed smtp_mailaddr strlcpy
smtp_tx_rcpt_to e s tx line =
    if leb e.sc_session_max_rcpt tx.rcptcount
    then some (smtp_reply (status 451) s)
    else rcpt_to_parsed e s tx
        (smtp_mailaddr e.resolver (strlcpy smtp_line_max line) false s.smtpname)

unfoldable pub smtp_tx_open_message : Session → SmtpTx → Option Session
unfolding send tree_xset
smtp_tx_open_message s tx = tree_xset wait_queue_fd (send (message_open tx.msgid) s)

unfoldable pub smtp_tx_commit : Env → Session → SmtpTx → Option Session
unfolding send tree_xset smtp_filter_data_end
smtp_tx_commit e s tx = do
  s' ← tree_xset wait_queue_commit (send (message_commit tx.msgid) s)
  smtp_filter_data_end e s'

-- smtp_message_fd(): the stream of the message; `false` is 0.
unfoldable pub smtp_message_fd : Env → Session → SmtpTx → Checked
unfolding set_tx smtp_reply smtp_enter_state
smtp_message_fd e s tx =
    if e.fdopen s
    then (set_tx (record tx { ofile = true }) s, true)
    else (smtp_enter_state state_quit (smtp_reply (status 421) s), false)

unfoldable pub smtp_filter_fd : Session → SmtpTx → SmtpTx
smtp_filter_fd s tx = record tx { filter = true }

-- smtp_filter_printf() and smtp_message_printf(): the `m_printf` of smtp_message_begin().
unfoldable pub smtp_filter_printf : Env → Content → Text → Content
smtp_filter_printf e c t =
    if is_ok c.error
    then (if e.io_vprintf c.to_filter t
        then record c { to_filter = t ∷ c.to_filter }
        else record c { error = error_io })
    else c

unfoldable pub m_printf : Env → Session → SmtpTx → Content → Text → Content
unfolding smtp_filter_printf smtp_message_printf writer_of
m_printf e s tx c t =
    if tx.filter then smtp_filter_printf e c t else smtp_message_printf (writer_of e s tx.evp) c t

unfoldable pub print_all : Env → Session → SmtpTx → Content → List Text → Content
unfolding m_printf
print_all e s tx c [] = c
print_all e s tx c (t ∷ ts) = print_all e s tx (m_printf e s tx c t) ts

-- A call of m_printf() under a condition.
abbrev pub when : Bool → Text → List Text → List Text
when b t ts = if b then t ∷ ts else ts

unfoldable pub for_clause : List SmtpRcpt → Text
for_clause [] = []
for_clause (rcpt ∷ rcpts) =
    codes "\n\tfor <" ++ (rcpt.maddr.user ++ (b'@' ∷ (rcpt.maddr.domain ++ codes ">")))

abbrev pub letter : Bool → Text → Text
letter b t = if b then t else []

-- The Received field, and X-Spam before it, as smtp_message_begin() prints them.
unfoldable pub trace_fields : Env → Session → SmtpTx → List Text
unfolding for_clause
trace_fields e s tx =
    let auth = if has_text s.username then codes "yes" else codes "no" in
    when (s.junk || tx.junk) (codes "X-Spam: Yes\n") (
      codes "Received: "
      ∷ when (not e.f_mask_source) (codes "from " ++ (s.helo ++ (b' ' ∷ e.peer))) (
          (codes "\n\tby "
            ++ (s.smtpname
                ++ (codes " (OpenSMTPD) with "
                    ++ (letter s.ehlo (codes "E")
                        ++ (codes "SMTP"
                            ++ (letter s.secure (codes "S")
                                ++ (letter s.authenticated (codes "A")
                                    ++ (codes " id " ++ e.hex8 tx.msgid))))))))
          ∷ when s.secure (codes " (" ++ (e.tls_parameters ++ codes ")")) (
              when (s.secure && e.f_receivedauth) (codes " auth=" ++ auth) (
                when (s.secure && e.f_receivedauth && has_text s.username)
                  (codes " user=" ++ s.username)
                  (when (tx.rcptcount == 1) (for_clause tx.rcpts)
                    ((codes ";\n\t" ++ (e.date ++ codes "\n")) ∷ []))))))

unfoldable pub smtp_message_begin : Env → Session → SmtpTx → Session
unfolding smtp_reply set_tx smtp_enter_state print_all trace_fields
smtp_message_begin e s tx =
    let s' = smtp_reply (status 354) s in
    smtp_enter_state state_body
      (set_tx (record tx { content = print_all e s' tx tx.content (trace_fields e s' tx) }) s')

-- smtp_message_end(): the reply to a message that has failed.
unfoldable pub error_reply : TxError → ℕ
error_reply error_size = 554
error_reply error_loop = 500
error_reply error_malformed = 550
error_reply _ = 421

-- The way back to the commands, without the transaction.
unfoldable pub rollback_state : Env → SmtpTx → Session → Option Session
unfolding smtp_tx_rollback smtp_tx_free smtp_enter_state
rollback_state e tx s = do
  s1 ← smtp_tx_rollback e tx s
  s2 ← smtp_tx_free s1
  some (smtp_enter_state state_helo s2)

unfoldable pub fail_message : Env → Session → SmtpTx → Option Session
unfolding smtp_reply error_reply rollback_state
fail_message e s tx = rollback_state e tx (smtp_reply (status (error_reply tx.content.error)) s)

-- The stream is closed first: without one the call fails.
unfoldable pub smtp_message_end : Env → Session → SmtpTx → Option Session
unfolding set_tx smtp_tx_commit fail_message
smtp_message_end e s tx =
    if not tx.ofile
    then none
    else (let tx' = record tx { ofile = false } in
        let s' = set_tx tx' s in
        if is_ok tx.content.error then smtp_tx_commit e s' tx' else fail_message e s' tx')
