-- ===== src/Smtp/Check.antt =====
-- usr.sbin/smtpd/smtp_session.c: smtp_check_*(), whether a command is allowed. The result is the session
-- with the refusal, if there is one, and whether the command may proceed.
use open_smtpd.Base.{
  ℕ, Bool, true, false, not, ◌&&◌, ◌||◌, Option, none, some, leb, ◌==◌, if◌then◌else◌,
}
use open_smtpd.Smtp.Text.{Text, is_empty, strlcpy}
use open_smtpd.Smtp.Address.{Mailaddr, smtp_mailaddr, valid_domainpart}
use open_smtpd.Smtp.Types.{SmtpTx, status, Session, Env}
use open_smtpd.Smtp.Session.{smtp_reply, advertise_auth, set_tx}

abbrev pub Checked : Type 0
Checked = Session × Bool

-- SMTP_LINE_MAX.
abbrev pub smtp_line_max : ℕ
smtp_line_max = 65535

unfoldable pub refuse : ℕ → Session → Checked
unfolding smtp_reply
refuse code s = (smtp_reply (status code) s, false)

abbrev pub is_some {ℓ} : {A : Type ℓ} → Option A → Bool
is_some none = false
is_some (some a) = true

unfoldable pub smtp_check_noparam : Session → Option Text → Checked
unfolding refuse
smtp_check_noparam s none = (s, true)
smtp_check_noparam s (some args) = refuse 500 s

unfoldable pub smtp_check_rset : Session → Option Text → Checked
unfolding smtp_check_noparam refuse
smtp_check_rset s (some args) = refuse 500 s
smtp_check_rset s none = if is_empty s.helo then refuse 503 s else (s, true)

unfoldable pub check_domain : Env → Session → Option Text → Checked
unfolding refuse
check_domain e s none = refuse 501 s
check_domain e s (some args) = if valid_domainpart e.resolver args then (s, true) else refuse 501 s

unfoldable pub smtp_check_helo : Env → Session → Option Text → Checked
unfolding refuse check_domain
smtp_check_helo e s args =
    if not s.banner_sent
    then refuse 503 s
    else if not (is_empty s.helo)
    then refuse 503 s
    else check_domain e s args

unfoldable pub smtp_check_ehlo : Env → Session → Option Text → Checked
unfolding refuse check_domain
smtp_check_ehlo e s args =
    if not s.banner_sent
    then refuse 503 s
    else if not (is_empty s.helo)
    then refuse 503 s
    else check_domain e s args

unfoldable pub smtp_check_auth : Env → Session → Option Text → Checked
unfolding refuse advertise_auth
smtp_check_auth e s args =
    if is_empty s.helo || is_some s.tx
    then refuse 503 s
    else if s.authenticated
    then refuse 503 s
    else if not (advertise_auth e s)
    then refuse 503 s
    else if not (is_some args)
    then refuse 501 s
    else (s, true)

unfoldable pub smtp_check_starttls : Env → Session → Option Text → Checked
unfolding refuse
smtp_check_starttls e s args =
    if is_empty s.helo || is_some s.tx
    then refuse 503 s
    else if not e.f_starttls
    then refuse 503 s
    else if s.secure
    then refuse 503 s
    else if is_some args
    then refuse 501 s
    else (s, true)

-- Without arguments the pointer is read: `none`.
unfoldable pub smtp_check_mail_from : Env → Session → Option Text → Option Checked
unfolding refuse
smtp_check_mail_from e s none = none
smtp_check_mail_from e s (some args) = some (
    if is_empty s.helo || is_some s.tx
    then refuse 503 s
    else if e.f_starttls_require && not s.secure
    then refuse 530 s
    else if e.f_auth_require && not s.authenticated
    then refuse 530 s
    else if leb e.sc_session_max_mails s.mailcount
    then refuse 452 s
    else if is_some (smtp_mailaddr e.resolver (strlcpy smtp_line_max args) true s.smtpname)
    then (s, true)
    else refuse 553 s)

-- The address goes into the envelope. What a refused one leaves there is not kept: the envelope is
-- not read before the next one is accepted.
unfoldable pub store_rcpt : Session → SmtpTx → Option (Mailaddr × Text) → Checked
unfolding refuse set_tx
store_rcpt s tx none = refuse 501 s
store_rcpt s tx (some (rcpt, opts)) =
    (set_tx (record tx { evp = record (tx.evp) { rcpt = rcpt } }) s, true)

unfoldable pub check_rcpt_tx : Env → Session → Text → Option SmtpTx → Checked
unfolding refuse store_rcpt
check_rcpt_tx e s args none = refuse 503 s
check_rcpt_tx e s args (some tx) =
    if leb e.sc_session_max_rcpt tx.rcptcount
    then refuse 451 s
    else store_rcpt s tx (smtp_mailaddr e.resolver (strlcpy smtp_line_max args) false s.smtpname)

unfoldable pub smtp_check_rcpt_to : Env → Session → Option Text → Option Checked
unfolding check_rcpt_tx
smtp_check_rcpt_to e s none = none
smtp_check_rcpt_to e s (some args) = some (check_rcpt_tx e s args s.tx)

unfoldable pub check_data_tx : Session → Option SmtpTx → Checked
unfolding refuse
check_data_tx s none = refuse 503 s
check_data_tx s (some tx) = if tx.rcptcount == 0 then refuse 503 s else (s, true)

unfoldable pub smtp_check_data : Session → Option Text → Checked
unfolding refuse check_data_tx
smtp_check_data s (some args) = refuse 500 s
smtp_check_data s none = check_data_tx s s.tx

unfoldable pub smtp_check_noop : Session → Option Text → Checked
smtp_check_noop s args = (s, true)
