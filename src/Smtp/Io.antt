-- ===== src/Smtp/Io.antt =====
-- usr.sbin/smtpd/smtp_session.c: smtp_io(), what happens on the connection, and filter_session_io(), what
-- the filter of a message sends back.
use open_smtpd.Base.{
  ℕ, ◌+◌, Bool, true, false, not, ◌&&◌, ◌||◌, Option, none, some, List, [], ◌∷◌, ltb, leb, ◌==◌,
  ◌>>=◌, length, if◌then◌else◌,
}
use open_smtpd.Smtp.Text.{Text, codes, text_eq, strlcpy, c_string}
use open_smtpd.Smtp.Address.{line_max}
use open_smtpd.Smtp.Content.{smtp_tx_dataline, smtp_tx_filtered_dataline}
use open_smtpd.Smtp.Types.{
  State, state_tls, state_helo, state_body, state_quit, error_size, filter_commit, FilterStatus,
  LkaStatus, Content, SmtpTx, status, Session, Env,
}
use open_smtpd.Smtp.Session.{
  smtp_enter_state, smtp_reply, io_set_read, io_set_write, set_tx, smtp_free, writer_of,
}
use open_smtpd.Smtp.Check.{smtp_line_max}
use open_smtpd.Smtp.Auth.{smtp_auth_failure_resume}
use open_smtpd.Smtp.Proceed.{smtp_send_banner, smtp_tls_init, smtp_filter_phase}
use open_smtpd.Smtp.Command.{smtp_command}
use open_smtpd.Smtp.Imsg.{
  imsg_check_sender, imsg_expand_rcpt, imsg_lookup_helo, imsg_message_create, imsg_message_open,
  imsg_filter_data_begin, imsg_envelope_submit, imsg_envelope_commit, imsg_message_commit,
  imsg_authenticate, imsg_filter,
}

-- smtp_tls_started().
unfoldable pub smtp_tls_started : Env → Session → Session
unfolding io_set_write smtp_send_banner smtp_enter_state
smtp_tls_started e s =
    if e.f_smtps then smtp_send_banner (io_set_write s) else smtp_enter_state state_helo s

-- IO_TLSREADY ends the handshake.
unfoldable pub io_tlsready : Env → Session → Session
unfolding smtp_tls_started
io_tlsready e s = smtp_tls_started e (record s {
  handshake = false;
  secure = true;
  verified = s.verified || e.f_tls_verify;
  helo = [];
})

-- IO_LOWAT: all output is gone.
unfoldable pub lowat_in : State → Env → Session → Option Session
unfolding smtp_free smtp_tls_init io_set_read
lowat_in state_quit e s = smtp_free e s
lowat_in state_tls e s = smtp_tls_init e s
lowat_in _ e s = some (io_set_read s)

unfoldable pub io_lowat : Env → Session → Option Session
unfolding lowat_in
io_lowat e s = lowat_in s.state e (record s { queued = false })

-- Bad input: the reply, and the end.
unfoldable pub bad_line : Session → Session
unfolding smtp_reply smtp_enter_state io_set_write
bad_line s =
    io_set_write
      (smtp_enter_state state_quit (smtp_reply (status 500) (record s { bad_input = true })))

-- The size of a message counts each line with its newline.
unfoldable pub count_line : Env → Text → Content → Content
unfolding text_eq
count_line e line c =
    if text_eq line (codes ".")
    then c
    else (let datain = c.datain + length line + 1 in
        record c {
          datain = datain;
          error = if ltb e.sc_maxsize datain then error_size else c.error;
        })

-- A line of the message; the Boolean is `eom`.
unfoldable pub body_content : Env → Session → SmtpTx → Text → Option (Content × Bool)
unfolding count_line smtp_tx_dataline smtp_tx_filtered_dataline writer_of
body_content e s tx line =
    let c = count_line e line tx.content in
    if tx.filter
    then some (smtp_tx_filtered_dataline c line)
    else smtp_tx_dataline (writer_of e s tx.evp) c line

unfoldable pub body_line : Env → Session → Option SmtpTx → Text → Option (Session × Bool)
unfolding body_content set_tx
body_line e s none line = none
body_line e s (some tx) line = do
  r ← body_content e s tx line
  some (set_tx (record tx { content = r.0 }) s, r.1)

-- The end of the message: with a filter, the message ends when the filter says so.
unfoldable pub smtp_tx_eom : Env → Session → Option Session
unfolding smtp_filter_phase
smtp_tx_eom e s = smtp_filter_phase filter_commit e s none

unfoldable pub body_end : Env → Session → Option SmtpTx → Option Session
unfolding io_set_write smtp_tx_eom
body_end e s none = none
body_end e s (some tx) = let s' = io_set_write s in if tx.filter then some s' else smtp_tx_eom e s'

abbrev pub is_body : State → Bool
is_body state_body = true
is_body _ = false

-- A command line that fits into `cmd`.
unfoldable pub command_line : Env → Session → Text → Option Session
unfolding bad_line io_set_write smtp_command strlcpy
command_line e s line =
    let s' = record s { cmd = strlcpy line_max line } in
    if leb line_max (length line) then some (bad_line s') else smtp_command e (io_set_write s') line

-- Without its carriage return, and up to its first NUL.
unfoldable pub strip_cr : Text → Text
strip_cr [] = []
strip_cr (c ∷ []) = if c == 13 then [] else c ∷ []
strip_cr (c ∷ d ∷ line) = c ∷ strip_cr (d ∷ line)

unfoldable pub nothing_behind : List Text → ℕ → Bool
nothing_behind [] rest = rest == 0
nothing_behind (line ∷ lines) rest = false

-- IO_DATAIN: the complete lines of the input, and the length of what stands behind them. The lines of a
-- message are taken one after the other; behind anything else no input may stand.
unfoldable pub after_line : Env → Bool → Session × Bool → Text → Option Session
unfolding body_end bad_line command_line
after_line e clear (s, eom) line =
    if not clear
    then some (bad_line s)
    else if eom
    then body_end e s s.tx
    else command_line e s line

unfoldable pub take_line : Env → Session → Text → Option (Session × Bool)
unfolding body_line
take_line e s line = if is_body s.state then body_line e s s.tx line else some (s, false)

unfoldable pub io_datain : Env → List Text → ℕ → Session → Option Session
unfolding bad_line take_line after_line nothing_behind strip_cr c_string
io_datain e [] rest s = some (if leb smtp_line_max rest then bad_line s else s)
io_datain e (raw ∷ lines) rest s =
    let line = c_string (strip_cr raw) in
    let continue = λ (s' : Session). io_datain e lines rest s' in
    if leb smtp_line_max (length raw) then some (bad_line s) else (do
      r ← take_line e s line
      (if is_body s.state && not (r.1)
          then continue (r.0)
          else after_line e (nothing_behind lines rest) r line))

-- filter_session_io(): lines come back from the filter, and the last one ends the message.
unfoldable pub filtered_line : Env → Session → SmtpTx → Option (Content × Bool) → Option Session
unfolding set_tx smtp_tx_eom
filtered_line e s tx none = none
filtered_line e s tx (some (c, eom)) =
    let s' = set_tx (record tx { content = c }) s in if eom then smtp_tx_eom e s' else some s'

unfoldable pub filter_session_line : Env → Text → Session → Option SmtpTx → Option Session
unfolding filtered_line smtp_tx_dataline writer_of
filter_session_line e line s none = none
filter_session_line e line s (some tx) =
    filtered_line e s tx (smtp_tx_dataline (writer_of e s tx.evp) tx.content line)

-- What may happen to a session.
pub data Event : Type 0 where
  tlsready : Event
  datain : List Text → ℕ → Event
  lowat timeout disconnected io_error : Event
  check_sender_answer : LkaStatus → Event
  expand_rcpt_answer : LkaStatus → Text → Event
  lookup_helo_answer : Option Text → Event
  message_create_answer : Option ℕ → Event
  message_open_answer filter_data_answer : Bool → Event
  envelope_submit : Option ℕ → Event
  envelope_commit message_commit_answer : Bool → Event
  authenticate_answer : LkaStatus → Event
  filter_answer : FilterStatus → Event
  resume : Event
  filter_line : Text → Event

unfoldable pub smtp_io : Event → Env → Session → Option Session
unfolding io_tlsready io_datain io_lowat smtp_free imsg_check_sender imsg_expand_rcpt
    imsg_lookup_helo imsg_message_create imsg_message_open imsg_filter_data_begin
    imsg_envelope_submit imsg_envelope_commit imsg_message_commit imsg_authenticate imsg_filter
    smtp_auth_failure_resume filter_session_line
smtp_io tlsready e s = some (io_tlsready e s)
smtp_io (datain lines rest) e s = io_datain e lines rest s
smtp_io lowat e s = io_lowat e s
smtp_io timeout e s = smtp_free e s
smtp_io disconnected e s = smtp_free e s
smtp_io io_error e s = smtp_free e s
smtp_io (check_sender_answer result) e s = imsg_check_sender result s
smtp_io (expand_rcpt_answer result line) e s = imsg_expand_rcpt result line s
smtp_io (lookup_helo_answer helo) e s = imsg_lookup_helo e helo s
smtp_io (message_create_answer msgid) e s = imsg_message_create msgid s
smtp_io (message_open_answer success) e s = imsg_message_open e success s
smtp_io (filter_data_answer success) e s = imsg_filter_data_begin e success s
smtp_io (envelope_submit evpid) e s = imsg_envelope_submit evpid s
smtp_io (envelope_commit success) e s = imsg_envelope_commit success s
smtp_io (message_commit_answer success) e s = imsg_message_commit success s
smtp_io (authenticate_answer result) e s = imsg_authenticate result s
smtp_io (filter_answer answer) e s = imsg_filter answer e s
smtp_io resume e s = some (smtp_auth_failure_resume s)
smtp_io (filter_line line) e s = filter_session_line e line s s.tx
