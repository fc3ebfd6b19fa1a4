-- ===== src/Smtp/Tests.antt =====
-- A session of a client that sends one message, without filters and with one.
use open_smtpd.Base.{
  ℕ, ◌≡◌, refl, Bool, true, false, Option, none, some, List, [], ◌∷◌, ◌++◌, arith,
}
use open_smtpd.Smtp.Text.{codes, text_eq, is_empty}
use open_smtpd.Smtp.Address.{no_mailaddr, is_atext}
use open_smtpd.Smtp.Types.{
  State, state_helo, state_quit, cmd_mail_from, filter_ehlo, filter_mail_from, SmtpTx, Session,
  alloc_done, no_parser, Env, no_envelope, no_content,
}
use open_smtpd.Smtp.Content.{Writer, smtp_tx_dataline}
use open_smtpd.Smtp.Transaction.{smtp_message_end}
use open_smtpd.Smtp.Command.{dispatch}
use open_smtpd.Smtp.Proceed.{proceed_any, smtp_lookup_servername, smtp_session}
use open_smtpd.Smtp.Io.{
  Event, datain, lowat, message_create_answer, message_open_answer, envelope_submit,
  envelope_commit, message_commit_answer,
}
use open_smtpd.Smtp.Steps.{run}
use open_smtpd.Smtp.Lines.{Outcome, dataline-Outcome}
use open_smtpd.Smtp.Invariant.Defs.{Turn, Good}
use open_smtpd.Smtp.Invariant.Transaction.{Concludes, smtp_message_end-Concludes}
use open_smtpd.Smtp.Invariant.Commands.{Allocates, proceed_phase-Good}
use open_smtpd.Smtp.Invariant.Lines.{Serves, dispatch-Good}

abbrev pub plain_env : Env
plain_env = record {
  f_starttls = true;
  f_smtps = false;
  f_auth = true;
  f_starttls_require = false;
  f_auth_require = false;
  f_tls_verify = false;
  f_ext_dsn = true;
  f_filtered = false;
  f_masquerade = false;
  hostname = codes "mx.example";
  sendertable = [];
  hostnametable = [];
  submission = true;
  date = codes "Date: now\n";
  message_id = codes "Message-ID: <1@mx>\n";
  f_mask_source = true;
  f_receivedauth = false;
  peer = codes "(c [::1])";
  tls_parameters = [];
  hex8 = λ n. codes "00000007";
  vfprintf = λ w t. true;
  io_vprintf = λ w t. true;
  host_name_max = 255;
  alloc_tx = λ s. alloc_done;
  fdopen = λ s. true;
  io_accept_tls = λ s. true;
  sc_maxsize = 1000;
  sc_session_max_mails = 10;
  sc_session_max_rcpt = 10;
  resolver = record { inet_pton6 = λ t. true; inet_pton = λ t. false; res_hnok = λ t. true };
  base64_decode = λ t n. some t;
}

abbrev pub line : List ℕ → Event
line t = datain ((t ++ 13 ∷ []) ∷ []) 0

abbrev one_message : List Event
one_message =
    lowat
    ∷ line (codes "EHLO c.example")
    ∷ lowat
    ∷ line (codes "MAIL FROM:<a@b.example> SIZE=100")
    ∷ message_create_answer (some 7)
    ∷ lowat
    ∷ line (codes "rcpt to: <d@e.example> NOTIFY=SUCCESS,FAILURE")
    ∷ envelope_submit (some 5)
    ∷ envelope_commit true
    ∷ lowat
    ∷ line (codes "DATA")
    ∷ message_open_answer true
    ∷ lowat
    ∷ datain (codes "Subject: hi" ∷ codes "To: joe" ∷ codes "" ∷ codes "..dot" ∷ codes "." ∷ []) 0
    ∷ message_commit_answer true
    ∷ lowat
    ∷ line (codes "QUIT")
    ∷ lowat
    ∷ []

show : Option Session → Option (State × Bool × ℕ)
show none = none
show (some s) = some (s.state, s.freed, s.mailcount)

one_message_accepted :
    show
      (run plain_env one_message (smtp_lookup_servername plain_env (smtp_session plain_env none)))
    ≡ some (state_quit, true, 1)
unfolding show run smtp_lookup_servername smtp_session is_atext
one_message_accepted = refl

-- A client that has said EHLO.
abbrev pub identified : Session
identified = record {
  smtpname = codes "mx.example";
  ehlo = true;
  eight_bit_mime = true;
  secure = false;
  authenticated = false;
  bounce = false;
  verified = false;
  bad_input = false;
  state = state_helo;
  banner_sent = true;
  helo = codes "c.example";
  cmd = [];
  username = [];
  mailcount = 0;
  tx = none;
  last_cmd = some cmd_mail_from;
  filter_phase = filter_ehlo;
  filter_param = none;
  junk = false;
  waits = [];
  paused = false;
  reading = false;
  queued = false;
  handshake = false;
  freed = false;
  sent = [];
  replies = [];
}

identified-Turn : Turn plain_env identified
identified-Turn = ((refl, refl, refl, refl, omega arith, tt), refl, refl)

identified-Serves : Serves plain_env identified
identified-Serves = (identified-Turn, refl, tt)

pub allocates : Allocates plain_env
allocates = λ s h. alloc-ne h
  where
    alloc-ne : alloc_done ≡ no_parser → ⊥
    alloc-ne h = cc

dispatch-Good_example :
    Good plain_env
      (dispatch (some cmd_mail_from) plain_env identified (some (codes "<a@b.example>")))
dispatch-Good_example =
    dispatch-Good (some cmd_mail_from) plain_env identified (some (codes "<a@b.example>")) allocates
      identified-Serves refl

proceed_phase-Good_example :
    Good plain_env
      (proceed_any filter_mail_from plain_env identified (some (codes "<a@b.example>")))
unfolding is_empty
proceed_phase-Good_example =
    proceed_phase-Good filter_mail_from plain_env identified (some (codes "<a@b.example>"))
      allocates identified-Turn (refl, refl, refl, refl, refl, refl, omega arith)

-- A message with one recipient whose file is open.
abbrev one_tx : SmtpTx
one_tx = record {
  msgid = 7;
  evp = no_envelope;
  rcptcount = 1;
  destcount = 0;
  rcpts = record { evpid = 5; maddr = no_mailaddr; destcount = 1 } ∷ [];
  content = no_content;
  ofile = true;
  filter = false;
  junk = false;
}

smtp_message_end-Concludes_example :
    Concludes plain_env identified one_tx
      (smtp_message_end plain_env (record identified { tx = some one_tx }) one_tx)
unfolding is_empty
smtp_message_end-Concludes_example =
    smtp_message_end-Concludes plain_env identified one_tx
      (
        (refl, refl, refl, refl, omega arith, (refl, refl, refl, omega arith, omega arith, refl)),
        refl,
        refl,
      )
      refl

abbrev pub plain_writer : Writer
plain_writer = record {
  hostname = codes "mx.example";
  masquerade = none;
  submission = false;
  date = [];
  message_id = [];
  vfprintf = λ w t. true;
}

dataline-Outcome_example :
    Outcome (text_eq (codes ".") (codes ".")) (smtp_tx_dataline plain_writer no_content (codes "."))
dataline-Outcome_example = dataline-Outcome plain_writer no_content (codes ".") (λ ok. (refl, refl))
