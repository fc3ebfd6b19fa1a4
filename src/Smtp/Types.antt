-- ===== src/Smtp/Types.antt =====
-- usr.sbin/smtpd/smtp_session.c: the session, its transaction, and what it says to the client and to
-- the other processes.
use open_smtpd.Base.{ℕ, Bool, false, Option, List, []}
use open_smtpd.Smtp.Text.{Text}
use open_smtpd.Smtp.Address.{Resolver, Mailaddr, no_mailaddr}
use open_smtpd.Smtp.Parser.{Parser, parser_new}

-- enum smtp_state.
pub data State : Type 0 where
  state_new state_connected state_tls state_helo : State
  state_auth_init state_auth_username state_auth_password state_auth_finalize : State
  state_body state_quit : State

-- The anonymous enum of TX_*.
pub data TxError : Type 0 where
  tx_ok error_envelope error_size error_io error_loop error_malformed : TxError
  error_resources error_internal : TxError

-- enum smtp_command.
pub data Command : Type 0 where
  cmd_helo cmd_ehlo cmd_starttls cmd_auth cmd_mail_from cmd_rcpt_to cmd_data cmd_rset : Command
  cmd_quit cmd_help cmd_wiz cmd_noop cmd_commit : Command

-- enum filter_phase and enum filter_status of smtpd.h.
pub data FilterPhase : Type 0 where
  filter_connect filter_helo filter_ehlo filter_starttls filter_auth : FilterPhase
  filter_mail_from filter_rcpt_to filter_data filter_data_line filter_rset : FilterPhase
  filter_quit filter_noop filter_help filter_wiz filter_commit : FilterPhase

pub data FilterStatus : Type 0 where
  proceed junk : FilterStatus
  report rewrite reject disconnect : Text → FilterStatus

-- enum lka_resp_status of smtpd.h.
pub data LkaStatus : Type 0 where
  lka_ok lka_tempfail lka_permfail : LkaStatus

-- The bits DSN_SUCCESS, DSN_FAILURE, DSN_DELAY and DSN_NEVER; enum dsn_ret.
pub record Notify : Type 0 where
  pub success : Bool
  pub failure : Bool
  pub delay : Bool
  pub never : Bool

pub data DsnRet : Type 0 where
  ret_unset ret_hdrs ret_full : DsnRet

-- What a session sets in struct envelope; the flags EF_BOUNCE and EF_AUTHENTICATED.
pub record Envelope : Type 0 where
  pub id : ℕ
  pub bounce : Bool
  pub authenticated : Bool
  pub smtpname : Text
  pub helo : Text
  pub username : Text
  pub sender : Mailaddr
  pub rcpt : Mailaddr
  pub dsn_notify : Notify
  pub dsn_orcpt : Text
  pub dsn_ret : DsnRet
  pub dsn_envid : Text

-- struct smtp_rcpt.
pub record SmtpRcpt : Type 0 where
  pub evpid : ℕ
  pub maddr : Mailaddr
  pub destcount : ℕ

-- The members of struct smtp_tx about the contents of the message; `written` is what stands in the
-- file, or went to the filter.
pub record Content : Type 0 where
  pub error : TxError
  pub datain : ℕ
  pub parser : Parser
  pub rcvcount : ℕ
  pub has_date : Bool
  pub has_message_id : Bool
  pub written : List Text
  pub to_filter : List Text

-- struct smtp_tx; `ofile` and `filter` say whether the pointers are not NULL.
pub record SmtpTx : Type 0 where
  pub msgid : ℕ
  pub evp : Envelope
  pub rcptcount : ℕ
  pub destcount : ℕ
  pub rcpts : List SmtpRcpt
  pub content : Content
  pub ofile : Bool
  pub filter : Bool
  pub junk : Bool

-- The trees of the sessions that wait for an answer.
pub data Wait : Type 0 where
  wait_lka_helo wait_lka_mail wait_lka_rcpt wait_parent_auth wait_queue_msg : Wait
  wait_queue_fd wait_queue_commit wait_filters wait_filter_fd : Wait

-- A line to the client by its code, `more` with a dash behind it; the lines of the answer to EHLO by
-- their keywords; or a text that another process gave.
pub data Keyword : Type 0 where
  hello eight_bit_mime enhanced_status_codes size dsn starttls auth_plain_login : Keyword

pub data Reply : Type 0 where
  status : ℕ → Reply
  more : ℕ → Reply
  capability : Keyword → Reply
  text : Text → Reply

-- A message to the lookup process or the queue.
pub data Request : Type 0 where
  check_sender : Text → Mailaddr → Request
  message_create : Request
  message_open message_commit message_rollback : ℕ → Request
  expand_rcpt : Envelope → Request
  authenticate : Text → Text → Request
  lookup_helo : Request
  filter_protocol : FilterPhase → Text → Request
  filter_begin filter_end filter_data_begin filter_data_end : Request

-- struct smtp_session. The flags SF_* are fields. `waits` are the trees that hold the session, `paused`
-- says that the timer `pause` runs, `reading` which way the io goes, `queued` that it has output,
-- `handshake` that TLS starts on it, and `freed` that smtp_free() ended the session. `sent` and
-- `replies` are what the session has said, the last first.
pub record Session : Type 0 where
  pub smtpname : Text
  pub ehlo : Bool
  pub eight_bit_mime : Bool
  pub secure : Bool
  pub authenticated : Bool
  pub bounce : Bool
  pub verified : Bool
  pub bad_input : Bool
  pub state : State
  pub banner_sent : Bool
  pub helo : Text
  pub cmd : Text
  pub username : Text
  pub mailcount : ℕ
  pub tx : Option SmtpTx
  pub last_cmd : Option Command
  pub filter_phase : FilterPhase
  pub filter_param : Option Text
  pub junk : Bool
  pub waits : List Wait
  pub paused : Bool
  pub reading : Bool
  pub queued : Bool
  pub handshake : Bool
  pub freed : Bool
  pub sent : List Request
  pub replies : List Reply

-- The memory for a transaction: for struct smtp_tx, and for its parser.
pub data Alloc : Type 0 where
  alloc_done no_transaction no_parser : Alloc

-- What a session reads of struct listener and of the configuration (`submission`: the listener is local
-- or on port 587), the texts of addresses, times and ciphers, and what is not the program's own: the
-- resolver library, base64_decode(), which is given the size of its buffer, printf()'s "%08x", and
-- whether memory, a stream, a TLS context or room for output is to be had.
pub record Env : Type 0 where
  pub f_starttls : Bool
  pub f_smtps : Bool
  pub f_auth : Bool
  pub f_starttls_require : Bool
  pub f_auth_require : Bool
  pub f_tls_verify : Bool
  pub f_ext_dsn : Bool
  pub f_filtered : Bool
  pub f_masquerade : Bool
  pub hostname : Text
  pub sendertable : Text
  pub hostnametable : Text
  pub submission : Bool
  pub date : Text
  pub message_id : Text
  pub f_mask_source : Bool
  pub f_receivedauth : Bool
  pub peer : Text
  pub tls_parameters : Text
  pub hex8 : ℕ → Text
  pub vfprintf : List Text → Text → Bool
  pub io_vprintf : List Text → Text → Bool
  pub host_name_max : ℕ
  pub alloc_tx : Session → Alloc
  pub fdopen : Session → Bool
  pub io_accept_tls : Session → Bool
  pub sc_maxsize : ℕ
  pub sc_session_max_mails : ℕ
  pub sc_session_max_rcpt : ℕ
  pub resolver : Resolver
  pub base64_decode : Text → ℕ → Option Text

abbrev pub no_notify : Notify
no_notify = record { success = false; failure = false; delay = false; never = false }

-- A transaction as calloc() leaves it.
abbrev pub no_envelope : Envelope
no_envelope = record {
  id = 0;
  bounce = false;
  authenticated = false;
  smtpname = [];
  helo = [];
  username = [];
  sender = no_mailaddr;
  rcpt = no_mailaddr;
  dsn_notify = no_notify;
  dsn_orcpt = [];
  dsn_ret = ret_unset;
  dsn_envid = [];
}

abbrev pub no_content : Content
no_content = record {
  error = tx_ok;
  datain = 0;
  parser = parser_new;
  rcvcount = 0;
  has_date = false;
  has_message_id = false;
  written = [];
  to_filter = [];
}
