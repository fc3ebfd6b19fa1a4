-- ===== src/Smtp/Invariant/Tests.antt =====
-- A session that a client has led to its first transaction.
use open_smtpd.Base.{◌≡◌, refl, true, false, none, some, [], ◌∷◌}
use open_smtpd.Smtp.Text.{codes}
use open_smtpd.Smtp.Address.{is_atext}
use open_smtpd.Smtp.Types.{
  state_connected, cmd_helo, cmd_ehlo, cmd_mail_from, filter_connect, filter_mail_from, SmtpTx,
  wait_queue_msg, hello, eight_bit_mime, enhanced_status_codes, size, dsn, starttls, status,
  capability, message_create, Session, Env, no_envelope, no_content,
}
use open_smtpd.Smtp.Proceed.{smtp_lookup_servername, smtp_session}
use open_smtpd.Smtp.Io.{Event, lowat, smtp_io}
use open_smtpd.Smtp.Steps.{Reach, start, step, Timely}
use open_smtpd.Smtp.Invariant.Defs.{Allowed}
use open_smtpd.Smtp.Invariant.Reachable.{Awake, no_deadlock, Reach-Allowed}
use open_smtpd.Smtp.Tests.{plain_env, line, identified, allocates}

abbrev opened : Session
opened = record identified {
  ehlo = false;
  eight_bit_mime = false;
  state = state_connected;
  helo = [];
  last_cmd = some cmd_helo;
  filter_phase = filter_connect;
  filter_param = some (codes "(c [::1])");
  queued = true;
  replies = status 220 ∷ [];
}

abbrev met : Session
met = record identified {
  cmd = codes "EHLO c.example";
  last_cmd = some cmd_ehlo;
  filter_param = some (codes "c.example");
  queued = true;
  replies =
      status 250
      ∷ capability starttls
      ∷ capability dsn
      ∷ capability size
      ∷ capability enhanced_status_codes
      ∷ capability eight_bit_mime
      ∷ capability hello
      ∷ opened.replies;
}

-- The transaction of MAIL FROM.
abbrev first_tx : SmtpTx
first_tx = record {
  msgid = 0;
  evp = record no_envelope {
    smtpname = codes "mx.example";
    helo = codes "c.example";
    sender = record { user = codes "a"; domain = codes "b.example" };
  };
  rcptcount = 0;
  destcount = 0;
  rcpts = [];
  content = no_content;
  ofile = false;
  filter = false;
  junk = false;
}

abbrev mailing : Session
mailing = record met {
  cmd = codes "MAIL FROM:<a@b.example> SIZE=100";
  tx = some first_tx;
  last_cmd = some cmd_mail_from;
  filter_phase = filter_mail_from;
  filter_param = some (codes "<a@b.example> SIZE=100");
  waits = wait_queue_msg ∷ [];
  queued = false;
  sent = message_create ∷ [];
}

opened-Reach : Reach plain_env opened
unfolding smtp_lookup_servername smtp_session
opened-Reach = start none refl

met-Reach : Reach plain_env met
unfolding smtp_io
met-Reach =
    step {s = record opened { queued = false; reading = true }}
      (step {s = opened} opened-Reach lowat refl refl) (line (codes "EHLO c.example")) refl refl

abbrev listening : Session
listening = record met { queued = false; reading = true }

abbrev mail_line : Event
mail_line = line (codes "MAIL FROM:<a@b.example> SIZE=100")

listening-mailing : smtp_io mail_line plain_env listening ≡ some mailing
unfolding smtp_io is_atext
listening-mailing = refl

listening-Reach : Reach plain_env listening
unfolding smtp_io
listening-Reach = step {s = met} {t = listening} met-Reach lowat refl refl

mailing-Reach : Reach plain_env mailing
mailing-Reach = step {s = listening} {t = mailing} listening-Reach mail_line refl listening-mailing

mailing-Timely : Timely mailing-Reach
unfolding mailing-Reach listening-Reach met-Reach opened-Reach
mailing-Timely = (tt, (tt, (tt, (tt, tt))))

no_deadlock_example : Awake mailing
no_deadlock_example = no_deadlock plain_env mailing allocates mailing-Reach mailing-Timely refl

Reach-Allowed_example : Allowed plain_env mailing (some first_tx)
Reach-Allowed_example =
    Reach-Allowed plain_env mailing first_tx allocates mailing-Reach mailing-Timely refl

abbrev filtering_env : Env
filtering_env = record plain_env { f_filtered = true }
