-- ===== src/Smtp/Options.antt =====
-- usr.sbin/smtpd/smtp_session.c: the options behind the address of MAIL FROM and of RCPT TO.
use open_smtpd.Base.{
  ℕ, Bool, true, false, not, ◌&&◌, ◌||◌, Option, none, some, List, [], ◌∷◌, leb, length,
  if◌then◌else◌,
}
use open_smtpd.Smtp.Text.{Text, codes, strcasecmp, starts_with, drop, strlcpy, strchr, strsep}
use open_smtpd.Smtp.Address.{valid_xtext}
use open_smtpd.Smtp.Types.{Notify, ret_hdrs, ret_full, Envelope}

-- DSN_ENVID_LEN + 1 and DSN_ORCPT_LEN + 1.
abbrev pub envid_size : ℕ
envid_size = 101

abbrev pub orcpt_size : ℕ
orcpt_size = 501

-- What the loop of smtp_tx_mail_from() has set: SF_8BITMIME and the envelope; the option it stops at.
pub record MailOptions : Type 0 where
  pub eight_bit_mime : Bool
  pub evp : Envelope
  pub refused : Bool

unfoldable pub set_ret : Envelope → Text → Envelope
unfolding strcasecmp
set_ret evp opt =
    if strcasecmp opt (codes "HDRS")
    then record evp { dsn_ret = ret_hdrs }
    else if strcasecmp opt (codes "FULL")
    then record evp { dsn_ret = ret_full }
    else evp

unfoldable pub mail_option : Bool → MailOptions → Text → MailOptions
unfolding starts_with strcasecmp set_ret drop strlcpy
mail_option ext_dsn o opt =
    if starts_with (codes "AUTH=") opt || starts_with (codes "SIZE=") opt
    then o
    else if strcasecmp opt (codes "BODY=7BIT")
    then record o { eight_bit_mime = false }
    else if strcasecmp opt (codes "BODY=8BITMIME")
    then o
    else if ext_dsn && starts_with (codes "RET=") opt
    then record o { evp = set_ret o.evp (drop 4 opt) }
    else if ext_dsn && starts_with (codes "ENVID=") opt
    then record o {
      evp = record (o.evp) { dsn_envid = strlcpy envid_size (drop 6 opt) };
      refused = leb envid_size (length (drop 6 opt));
    }
    else record o { refused = true }

-- The loop: empty pieces are passed over, and a refused option ends it.
unfoldable pub mail_options : Bool → MailOptions → List Text → MailOptions
unfolding mail_option
mail_options ext_dsn o [] = o
mail_options ext_dsn o ([] ∷ opts) = mail_options ext_dsn o opts
mail_options ext_dsn o ((c ∷ opt) ∷ opts) =
    let o' = mail_option ext_dsn o (c ∷ opt) in
    let rest = mail_options ext_dsn o' opts in if o'.refused then o' else rest

-- What the loop of smtp_tx_rcpt_to() has set, and the code of its refusal.
pub record RcptOptions : Type 0 where
  pub evp : Envelope
  pub refusal : Option ℕ

unfoldable pub notify_option : Notify → Text → Notify
unfolding strcasecmp
notify_option n p =
    if strcasecmp p (codes "SUCCESS")
    then record n { success = true }
    else if strcasecmp p (codes "FAILURE")
    then record n { failure = true }
    else if strcasecmp p (codes "DELAY")
    then record n { delay = true }
    else if strcasecmp p (codes "NEVER")
    then record n { never = true }
    else n

unfoldable pub notify_options : Notify → List Text → Notify
unfolding notify_option
notify_options n [] = n
notify_options n (p ∷ ps) = notify_options (notify_option n p) ps

-- NEVER stands alone.
unfoldable pub notify_conflict : Notify → Bool
notify_conflict n = n.never && (n.success || n.failure || n.delay)

unfoldable pub set_notify : Envelope → Notify → RcptOptions
unfolding notify_conflict
set_notify evp n = record {
  evp = record evp { dsn_notify = n };
  refusal = if notify_conflict n then some 553 else none;
}

-- ORCPT=type;address. A text that is too long is stored cut, and refused.
unfoldable pub set_orcpt : Envelope → Text → Text × Option Text → RcptOptions
unfolding valid_xtext strlcpy
set_orcpt evp opt (kind, none) = record { evp = evp; refusal = some 553 }
set_orcpt evp opt (kind, some addr) =
    if not (valid_xtext addr) then record { evp = evp; refusal = some 553 } else record {
      evp = record evp { dsn_orcpt = strlcpy orcpt_size opt };
      refusal = if leb orcpt_size (length opt) then some 553 else none;
    }

unfoldable pub rcpt_option : Bool → Envelope → Text → RcptOptions
unfolding starts_with drop strsep notify_options set_notify set_orcpt strchr
rcpt_option ext_dsn evp opt =
    if ext_dsn && starts_with (codes "NOTIFY=") opt
    then set_notify evp (notify_options evp.dsn_notify (strsep b',' (drop 7 opt)))
    else if ext_dsn && starts_with (codes "ORCPT=") opt
    then set_orcpt evp (drop 6 opt) (strchr b';' (drop 6 opt))
    else record { evp = evp; refusal = some 503 }

unfoldable pub rcpt_options : Bool → Envelope → List Text → RcptOptions
unfolding rcpt_option
rcpt_options ext_dsn evp [] = record { evp = evp; refusal = none }
rcpt_options ext_dsn evp ([] ∷ opts) = rcpt_options ext_dsn evp opts
rcpt_options ext_dsn evp ((c ∷ opt) ∷ opts) =
    let o = rcpt_option ext_dsn evp (c ∷ opt) in
    let rest = rcpt_options ext_dsn o.evp opts in elim o.refusal [ none ↦ rest | some code ↦ o ]
