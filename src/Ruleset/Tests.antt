-- ===== src/Ruleset/Tests.antt =====
-- usr.sbin/smtpd/ruleset.c: a ruleset of two rules at which the theorems are applied.
use open_smtpd.Base.{◌≡◌, ◌⊎◌, none, some, [], ◌∷◌, true, false}
use open_smtpd.Ruleset.{
  miss, Flag, off, on, negated, Tables, Rule, Envelope, codes, ruleset_match, ruleset_match_from,
}
use open_smtpd.Ruleset.First.{Explains, ruleset_match-Explains}
use open_smtpd.Ruleset.Negation.{left_out, opposite, from-negated}

-- No table has any key.
abbrev nowhere : Tables
nowhere name service key = miss

-- `match from <f> for <g>`, where a flag that is off is `any`.
abbrev rule : Flag → Flag → Rule
rule from to = record {
  reject = false;
  flag_tag = off;
  flag_from = from;
  flag_for = to;
  flag_from_rdns = false;
  flag_from_socket = false;
  flag_tag_regex = false;
  flag_from_regex = false;
  flag_for_regex = false;
  flag_smtp_helo = off;
  flag_smtp_starttls = off;
  flag_smtp_auth = off;
  flag_smtp_mail_from = off;
  flag_smtp_rcpt_to = off;
  flag_smtp_helo_regex = false;
  flag_smtp_auth_regex = false;
  flag_smtp_mail_from_regex = false;
  flag_smtp_rcpt_to_regex = false;
  table_tag = none;
  table_from = some (codes "peers");
  table_for = some (codes "domains");
  table_smtp_helo = none;
  table_smtp_auth = none;
  table_smtp_mail_from = none;
  table_smtp_rcpt_to = none;
}

abbrev mail : Envelope
mail = record {
  ef_internal = false;
  ef_authenticated = false;
  tag = [];
  hostname = codes "mx.example.org";
  ss_text = codes "192.0.2.1";
  dest_domain = codes "example.com";
  helo = codes "mx.example.org";
  username = [];
  sender_text = none;
  dest_text = none;
}

ruleset_match-Explains_example :
    Explains nowhere mail
      (rule on off ∷ rule negated off ∷ [])
      (ruleset_match nowhere (rule on off ∷ rule negated off ∷ []) mail)
ruleset_match-Explains_example =
    ruleset_match-Explains nowhere mail (rule on off ∷ rule negated off ∷ [])

from-negated_example :
    ((left_out (rule off off) mail ≡ true)
      × (ruleset_match_from nowhere (rule on off) mail ≡ miss)
      × (ruleset_match_from nowhere (rule negated off) mail ≡ miss))
    ⊎ ((left_out (rule off off) mail ≡ false)
        × (ruleset_match_from nowhere (rule negated off) mail
            ≡ opposite (ruleset_match_from nowhere (rule on off) mail)))
from-negated_example = from-negated nowhere (rule off off) mail
