-- ===== src/Ruleset.antt =====
-- usr.sbin/smtpd/ruleset.c: which rule of smtpd.conf an envelope matches. A text is the list of its
-- bytes. What a table answers is a parameter (`Tables`): its backends read files, databases and
-- other processes.
pub mod First
pub mod Negation
mod Tests
use open_smtpd.Base.{
  ℕ, Bool, true, false, Option, none, some, List, [], ◌∷◌, ◌==◌, ◌&&◌, ◌||◌, if◌then◌else◌, not,
}
use Prim.Native.Char.{code}
use Prim.Native.String.{String}

abbrev pub codes : String → List ℕ
codes String.[] = []
codes (String.◌∷◌ c s) = code c ∷ codes s

-- -1, 0 and any other value.
pub data Answer : Type 0 where
  tempfail miss hit : Answer

-- An int8_t flag of a rule: 0, positive, negative.
pub data Flag : Type 0 where
  off on negated : Flag

-- enum table_service, the services that rules use.
pub data Service : Type 0 where
  k_string k_regex k_netaddr k_domain k_mailaddr : Service

-- table_match(table_find(env, name), service, key). The name is a `char *` of the rule.
abbrev pub Tables : Type 0
Tables = Option (List ℕ) → Service → List ℕ → Answer

-- struct rule, without the list links, and without dispatcher and flag_smtp_starttls_regex, which no test
-- reads. NULL is `none`.
pub record Rule : Type 0 where
  pub reject : Bool
  pub flag_tag : Flag
  pub flag_from : Flag
  pub flag_for : Flag
  pub flag_from_rdns : Bool
  pub flag_from_socket : Bool
  pub flag_tag_regex : Bool
  pub flag_from_regex : Bool
  pub flag_for_regex : Bool
  pub flag_smtp_helo : Flag
  pub flag_smtp_starttls : Flag
  pub flag_smtp_auth : Flag
  pub flag_smtp_mail_from : Flag
  pub flag_smtp_rcpt_to : Flag
  pub flag_smtp_helo_regex : Bool
  pub flag_smtp_auth_regex : Bool
  pub flag_smtp_mail_from_regex : Bool
  pub flag_smtp_rcpt_to_regex : Bool
  pub table_tag : Option (List ℕ)
  pub table_from : Option (List ℕ)
  pub table_for : Option (List ℕ)
  pub table_smtp_helo : Option (List ℕ)
  pub table_smtp_auth : Option (List ℕ)
  pub table_smtp_mail_from : Option (List ℕ)
  pub table_smtp_rcpt_to : Option (List ℕ)

-- The members of struct envelope that rules look at. `ss_text` is the text that ss_to_text() gives
-- of the peer's address; `sender_text` and `dest_text` are those that mailaddr_to_text() gives.
pub record Envelope : Type 0 where
  pub ef_internal : Bool
  pub ef_authenticated : Bool
  pub tag : List ℕ
  pub hostname : List ℕ
  pub ss_text : List ℕ
  pub dest_domain : List ℕ
  pub helo : List ℕ
  pub username : List ℕ
  pub sender_text : Option (List ℕ)
  pub dest_text : Option (List ℕ)

-- MATCH_RESULT.
unfoldable pub match_result : Answer → Flag → Answer
match_result tempfail neg = tempfail
match_result miss negated = hit
match_result hit negated = miss
match_result miss off = miss
match_result hit off = hit
match_result miss on = miss
match_result hit on = hit

abbrev pub is_off : Flag → Bool
is_off off = true
is_off on = false
is_off negated = false

-- strcmp() == 0.
unfoldable pub same_text : List ℕ → List ℕ → Bool
same_text [] [] = true
same_text [] (b ∷ bs) = false
same_text (c ∷ cs) [] = false
same_text (c ∷ cs) (b ∷ bs) = c == b && same_text cs bs

-- strchr(…, '@').
unfoldable pub has_at : List ℕ → Bool
has_at [] = false
has_at (c ∷ cs) = c == b'@' || has_at cs

-- `if (regex) service = K_REGEX;`.
unfoldable pub service_or_regex : Bool → Service → Service
service_or_regex regex service = if regex then k_regex else service

module _ (table_match : Tables) where
  unfoldable pub ruleset_match_tag : Rule → Envelope → Answer
  unfolding match_result service_or_regex
  ruleset_match_tag r evp =
      if is_off r.flag_tag
      then hit
      else match_result
          (table_match r.table_tag (service_or_regex r.flag_tag_regex k_string) evp.tag) r.flag_tag

  -- The lookup at the end of ruleset_match_from().
  unfoldable pub from_key : Rule → List ℕ → Answer
  unfolding match_result service_or_regex
  from_key r key =
      match_result (table_match r.table_from (service_or_regex r.flag_from_regex k_netaddr) key)
        r.flag_from

  -- The branch for `from rdns`: a peer with no name matches no table.
  unfoldable pub from_rdns : Rule → Envelope → Answer
  unfolding match_result same_text from_key
  from_rdns r evp =
      let has_rdns = not (same_text evp.hostname (codes "<unknown>")) in
      elim r.table_from [
        | none ↦ match_result (if has_rdns then hit else miss) r.flag_from
        | some table ↦ if has_rdns then from_key r evp.hostname else miss
      ]

  -- The branch for addresses and sockets. The source has `r->flag_from < 0 ? 1 : 0` where the peer
  -- is no socket.
  unfoldable pub from_address : Rule → Envelope → Answer
  unfolding match_result same_text from_key
  from_address r evp =
      if r.flag_from_socket
      then if same_text evp.ss_text (codes "local")
        then match_result hit r.flag_from
        else match_result miss r.flag_from
      else from_key r evp.ss_text

  unfoldable pub ruleset_match_from : Rule → Envelope → Answer
  unfolding from_key from_rdns from_address
  ruleset_match_from r evp =
      let internal : Answer = elim r.table_from [
        | none ↦ miss
        | some t ↦ from_key r (codes "local")
      ] in
      if is_off r.flag_from
      then hit
      else if evp.ef_internal
      then internal
      else if r.flag_from_rdns
      then from_rdns r evp
      else from_address r evp

  unfoldable pub ruleset_match_to : Rule → Envelope → Answer
  unfolding match_result service_or_regex
  ruleset_match_to r evp =
      if is_off r.flag_for
      then hit
      else match_result
          (table_match r.table_for (service_or_regex r.flag_for_regex k_domain) evp.dest_domain)
          r.flag_for

  unfoldable pub ruleset_match_smtp_helo : Rule → Envelope → Answer
  unfolding match_result service_or_regex
  ruleset_match_smtp_helo r evp =
      if is_off r.flag_smtp_helo
      then hit
      else match_result
          (table_match r.table_smtp_helo (service_or_regex r.flag_smtp_helo_regex k_domain)
            evp.helo)
          r.flag_smtp_helo

  unfoldable pub ruleset_match_smtp_starttls : Rule → Envelope → Answer
  ruleset_match_smtp_starttls r evp = if is_off r.flag_smtp_starttls then hit else tempfail

  unfoldable pub ruleset_match_smtp_auth : Rule → Envelope → Answer
  unfolding match_result service_or_regex has_at
  ruleset_match_smtp_auth r evp =
      let service =
        service_or_regex r.flag_smtp_auth_regex
          (if has_at evp.username then k_mailaddr else k_string) in
      let known : Answer = elim r.table_smtp_auth [
        | none ↦ hit
        | some table ↦ table_match r.table_smtp_auth service evp.username
      ] in
      if is_off r.flag_smtp_auth
      then hit
      else match_result (if evp.ef_authenticated then known else miss) r.flag_smtp_auth

  unfoldable pub ruleset_match_smtp_mail_from : Rule → Envelope → Answer
  unfolding match_result service_or_regex
  ruleset_match_smtp_mail_from r evp =
      let service = service_or_regex r.flag_smtp_mail_from_regex k_mailaddr in
      let looked : Answer = elim evp.sender_text [
        | none ↦ tempfail
        | some key ↦
            match_result (table_match r.table_smtp_mail_from service key) r.flag_smtp_mail_from
      ] in
      if is_off r.flag_smtp_mail_from then hit else looked

  unfoldable pub ruleset_match_smtp_rcpt_to : Rule → Envelope → Answer
  unfolding match_result service_or_regex
  ruleset_match_smtp_rcpt_to r evp =
      let service = service_or_regex r.flag_smtp_rcpt_to_regex k_mailaddr in
      let looked : Answer = elim evp.dest_text [
        | none ↦ tempfail
        | some key ↦ match_result (table_match r.table_smtp_rcpt_to service key) r.flag_smtp_rcpt_to
      ] in
      if is_off r.flag_smtp_rcpt_to then hit else looked

  -- MATCH_EVAL: `tempfail` ends the search, `miss` goes on with the next rule.
  abbrev pub and_then : Answer → Answer → Answer
  and_then tempfail next = tempfail
  and_then miss next = miss
  and_then hit next = next

  -- The eight tests of a rule, in the source's order.
  unfoldable pub match_rule : Rule → Envelope → Answer
  match_rule r evp = and_then (ruleset_match_tag r evp) (
      and_then (ruleset_match_from r evp) (
        and_then (ruleset_match_to r evp) (
          and_then (ruleset_match_smtp_helo r evp) (
            and_then (ruleset_match_smtp_auth r evp) (
              and_then (ruleset_match_smtp_starttls r evp) (
                and_then (ruleset_match_smtp_mail_from r evp)
                  (ruleset_match_smtp_rcpt_to r evp)))))))

-- NULL with errno 0, NULL with errno EAGAIN, or the rule.
pub data Match : Type 0 where
  no_rule : Match
  again : Match
  matched : Rule → Match

module _ (table_match : Tables) where
  unfoldable pub ruleset_match : List Rule → Envelope → Match
  ruleset_match [] evp = no_rule
  ruleset_match (r ∷ rs) evp = elim (match_rule table_match r evp) [
    | tempfail ↦ again
    | miss ↦ ruleset_match rs evp
    | hit ↦ matched r
  ]
