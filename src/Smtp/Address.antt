-- ===== src/Smtp/Address.antt =====
-- usr.sbin/smtpd: the syntax of mail addresses, in util.c, to.c and smtp_session.c. inet_pton() and
-- res_hnok() are parameters.
use open_smtpd.Base.{
  ℕ, Bool, true, false, not, ◌&&◌, ◌||◌, Option, none, some, [], ◌∷◌, leb, ◌==◌, ◌>>=◌,
  if◌then◌else◌, length,
}
use open_smtpd.Smtp.Text.{
  Text, codes, isdigit, isalnum, starts_with, drop, strlcpy, strchr, strrchr, skip_while, is_empty,
}

-- What the resolver library says of a text.
pub record Resolver : Type 0 where
  pub inet_pton6 : Text → Bool
  pub inet_pton : Text → Bool
  pub res_hnok : Text → Bool

-- SMTPD_MAXLOCALPARTSIZE, SMTPD_MAXDOMAINPARTSIZE, SMTPD_MAXMAILADDRSIZE; LINE_MAX.
abbrev pub max_part_size : ℕ
max_part_size = 256

abbrev pub line_max : ℕ
line_max = 2048

-- struct mailaddr.
pub record Mailaddr : Type 0 where
  pub user : Text
  pub domain : Text

abbrev pub no_mailaddr : Mailaddr
no_mailaddr = record { user = []; domain = [] }

unfoldable pub contains : Text → ℕ → Bool
contains [] c = false
contains (d ∷ a) c = d == c || contains a c

-- MAILADDR_ALLOWED and IS_ATEXT().
unfoldable pub is_atext : ℕ → Bool
unfolding isalnum contains
is_atext c = isalnum c || contains (codes "!#$%&'*/?^`{|}~+-=_") c

-- valid_localpart(): at the start of an atom, and inside one.
unfoldable pub valid_atoms : Bool → Text → Bool
valid_atoms start [] = not start
valid_atoms true (c ∷ a) = is_atext c && valid_atoms false a
valid_atoms false (c ∷ a) =
    let atom = valid_atoms true a in
    let rest = valid_atoms false a in if c == b'.' then atom else is_atext c && rest

unfoldable pub valid_localpart : Text → Bool
unfolding valid_atoms
valid_localpart a = valid_atoms true a

-- The address in brackets: nothing stands behind the `]`.
unfoldable pub valid_literal : Resolver → Text × Option Text → Bool
valid_literal r (before, some []) = r.inet_pton6 before || r.inet_pton before
valid_literal r _ = false

unfoldable pub last : ℕ → Text → ℕ
last c [] = c
last c (d ∷ a) = last d a

unfoldable pub valid_domainpart : Resolver → Text → Bool
unfolding starts_with drop strchr valid_literal last
valid_domainpart r [] = false
valid_domainpart r (c ∷ a) =
    if c == b'['
    then (let p = if starts_with (codes "[IPv6:") (c ∷ a) then drop 5 a else a in
        if leb max_part_size (length p) then false else valid_literal r (strchr b']' p))
    else if leb max_part_size (length (c ∷ a))
    then false
    else if last c a == b'.'
    then false
    else r.res_hnok (c ∷ a)

-- text_to_mailaddr(): what stands behind the last `@` is the domain.
unfoldable pub mailaddr_of : Text × Option Text → Option Mailaddr
mailaddr_of (user, none) =
    if leb max_part_size (length user) then none else some (record { user = user; domain = [] })
mailaddr_of (user, some domain) =
    if leb max_part_size (length user) || leb max_part_size (length domain)
    then none
    else some (record { user = user; domain = domain })

unfoldable pub text_to_mailaddr : Text → Option Mailaddr
unfolding mailaddr_of strrchr
text_to_mailaddr email =
    if leb line_max (length email) then none else mailaddr_of (strrchr b'@' email)

-- The user behind a source route, `@one,@two:user`.
unfoldable pub without_route : Text → Text × Option Text → Text
without_route user (before, none) = user
without_route user (before, some after) = after

unfoldable pub is_space : ℕ → Bool
is_space c = c == b' '

-- smtp_mailaddr() after text_to_mailaddr().
unfoldable pub check_mailaddr : Resolver → Bool → Text → Mailaddr → Option Mailaddr
unfolding without_route strchr valid_localpart valid_domainpart is_empty strlcpy
check_mailaddr r mailfrom domain maddr =
    let user = without_route maddr.user (strchr b':' maddr.user) in
    if mailfrom && is_empty user && is_empty maddr.domain
    then some (record { user = user; domain = maddr.domain })
    else if is_empty user || not (valid_localpart user)
    then none
    else (let domain' =
          if is_empty maddr.domain then strlcpy max_part_size domain else maddr.domain in
        if valid_domainpart r domain'
        then some (record { user = user; domain = domain' })
        else none)

-- smtp_mailaddr() behind the `<`: the address and the arguments behind the `>`.
unfoldable pub bracketed_mailaddr :
    Resolver → Bool → Text → Text × Option Text → Option (Mailaddr × Text)
unfolding text_to_mailaddr check_mailaddr skip_while is_space
bracketed_mailaddr r mailfrom domain (before, none) = none
bracketed_mailaddr r mailfrom domain (before, some after) = do
  maddr ← text_to_mailaddr before
  maddr' ← check_mailaddr r mailfrom domain maddr
  some (maddr', skip_while is_space after)

-- smtp_mailaddr(): `none` is 0.
unfoldable pub smtp_mailaddr : Resolver → Text → Bool → Text → Option (Mailaddr × Text)
unfolding bracketed_mailaddr strchr
smtp_mailaddr r [] mailfrom domain = none
smtp_mailaddr r (c ∷ line) mailfrom domain =
    if c == b'<' then bracketed_mailaddr r mailfrom domain (strchr b'>' line) else none

-- valid_smtp_response().
unfoldable pub valid_smtp_response : Text → Bool
unfolding isdigit
valid_smtp_response (a ∷ b ∷ c ∷ d ∷ e ∷ s) =
    leb b'2' a && leb a b'5' && isdigit b && isdigit c && d == b' '
valid_smtp_response _ = false

unfoldable pub is_hex : ℕ → Bool
unfolding isdigit
is_hex c = isdigit c || leb b'A' c && leb c b'F'

-- valid_xtext(): printable, no `=`, and `+` stands before two digits.
unfoldable pub valid_xtext : Text → Bool
unfolding is_hex
valid_xtext [] = true
valid_xtext (c ∷ []) = leb b'!' c && leb c b'~' && not (c == b'=') && not (c == b'+')
valid_xtext (c ∷ d ∷ []) =
    leb b'!' c && leb c b'~' && not (c == b'=') && not (c == b'+') && valid_xtext (d ∷ [])
valid_xtext (c ∷ d ∷ e ∷ s) =
    let hex = valid_xtext s in
    let plain = valid_xtext (d ∷ e ∷ s) in
    leb b'!' c
    && leb c b'~'
    && not (c == b'=')
    && (if c == b'+' then is_hex d && is_hex e && hex else plain)
