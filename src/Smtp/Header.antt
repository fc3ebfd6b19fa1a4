-- ===== src/Smtp/Header.antt =====
-- usr.sbin/smtpd/smtp_session.c: the addresses of a header, header_append_domain_buffer() and
-- header_address_rewrite_buffer(), on one address at a time.
use open_smtpd.Base.{
  ℕ, ◌+◌, ◌-◌, Bool, true, false, not, ◌&&◌, ◌||◌, [], ◌∷◌, ◌++◌, leb, ltb, ◌==◌, if◌then◌else◌,
  length,
}
use open_smtpd.Smtp.Text.{Text, isspace, take, drop}

-- What both scans of an address keep. A comment may nest.
pub record Scan : Type 0 where
  pub i : ℕ
  pub escape : Bool
  pub quote : Bool
  pub comment : ℕ
  pub bracket : Bool
  pub has_domain : Bool
  pub has_bracket : Bool
  pub has_group : Bool
  pub pos_bracket_beg : ℕ
  pub pos_bracket_end : ℕ
  pub pos_component : ℕ

abbrev pub scan_start : Scan
scan_start = record {
  i = 0;
  escape = false;
  quote = false;
  comment = 0;
  bracket = false;
  has_domain = false;
  has_bracket = false;
  has_group = false;
  pos_bracket_beg = 0;
  pos_bracket_end = 0;
  pos_component = 0;
}

-- The first tests of a round: comments, quotes and the backslash.
unfoldable pub scan_quoting : Scan → ℕ → Scan
scan_quoting s c =
    let opened = if c == b'(' && not s.escape && not s.quote then s.comment + 1 else s.comment in
    let quote = if c == 34 && not s.escape && opened == 0 then not s.quote else s.quote in
    let comment =
      if c == b')' && not s.escape && not quote && ltb 0 opened then opened - 1 else opened in
    record s {
      comment = comment;
      quote = quote;
      escape = c == 92 && not s.escape && comment == 0 && not quote;
    }

-- The other tests: brackets, the domain, a group, and the last character of a component.
unfoldable pub scan_marks : Scan → ℕ → Scan
unfolding isspace
scan_marks s c =
    let plain = not s.escape && s.comment == 0 && not s.quote in
    let opens = c == b'<' && plain && not s.bracket in
    let closes = c == b'>' && plain && (s.bracket || opens) in
    record s {
      i = s.i + 1;
      bracket = if closes then false else if opens then true else s.bracket;
      has_bracket = s.has_bracket || opens;
      pos_bracket_beg = if opens then s.i + 1 else s.pos_bracket_beg;
      pos_bracket_end = if closes then s.i else s.pos_bracket_end;
      has_domain = s.has_domain || c == b'@' && plain;
      has_group = s.has_group || c == b':' && plain;
      pos_component =
          if s.comment == 0 && not (c == b')') && not (isspace c) then s.i else s.pos_component;
    }

unfoldable pub scan_address : Scan → Text → Scan
unfolding scan_quoting scan_marks
scan_address s [] = s
scan_address s (c ∷ a) = scan_address (scan_marks (scan_quoting s c) c) a

-- The address is not understood.
unfoldable pub unfinished : Scan → Bool
unfinished s = s.escape || s.quote || ltb 0 s.comment || s.bracket

-- The length of a text without the white space at its end.
unfoldable pub trimmed_length : ℕ → ℕ → Text → ℕ
unfolding isspace
trimmed_length n i [] = n
trimmed_length n i (c ∷ a) = trimmed_length (if isspace c then n else i + 1) (i + 1) a

unfoldable pub char_at : ℕ → Text → ℕ
unfolding drop
char_at n a = elim (drop n a) [ [] ↦ 0 | c ∷ b ↦ c ]

-- APPEND_DOMAIN_BUFFER_SIZE.
abbrev pub buffer_size : ℕ
buffer_size = 65535

-- The domain behind the first `pos` characters, if all of it fits.
unfoldable pub insert_domain : ℕ → Text → Text → Text
unfolding take drop
insert_domain pos domain buffer =
    let copy = take pos buffer ++ (b'@' ∷ (domain ++ drop pos buffer)) in
    if leb buffer_size (length copy) then buffer else copy

-- Where the domain goes: behind the last character in the brackets, or behind the last component.
unfoldable pub append_at : Scan → Text → Text → Text
unfolding trimmed_length char_at insert_domain isspace
append_at s domain buffer =
    if s.has_bracket
    then (let pos = trimmed_length 0 0 (take s.pos_bracket_end buffer) in
        if char_at (pos - 1) buffer == b'<' then buffer else insert_domain pos domain buffer)
    else (let c = char_at s.pos_component buffer in
        if c == 0 || isspace c then buffer else insert_domain (s.pos_component + 1) domain buffer)

unfoldable pub header_append_domain_buffer : Text → Text → Text
unfolding scan_address unfinished append_at
header_append_domain_buffer buffer domain =
    let s = scan_address scan_start buffer in
    if unfinished s || s.has_domain || s.has_group then buffer else append_at s domain buffer

-- The place behind the last `)` or white space.
unfoldable pub after_stop : ℕ → ℕ → Text → ℕ
unfolding isspace
after_stop n i [] = n
after_stop n i (c ∷ a) = after_stop (if c == b')' || isspace c then i + 1 else n) (i + 1) a

-- The address in place of the characters from `beg` to `end`, if the whole is shorter than the buffer.
unfoldable pub replace_address : ℕ → ℕ → Text → Text → Text
unfolding take drop
replace_address beg end address buffer =
    if leb buffer_size (length buffer - (end - beg) + length address)
    then buffer
    else take beg buffer ++ (address ++ drop end buffer)

unfoldable pub rewrite_at : Scan → Text → Text → Text
unfolding replace_address after_stop
rewrite_at s address buffer =
    if s.has_bracket
    then replace_address s.pos_bracket_beg s.pos_bracket_end address buffer
    else if s.pos_component == 0
    then replace_address 0 0 address buffer
    else replace_address (after_stop 0 0 (take (s.pos_component + 1) buffer)) (s.pos_component + 1)
        address buffer

unfoldable pub header_address_rewrite_buffer : Text → Text → Text
unfolding scan_address unfinished rewrite_at
header_address_rewrite_buffer buffer address =
    let s = scan_address scan_start buffer in
    if unfinished s || s.has_group then buffer else rewrite_at s address buffer
