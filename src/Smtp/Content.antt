-- ===== src/Smtp/Content.antt =====
-- usr.sbin/smtpd/smtp_session.c: the lines of a message on their way to its file, smtp_tx_dataline() and
-- what it calls. Whether vfprintf() succeeds is a parameter, a test of what was written and of the text.
use open_smtpd.Base.{
  ℕ, zero, suc, ◌+◌, ◌-◌, Bool, true, false, not, ◌&&◌, ◌||◌, Option, none, some, List, [], ◌∷◌,
  ◌++◌, leb, ltb, ◌==◌, if◌then◌else◌, length,
}
use open_smtpd.Smtp.Text.{Text, codes, strcasecmp, text_eq}
use open_smtpd.Smtp.Parser.{
  Parser, Part, Result, part_none, header_start, header_cont, header_end, end_of_headers,
  body_start, body, end_of_message, rfc5322_push, rfc5322_next, rfc5322_unfold_header,
}
use open_smtpd.Smtp.Header.{header_append_domain_buffer, header_address_rewrite_buffer, buffer_size}
use open_smtpd.Smtp.Types.{
  TxError, tx_ok, error_io, error_loop, error_malformed, error_internal, Content,
}

-- What the lines are written by: the names that the listener and the sender give, the header fields
-- that the server adds, and whether it does.
pub record Writer : Type 0 where
  pub hostname : Text
  pub masquerade : Option Text
  pub submission : Bool
  pub date : Text
  pub message_id : Text
  pub vfprintf : List Text → Text → Bool

abbrev pub is_ok : TxError → Bool
is_ok tx_ok = true
is_ok _ = false

-- smtp_message_printf(). An error stops all further output.
unfoldable pub write : Writer → Content → Text → Content
write w c t =
    if w.vfprintf c.written t
    then record c { written = t ∷ c.written }
    else record c { error = error_io }

unfoldable pub smtp_message_printf : Writer → Content → Text → Content
unfolding write
smtp_message_printf w c t = if is_ok c.error then write w c t else c

-- header_domain_append_callback(): the state of its loops. `buffer` holds the characters backwards.
pub record Split : Type 0 where
  pub escape : Bool
  pub quote : Bool
  pub comment : ℕ
  pub skip : Bool
  pub buffer : Text
  pub content : Content

abbrev pub split_start : Content → Split
split_start c = record {
  escape = false;
  quote = false;
  comment = 0;
  skip = false;
  buffer = [];
  content = c;
}

unfoldable pub reverse_onto : Text → Text → Text
reverse_onto [] b = b
reverse_onto (c ∷ a) b = reverse_onto a (c ∷ b)

-- An address that is complete: with the domain, and rewritten to the sender's if that is asked for.
unfoldable pub masquerade : Option Text → Text → Text → Text
unfolding strcasecmp header_address_rewrite_buffer
masquerade none hdr buffer = buffer
masquerade (some sender) hdr buffer =
    if strcasecmp hdr (codes "From") then header_address_rewrite_buffer buffer sender else buffer

unfoldable pub complete_address : Writer → Text → Text → Text
unfolding masquerade header_append_domain_buffer
complete_address w hdr buffer =
    if ltb (length buffer + length w.hostname + 1) buffer_size
    then masquerade w.masquerade hdr (header_append_domain_buffer buffer w.hostname)
    else buffer

-- A character that does not separate; a full buffer is written as it is.
unfoldable pub split_char : Writer → Split → ℕ → Split
unfolding smtp_message_printf reverse_onto
split_char w s c =
    if s.skip
    then record s { content = smtp_message_printf w s.content (c ∷ []) }
    else if length s.buffer + 1 == buffer_size - 1
    then record s {
      content = smtp_message_printf w s.content (reverse_onto (c ∷ s.buffer) []);
      skip = true;
      buffer = [];
    }
    else record s { buffer = c ∷ s.buffer }

unfoldable pub split_comma : Writer → Text → Split → Split
unfolding smtp_message_printf reverse_onto complete_address
split_comma w hdr s =
    let address = reverse_onto s.buffer [] in
    let address' = if s.skip then address else complete_address w hdr address in
    record s {
      content = smtp_message_printf w s.content (address' ++ b',' ∷ []);
      skip = false;
      buffer = [];
    }

unfoldable pub split_quoting : Split → ℕ → Split
split_quoting s c =
    let opened = if c == b'(' && not s.escape && not s.quote then s.comment + 1 else s.comment in
    let quote = if c == 34 && not s.escape && opened == 0 then not s.quote else s.quote in
    let comment =
      if c == b')' && not s.escape && not quote && ltb 0 opened then opened - 1 else opened in
    record s { comment = comment; quote = quote; escape = c == 92 && not s.escape && comment == 0 }

-- One character of the value, whose lines end in a newline each.
unfoldable pub split_step : Writer → Text → Split → ℕ → Split
unfolding split_quoting split_char split_comma
split_step w hdr s c =
    if c == 10
    then split_char w s c
    else (let s' = split_quoting s c in
        if c == b',' && not s'.escape && not s'.quote && s'.comment == 0
        then split_comma w hdr s'
        else split_char w s' c)

unfoldable pub split_text : Writer → Text → Split → Text → Split
unfolding split_step
split_text w hdr s [] = s
split_text w hdr s (c ∷ a) = split_text w hdr (split_step w hdr s c) a

-- The end of the header: what the buffer holds.
unfoldable pub write_rest : Writer → Text → Content → Text → Content
unfolding smtp_message_printf reverse_onto complete_address
write_rest w hdr content [] = content
write_rest w hdr content (c ∷ b) =
    smtp_message_printf w content (complete_address w hdr (reverse_onto (c ∷ b) []))

unfoldable pub split_last : Writer → Text → Split → Content
unfolding write_rest
split_last w hdr s = write_rest w hdr s.content s.buffer

unfoldable pub header_domain_append_callback : Writer → Content → Text → Option Text → Content
unfolding smtp_message_printf split_text split_last
header_domain_append_callback w c hdr none = smtp_message_printf w c (hdr ++ b':' ∷ [])
header_domain_append_callback w c hdr (some val) =
    let s = split_start (smtp_message_printf w c (hdr ++ b':' ∷ [])) in
    split_last w hdr (split_text w hdr s (val ++ 10 ∷ []))

-- What a round of the loop of smtp_tx_dataline() comes to: another one, or the result.
pub data Round : Type 0 where
  again : Content → Round
  ended : Content → Bool → Round

unfoldable pub is_one_of : List Text → Text → Bool
unfolding strcasecmp
is_one_of [] hdr = false
is_one_of (name ∷ names) hdr = strcasecmp name hdr || is_one_of names hdr

abbrev pub rewritten : List Text
rewritten = codes "To" ∷ codes "Cc" ∷ codes "From" ∷ []

unfoldable pub value_of : Result → Text
value_of res = elim res.value [ none ↦ [] | some value ↦ value ]

-- MAX_HOPS_COUNT.
abbrev pub max_hops_count : ℕ
max_hops_count = 100

-- The flags that a header sets, and the header itself.
unfoldable pub note_header : Content → Text → Content
unfolding strcasecmp
note_header c hdr =
    if not c.has_date && strcasecmp (codes "Date") hdr
    then record c { has_date = true }
    else if not c.has_message_id && strcasecmp (codes "Message-Id") hdr
    then record c { has_message_id = true }
    else c

unfoldable pub write_header : Writer → Content → Result → Content
unfolding smtp_message_printf value_of
write_header w c res = smtp_message_printf w c (res.hdr ++ (b':' ∷ (value_of res ++ 10 ∷ [])))

-- A hop more: too many are a loop.
unfoldable pub dataline_received : Writer → Content → Result → Round
unfolding write_header
dataline_received w c res =
    let c' = record c { rcvcount = c.rcvcount + 1 } in
    if leb max_hops_count c'.rcvcount
    then ended (record c' { error = error_loop }) false
    else again (write_header w c' res)

unfoldable pub dataline_header : Writer → Content → Result → Round
unfolding is_one_of strcasecmp rfc5322_unfold_header note_header write_header dataline_received
dataline_header w c res =
    if strcasecmp (codes "Bcc") res.hdr
    then again c
    else if is_one_of rewritten res.hdr
    then again (record c { parser = rfc5322_unfold_header c.parser })
    else if strcasecmp (codes "Received") res.hdr
    then dataline_received w c res
    else again (write_header w (note_header c res.hdr) res)

unfoldable pub dataline_cont : Writer → Content → Result → Round
unfolding is_one_of smtp_message_printf value_of
dataline_cont w c res =
    if is_one_of (codes "Bcc" ∷ rewritten) res.hdr
    then again c
    else again (smtp_message_printf w c (value_of res ++ 10 ∷ []))

unfoldable pub dataline_end : Writer → Content → Result → Round
unfolding is_one_of header_domain_append_callback
dataline_end w c res =
    again (
      if is_one_of rewritten res.hdr
      then header_domain_append_callback w c res.hdr res.value
      else c)

-- The header fields that a submitted message lacks.
unfoldable pub add_headers : Writer → Content → Content
unfolding smtp_message_printf
add_headers w c =
    if w.submission
    then (let c' = if c.has_date then c else smtp_message_printf w c w.date in
        if c'.has_message_id then c' else smtp_message_printf w c' w.message_id)
    else c

-- The switch on the result of rfc5322_next().
unfoldable pub dataline_part : Writer → Content → Option (Part × Result) → Round
unfolding dataline_header dataline_cont dataline_end add_headers smtp_message_printf value_of
dataline_part w c none = ended (record c { error = error_malformed }) false
dataline_part w c (some (part_none, res)) = ended c false
dataline_part w c (some (header_start, res)) = dataline_header w c res
dataline_part w c (some (header_cont, res)) = dataline_cont w c res
dataline_part w c (some (header_end, res)) = dataline_end w c res
dataline_part w c (some (end_of_headers, res)) = again (add_headers w c)
dataline_part w c (some (body_start, res)) =
    again (smtp_message_printf w c (value_of res ++ 10 ∷ []))
dataline_part w c (some (body, res)) = again (smtp_message_printf w c (value_of res ++ 10 ∷ []))
dataline_part w c (some (end_of_message, res)) = ended c true

unfoldable pub dataline_round : Writer → Content → Round
unfolding dataline_part rfc5322_next
dataline_round w c =
    let (p, found) = rfc5322_next c.parser in dataline_part w (record c { parser = p }) found

-- The loop of smtp_tx_dataline(); `none` is fuel that ran out.
unfoldable pub after_round : (Content → Option (Content × Bool)) → Round → Option (Content × Bool)
after_round go (ended c eom) = some (c, eom)
after_round go (again c) = go c

unfoldable pub dataline_loop : ℕ → Writer → Content → Option (Content × Bool)
unfolding after_round dataline_round
dataline_loop zero w c = none
dataline_loop (suc fuel) w c = after_round (dataline_loop fuel w) (dataline_round w c)

-- A call of rfc5322_next() takes the line or leaves a state of the header for a later one.
abbrev pub dataline_fuel : ℕ
dataline_fuel = 6

unfoldable pub push_dataline : Writer → Content → Option Parser → Option (Content × Bool)
unfolding dataline_loop
push_dataline w c none = some (record c { error = error_internal }, false)
push_dataline w c (some p) = dataline_loop dataline_fuel w (record c { parser = p })

-- A leading dot is taken off.
unfoldable pub unescape_dot : Text → Text
unescape_dot [] = []
unescape_dot (c ∷ line) = if c == b'.' then line else c ∷ line

unfoldable pub smtp_tx_dataline : Writer → Content → Text → Option (Content × Bool)
unfolding text_eq push_dataline rfc5322_push unescape_dot
smtp_tx_dataline w c line =
    if text_eq line (codes ".")
    then (if not (is_ok c.error)
        then some (c, true)
        else push_dataline w c (rfc5322_push c.parser none))
    else if not (is_ok c.error)
    then some (c, false)
    else push_dataline w c (rfc5322_push c.parser (some (unescape_dot line)))

-- smtp_tx_filtered_dataline(): the lines go to the filter; the result is the end of the message.
unfoldable pub smtp_tx_filtered_dataline : Content → Text → Content × Bool
unfolding text_eq
smtp_tx_filtered_dataline c line =
    if text_eq line (codes ".")
    then (record c { to_filter = codes "." ∷ c.to_filter }, true)
    else if not (is_ok c.error)
    then (c, false)
    else (record c { to_filter = line ∷ c.to_filter }, false)
