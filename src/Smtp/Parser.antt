-- ===== src/Smtp/Parser.antt =====
-- usr.sbin/smtpd/rfc5322.c: the lines of a message as the parts of its header and its body. `none` is -1.
use open_smtpd.Base.{
  ℕ, ◌+◌, ◌*◌, ◌/◌, ◌%◌, Bool, true, false, not, ◌&&◌, ◌||◌, Option, none, some, [], ◌∷◌, ◌++◌, leb,
  ◌==◌, ◌>>=◌, if◌then◌else◌, length,
}
use open_smtpd.Smtp.Text.{Text, strchr, take}

-- RFC5322_*.
pub data Part : Type 0 where
  part_none header_start header_cont header_end end_of_headers : Part
  body_start body end_of_message : Part

-- struct buf: its bytes, without the NUL; the memory that it has, what counts as used, the limit.
pub record Buf : Type 0 where
  pub bytes : Text
  pub bufsz : ℕ
  pub buflen : ℕ
  pub bufmax : ℕ

-- struct rfc5322_parser; `state` is `none` after an error.
pub record Parser : Type 0 where
  pub line : Option Text
  pub state : Option Part
  pub next : Bool
  pub unfold_on : Bool
  pub currhdr : Option Text
  pub hdr : Buf
  pub val : Buf

-- struct rfc5322_result.
pub record Result : Type 0 where
  pub hdr : Text
  pub value : Option Text

-- rfc5322_parser_new() with rfc5322_clear().
abbrev pub parser_new : Parser
parser_new = record {
  line = none;
  state = some part_none;
  next = false;
  unfold_on = false;
  currhdr = none;
  hdr = record { bytes = []; bufsz = 0; buflen = 0; bufmax = 1024 };
  val = record { bytes = []; bufsz = 0; buflen = 0; bufmax = 65536 };
}

-- buf_alloc(): in steps of 256 bytes. A buffer without memory has no bytes at all.
unfoldable pub buf_alloc : Buf → ℕ → Option Buf
buf_alloc b need =
    if not (b.bufsz == 0) && leb need b.bufsz
    then some b
    else if leb b.bufmax need
    then none
    else some (record b { bufsz = 256 * (need / 256) + (if need % 256 == 0 then 0 else 256) })

-- buf_grow(), where the sum of the sizes does not overflow.
unfoldable pub buf_grow : Buf → ℕ → Option Buf
unfolding buf_alloc
buf_grow b sz = buf_alloc b (b.buflen + sz)

unfoldable pub buf_cat : Buf → Text → Option Buf
unfolding buf_grow
buf_cat b s = do
  b' ← buf_grow b (length s + 1)
  some (record b' { bytes = take b.buflen b.bytes ++ s; buflen = b.buflen + length s })

-- rfc5322_push(): a line, or `none` for the end of the message.
unfoldable pub push_line : Option Text → Option Text → Parser → Option Parser
push_line none line p = some (record p { line = line; next = false })
push_line (some old) line p = none

unfoldable pub rfc5322_push : Parser → Option Text → Option Parser
unfolding push_line
rfc5322_push p line = push_line p.line line p

-- rfc5322_unfold_header(): what it leaves; where it fails, the parser is as before.
unfoldable pub start_unfold : Parser → Option Buf → Parser
start_unfold p none = p
start_unfold p (some val) = record p { val = val; currhdr = none; unfold_on = true }

unfoldable pub unfold_current : Parser → Option Text → Parser
unfolding start_unfold buf_cat
unfold_current p none = p
unfold_current p (some currhdr) = start_unfold p (buf_cat p.val currhdr)

unfoldable pub rfc5322_unfold_header : Parser → Parser
unfolding unfold_current
rfc5322_unfold_header p = if p.unfold_on then p else unfold_current p p.currhdr

-- What a call of rfc5322_next() leaves and gives; the second is `none` for -1.
abbrev pub Next : Type 0
Next = Parser × Option (Part × Result)

abbrev pub no_result : Result
no_result = record { hdr = []; value = none }

unfoldable pub failed : Parser → Next
failed p = (record p { state = none }, none)

unfoldable pub found : Parser → Part → Result → Next
found p part res = (record p { state = some part }, some (part, res))

abbrev pub consumed : Parser → Parser
consumed p = record p { line = none; next = true }

-- A line that continues a header; while the header is unfolded it goes to the value too.
unfoldable pub header_cont_of : Parser → Text → Option Buf → Next
unfolding failed found
header_cont_of p line none = failed (consumed p)
header_cont_of p line (some val) =
    found (record p { line = none; next = true; val = val }) header_cont
      (record { hdr = p.hdr.bytes; value = some line })

unfoldable pub fold_line : Parser → Text → Option Buf
unfolding buf_cat
fold_line p line =
    if p.unfold_on then (do b ← buf_cat p.val (10 ∷ []); buf_cat b line) else some p.val

-- The end of a header, with the value of one that was unfolded.
unfoldable pub header_end_of : Parser → Next
unfolding found
header_end_of p =
    if p.unfold_on
    then found (record p { val = record (p.val) { buflen = 0 }; unfold_on = false }) header_end
        (record { hdr = p.hdr.bytes; value = some p.val.bytes })
    else found p header_end (record { hdr = p.hdr.bytes; value = none })

unfoldable pub in_header : Parser → Option Text → Next
unfolding header_cont_of fold_line header_end_of
in_header p none = header_end_of p
in_header p (some []) = header_end_of p
in_header p (some (c ∷ line)) =
    if c == b' ' || c == 9
    then header_cont_of p (c ∷ line) (fold_line p (c ∷ line))
    else header_end_of p

-- A new header: its name stands before the first colon.
unfoldable pub store_header : Parser → Text → Text → Option Buf → Next
unfolding failed found
store_header p name value none = failed p
store_header p name value (some hdr) =
    found
      (record p {
        line = none;
        next = true;
        currhdr = some value;
        hdr = record hdr { bytes = name; buflen = length name + 1 };
      })
      header_start (record { hdr = name; value = some value })

unfoldable pub header_of : Parser → Text × Option Text → Next
unfolding store_header found buf_grow
header_of p (name, none) = found p end_of_headers no_result
header_of p (name, some value) = store_header p name value (buf_grow p.hdr (length name + 1))

unfoldable pub between_headers : Parser → Option Text → Next
unfolding header_of found strchr
between_headers p none = found p end_of_headers no_result
between_headers p (some []) = found p end_of_headers no_result
between_headers p (some (c ∷ line)) =
    if c == b' ' || c == 9
    then found p end_of_headers no_result
    else header_of p (strchr b':' (c ∷ line))

-- Behind the headers there is the end, or an empty line and the body.
unfoldable pub after_headers : Parser → Option Text → Next
unfolding failed found
after_headers p none = found p end_of_message no_result
after_headers p (some []) = found (consumed p) body_start (record { hdr = []; value = some [] })
after_headers p (some (c ∷ line)) = failed p

unfoldable pub in_body : Parser → Option Text → Next
unfolding found
in_body p none = found p end_of_message no_result
in_body p (some line) = found (consumed p) body (record { hdr = []; value = some line })

-- _rfc5322_next(): the switch on the state.
unfoldable pub next_part : Option Part → Parser → Next
unfolding in_header between_headers after_headers in_body failed
next_part (some header_start) p = in_header p p.line
next_part (some header_cont) p = in_header p p.line
next_part (some part_none) p = between_headers p p.line
next_part (some header_end) p = between_headers p p.line
next_part (some end_of_headers) p = after_headers p p.line
next_part (some body_start) p = in_body p p.line
next_part (some body) p = in_body p p.line
next_part (some end_of_message) p = failed p
next_part none p = failed p

-- rfc5322_next(): the state is set, except where the parser wants a line.
unfoldable pub rfc5322_next : Parser → Next
unfolding next_part
rfc5322_next p = if p.next then (p, some (part_none, no_result)) else next_part p.state p
