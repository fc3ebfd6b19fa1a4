-- ===== src/Smtp/Invariant/Datain.antt =====
-- Input keeps the invariant: IO_DATAIN in smtp_io(), and filter_session_io(), of
-- usr.sbin/smtpd/smtp_session.c.
use open_smtpd.Base.{
  ℕ, ◌≡◌, refl, sym, ap, subst, ◌∙◌, inl, inr, Bool, true, false, not, ◌&&◌, Option, none, some,
  List, [], ◌∷◌, arith, leb, ◌>>=◌, Bool-cases, length, if◌then◌else◌,
}
use open_smtpd.Smtp.Text.{Text, strlcpy, c_string}
use open_smtpd.Smtp.Address.{line_max}
use open_smtpd.Smtp.Parser.{found}
use open_smtpd.Smtp.Types.{
  State, state_new, state_connected, state_tls, state_helo, state_auth_init, state_auth_username,
  state_auth_password, state_auth_finalize, state_body, state_quit, filter_commit, Content, SmtpTx,
  Session, Env,
}
use open_smtpd.Smtp.Session.{io_set_write, set_tx, writer_of}
use open_smtpd.Smtp.Check.{smtp_line_max}
use open_smtpd.Smtp.Content.{smtp_tx_filtered_dataline}
use open_smtpd.Smtp.Command.{
  commands, find_command, split_command, plain_command, command_in, smtp_command,
}
use open_smtpd.Smtp.Io.{
  bad_line, count_line, body_content, body_line, smtp_tx_eom, body_end, is_body, command_line,
  strip_cr, nothing_behind, after_line, take_line, io_datain,
}
use open_smtpd.Smtp.Lines.Total.{dataline-Total}
use open_smtpd.Smtp.Invariant.Defs.{
  IsTrue, Allowed, Closed, IsOpen, Shape, is_greeted, Rest, Turn, ready, filters, Kept, Good,
  Good-Kept, Shape-at, if-Good, if-Kept,
}
use open_smtpd.Smtp.Invariant.Auth.{
  plain_answer-Good, login_user_answer-Good, login_pass_answer-Good,
}
use open_smtpd.Smtp.Invariant.Commands.{Allocates}
use open_smtpd.Smtp.Invariant.Lines.{filter_phase-Good, dispatch-Good}
use open_smtpd.Smtp.Invariant.Names.{split_command-Given}
use open_smtpd.Smtp.Invariant.Input.{Reads, bad_line-Good}

-- A line with a command, or within an authentication.
plain_command-Good :
    (e : Env) (s : Session) (line : Text)
    → Allocates e
    → Turn e s
    → IsTrue (is_greeted s.state)
    → Shape s.state s
    → Good e (plain_command e s line)
unfolding plain_command
plain_command-Good e s line al t g sh =
    let command = find_command commands (split_command line).0 in
    dispatch-Good command e (record s { last_cmd = command }) (split_command line).1 al
      (t, g, asked s.state g sh) (split_command-Given line)
  where
    asked :
        (st : State)
        → is_greeted st ≡ true
        → Shape st s
        → Shape st (record s { last_cmd = find_command commands (split_command line).0 })
    asked state_connected g sh = sh
    asked state_helo g sh = sh
    asked st g sh = cc

-- The states in which a line is a command or belongs to an authentication.
abbrev pub Listens : State → Session → Type 0
Listens state_body s = ⊥
Listens state_tls s = ⊥
Listens state_quit s = ⊥
Listens st s = Shape st s

pub smtp_command-Good :
    (e : Env) (s : Session) (line : Text)
    → Allocates e
    → Turn e s
    → Listens s.state s
    → Good e (smtp_command e s line)
unfolding smtp_command
smtp_command-Good e s line al t l = in_state s.state refl l
  where
    in_state : (st : State) → s.state ≡ st → Listens st s → Good e (command_in st e s line)
    in_state state_new eq l = absurd l
    in_state state_connected eq l =
        unfold command_in in
        plain_command-Good e s line al t (ap is_greeted eq) (Shape-at state_connected s eq l)
    in_state state_tls eq l = absurd l
    in_state state_helo eq l =
        unfold command_in in
        plain_command-Good e s line al t (ap is_greeted eq) (Shape-at state_helo s eq l)
    in_state state_auth_init eq l = unfold command_in in plain_answer-Good e s line t l eq
    in_state state_auth_username eq l = unfold command_in in login_user_answer-Good e s line t l eq
    in_state state_auth_password eq l = unfold command_in in login_pass_answer-Good e s line t l eq
    in_state state_auth_finalize eq l = absurd l
    in_state state_body eq l = absurd l
    in_state state_quit eq l = absurd l

-- A session that reads, and is not in a message, listens.
Reads-Listens :
    (s t : Session) (st : State)
    → s.reading ≡ true
    → is_body st ≡ false
    → t.tx ≡ s.tx
    → t.helo ≡ s.helo
    → Shape st s
    → Listens st t
Reads-Listens s t state_new r b x y sh = sh
Reads-Listens s t state_connected r b x y sh = (x ∙ sh.0, y ∙ sh.1)
Reads-Listens s t state_tls r b x y sh = cc
Reads-Listens s t state_helo r b x y sh = subst Closed (sym x) sh
Reads-Listens s t state_auth_init r b x y sh = x ∙ sh
Reads-Listens s t state_auth_username r b x y sh = x ∙ sh
Reads-Listens s t state_auth_password r b x y sh = x ∙ sh
Reads-Listens s t state_auth_finalize r b x y sh = sh
Reads-Listens s t state_body r b x y sh = cc
Reads-Listens s t state_quit r b x y sh = cc

command_line-Good :
    (e : Env) (s : Session) (line : Text)
    → Allocates e
    → Reads e s
    → is_body s.state ≡ false
    → Good e (command_line e s line)
unfolding command_line
command_line-Good e s line al (rest, r, q, sh) b =
    let s' : Session = record s { cmd = strlcpy line_max line } in
    if-Good e (leb line_max (length line)) _ _ (λ c. bad_line-Good e s' rest)
      (λ c.
        unfold io_set_write in
        smtp_command-Good e (record s' { reading = false }) line al (rest, refl, q)
          (Reads-Listens s (record s' { reading = false }) s.state r b refl refl sh))

-- The end of a message that is read.
body_end-Kept :
    (e : Env) (s : Session) (tx : SmtpTx)
    → Allocates e
    → Rest e (record s { tx = some tx })
    → s.queued ≡ false
    → s.state ≡ state_body
    → tx.ofile ≡ true
    → Kept e (body_end e (record s { tx = some tx }) (some tx))
unfolding body_end io_set_write smtp_tx_eom
body_end-Kept e s tx al (w, p, h, f, m, a) q st o =
    if-Kept e tx.filter _ _
      (λ c. record { bound = m; allowed = a; situation = filters (w, p, h, f) (refl, q) st (o, c) })
      (λ c. Good-Kept e (smtp_tx_eom e (record s { tx = some tx; reading = false })) (
        filter_phase-Good filter_commit e (record s { tx = some tx; reading = false }) none al
          ((w, p, h, f, m, a), refl, q) (st, o)))

after_line-Kept :
    (e : Env) (clear : Bool) (s : Session) (tx : SmtpTx) (line : Text)
    → Allocates e
    → Rest e (record s { tx = some tx })
    → s.queued ≡ false
    → s.state ≡ state_body
    → tx.ofile ≡ true
    → Kept e (after_line e clear (record s { tx = some tx }, true) line)
unfolding after_line
after_line-Kept e false s tx line al rest q st o =
    Good-Kept e (some (bad_line (record s { tx = some tx })))
      (bad_line-Good e (record s { tx = some tx }) rest)
after_line-Kept e true s tx line al rest q st o = body_end-Kept e s tx al rest q st o

-- A line of the message.
body_content-some :
    (e : Env) (s : Session) (tx : SmtpTx) (line : Text)
    → (r : Content × Bool) × (body_content e s tx line ≡ some r)
unfolding body_content
body_content-some e s tx line =
    let found = dataline-Total (writer_of e s tx.evp) (count_line e line tx.content) line in
    elim (Bool-cases (tx.filter)) [
      | inl c ↦ (smtp_tx_filtered_dataline (count_line e line tx.content) line, ground arith)
      | inr c ↦ (found.0, ground (arith, found.1))
    ]

-- A line, and the lines behind it.
abbrev go_on :
    Env → Bool → Text → (Session → Option Session) → Bool → Session × Bool → Option Session
go_on e clear line go b r = if b && not (r.1) then go (r.0) else after_line e clear r line

abbrev one_line : Env → Bool → Session → Text → (Session → Option Session) → Bool → Option Session
one_line e clear s line go b = do
  r ← (if b then body_line e s s.tx line else some (s, false))
  go_on e clear line go b r

in_body-Kept :
    (e : Env) (clear : Bool) (s : Session) (line : Text) (go : Session → Option Session)
    → Allocates e
    → Reads e s
    → s.state ≡ state_body
    → ((s' : Session) → Reads e s' → Kept e (go s'))
    → Kept e (one_line e clear s line go true)
in_body-Kept e clear s line go al (rest, r, q, sh) st rec =
    by_tx s.tx refl (subst (λ x. Shape x s) st sh)
  where
    step :
        (tx : SmtpTx)
        → Rest e (record s { tx = some tx })
        → tx.ofile ≡ true
        → (x : Content × Bool)
        → Kept e (do
          r ← some (set_tx (record tx { content = x.0 }) s, x.1)
          go_on e clear line go true r)
    step tx rest o (c, true) =
        unfold set_tx in after_line-Kept e clear s (record tx { content = c }) line al rest q st o
    step tx rest o (c, false) =
        unfold set_tx in
        rec (record s { tx = some (record tx { content = c }) })
          (rest, r, q, Shape-at state_body _ st o)

    by_tx :
        (o : Option SmtpTx)
        → s.tx ≡ o
        → IsOpen o
        → Kept e (do r ← body_line e s o line; go_on e clear line go true r)
    by_tx none eq o = absurd o
    by_tx (some tx) eq o =
        let (x, found) = body_content-some e s tx line in
        let (w, p, h, f, m, a) = rest in
        unfold body_line in rw found (step tx (w, p, h, f, m, subst (Allowed e s) eq a) o x)

one_line-Kept :
    (e : Env) (clear : Bool) (s : Session) (line : Text) (go : Session → Option Session)
    → Allocates e
    → Reads e s
    → ((s' : Session) → Reads e s' → Kept e (go s'))
    → (b : Bool) → is_body s.state ≡ b
    → Kept e (one_line e clear s line go b)
one_line-Kept e clear s line go al reads rec true b =
    in_body-Kept e clear s line go al reads (body_state s.state b) rec
  where
    body_state : (st : State) → is_body st ≡ true → st ≡ state_body
    body_state state_body b = refl
    body_state state_new b = cc
    body_state st b = cc
one_line-Kept e true s line go al reads rec false b =
    unfold after_line in Good-Kept e (command_line e s line) (command_line-Good e s line al reads b)
one_line-Kept e false s line go al reads rec false b =
    unfold after_line in Good-Kept e (some (bad_line s)) (bad_line-Good e s reads.0)

-- Input of any lines, in a session that reads.
pub io_datain-Kept :
    (e : Env) (lines : List Text) (rest : ℕ) (s : Session)
    → Allocates e
    → Reads e s
    → Kept e (io_datain e lines rest s)
unfolding io_datain take_line
io_datain-Kept e [] n s al (rest, r, q, sh) = read_on (leb smtp_line_max n)
  where
    read_on : (b : Bool) → Kept e (some (if b then bad_line s else s))
    read_on true = Good-Kept e (some (bad_line s)) (bad_line-Good e s rest)
    read_on false =
        let (w, p, h, f, m, a) = rest in
        record { bound = m; allowed = a; situation = ready (w, p, h, f) (q ∙ ap not (sym r)) sh }
io_datain-Kept e (raw ∷ lines) n s al reads =
    if-Kept e (leb smtp_line_max (length raw)) _ _
      (λ c. Good-Kept e (some (bad_line s)) (bad_line-Good e s reads.0))
      (λ c.
        one_line-Kept e (nothing_behind lines n) s (c_string (strip_cr raw))
          (λ s'. io_datain e lines n s') al reads (λ s' r'. io_datain-Kept e lines n s' al r')
          (is_body s.state) refl)
