-- ===== src/Smtp/Invariant/Lines.antt =====
-- A command line of usr.sbin/smtpd/smtp_session.c keeps the invariant.
use open_smtpd.Base.{
  ℕ, ◌≡◌, refl, sym, ap, subst, Bool, true, false, not, ◌&&◌, ◌||◌, Option, none, some, List, [],
  ◌∷◌, arith, leb, ◌==◌, ◌>>=◌, if◌then◌else◌,
}
use open_smtpd.Smtp.Text.{Text, strlcpy, is_empty}
use open_smtpd.Smtp.Address.{Mailaddr, valid_domainpart, smtp_mailaddr}
use open_smtpd.Smtp.Types.{
  State, state_connected, state_helo, Command, cmd_helo, cmd_ehlo, cmd_starttls, cmd_auth,
  cmd_mail_from, cmd_rcpt_to, cmd_data, cmd_rset, cmd_quit, cmd_help, cmd_wiz, cmd_noop, cmd_commit,
  FilterPhase, filter_connect, filter_helo, filter_ehlo, filter_starttls, filter_auth,
  filter_mail_from, filter_rcpt_to, filter_data, filter_data_line, filter_rset, filter_quit,
  filter_noop, filter_help, filter_wiz, filter_commit, SmtpTx, Wait, wait_filters, status, Request,
  filter_protocol, Session, Env,
}
use open_smtpd.Smtp.Session.{send, set_tx, advertise_auth}
use open_smtpd.Smtp.Check.{
  Checked, smtp_line_max, refuse, is_some, smtp_check_noparam, smtp_check_rset, check_domain,
  smtp_check_helo, smtp_check_ehlo, smtp_check_auth, smtp_check_starttls, smtp_check_mail_from,
  store_rcpt, check_rcpt_tx, smtp_check_rcpt_to, check_data_tx, smtp_check_data, smtp_check_noop,
}
use open_smtpd.Smtp.Proceed.{
  smtp_proceed_help, smtp_proceed_wiz, proceed_any, param_text, smtp_query_filters,
  smtp_filter_phase,
}
use open_smtpd.Smtp.Command.{if_allowed, if_allowed_do, dispatch}
use open_smtpd.Smtp.Invariant.Defs.{
  IsTrue, Allowed, Closed, Shape, is_greeted, HasTx, Asked, Turn, Good, xset-Good, if-Good,
}
use open_smtpd.Smtp.Invariant.Commands.{Allocates, same_state-Good, help-Good, proceed_phase-Good}

-- Neither the trees, nor what was sent, nor the question itself matters to what can be carried out.
asked-Shape :
    (s : Session) (ws : List Wait) (m : List Request) (ph : FilterPhase) (pa : Option Text)
    (st : State)
    → is_greeted st ≡ true
    → Shape st s
    → Shape st (record s { waits = ws; sent = m; filter_phase = ph; filter_param = pa })
asked-Shape s ws m ph pa state_connected g sh = sh
asked-Shape s ws m ph pa state_helo g sh = sh
asked-Shape s ws m ph pa st g sh = cc

pub Asked-move :
    (phase : FilterPhase) (given : Bool) (e : Env) (s : Session) (ws : List Wait) (m : List Request)
    (ph : FilterPhase) (pa : Option Text)
    → Asked phase given e s
    → Asked phase given e (record s { waits = ws; sent = m; filter_phase = ph; filter_param = pa })
Asked-move filter_connect given e s ws m ph pa a = a
Asked-move filter_helo given e s ws m ph pa (g, gr, n, sh) =
    (g, gr, n, asked-Shape s ws m ph pa s.state gr sh)
Asked-move filter_ehlo given e s ws m ph pa (g, gr, n, sh) =
    (g, gr, n, asked-Shape s ws m ph pa s.state gr sh)
Asked-move filter_starttls given e s ws m ph pa a = a
Asked-move filter_auth given e s ws m ph pa a = a
Asked-move filter_mail_from given e s ws m ph pa a = a
Asked-move filter_rcpt_to given e s ws m ph pa a = a
Asked-move filter_data given e s ws m ph pa a = a
Asked-move filter_data_line given e s ws m ph pa a = a
Asked-move filter_commit given e s ws m ph pa a = a
Asked-move filter_rset given e s ws m ph pa (g, sh) = (g, asked-Shape s ws m ph pa s.state g sh)
Asked-move filter_quit given e s ws m ph pa (g, sh) = (g, asked-Shape s ws m ph pa s.state g sh)
Asked-move filter_noop given e s ws m ph pa (g, sh) = (g, asked-Shape s ws m ph pa s.state g sh)
Asked-move filter_help given e s ws m ph pa (g, sh) = (g, asked-Shape s ws m ph pa s.state g sh)
Asked-move filter_wiz given e s ws m ph pa (g, sh) = (g, asked-Shape s ws m ph pa s.state g sh)

-- smtp_filter_phase() for a phase that can be carried out.
pub filter_phase-Good :
    (phase : FilterPhase) (e : Env) (s : Session) (param : Option Text)
    → Allocates e
    → Turn e s
    → Asked phase (is_some param) e (record s { filter_phase = phase; filter_param = param })
    → Good e (smtp_filter_phase phase e s param)
unfolding smtp_filter_phase smtp_query_filters send
filter_phase-Good phase e s param al t asked =
    let s' : Session = record s { filter_phase = phase; filter_param = param } in
    if-Good e e.f_filtered (smtp_query_filters phase s' param) (proceed_any phase e s' param)
      (λ c.
        let m : List Request = filter_protocol phase (param_text param) ∷ s.sent in
        xset-Good e wait_filters (record s' { sent = m }) t
          (Asked-move phase (is_some param) e s' (wait_filters ∷ []) m phase param asked))
      (λ c. proceed_phase-Good phase e s' param al t asked)

-- What a check leaves: a refusal, or a session for the phase.
abbrev pub Passes : FilterPhase → Bool → Env → Checked → Type 0
Passes phase given e (s, true) = Turn e s × Asked phase given e s
Passes phase given e (s, false) = Good e (some s)

abbrev pub Passed : FilterPhase → Bool → Env → Option Checked → Type 0
Passed phase given e none = ⊥
Passed phase given e (some r) = Passes phase given e r

-- The checks of commands, for a session that has read a line.
abbrev pub Serves : Env → Session → Type 0
Serves e s = Turn e s × IsTrue (is_greeted s.state) × Shape s.state s

refuse-Good : (e : Env) (s : Session) (code : ℕ) → Serves e s → Good e (some ((refuse code s).0))
unfolding refuse
refuse-Good e s code (t, g, sh) = same_state-Good e s (status code) t g sh

if-Passes :
    (phase : FilterPhase) (given : Bool) (e : Env) (b : Bool) (x y : Checked)
    → (b ≡ true → Passes phase given e x)
    → (b ≡ false → Passes phase given e y)
    → Passes phase given e (if b then x else y)
if-Passes phase given e true x y h k = h refl
if-Passes phase given e false x y h k = k refl

-- A session that is identified, and reads commands, is in the state for them.
helo_state :
    (st : State) (s : Session)
    → is_greeted st ≡ true
    → Shape st s
    → is_empty s.helo ≡ false
    → st ≡ state_helo
unfolding is_empty
helo_state state_connected s g sh he = cc (ap is_empty (sh.1))
helo_state state_helo s g sh he = refl
helo_state st s g sh he = cc

no_tx : (o : Option SmtpTx) → is_some o ≡ false → o ≡ none
no_tx none h = refl
no_tx (some tx) h = cc

-- A client that is not identified has no transaction.
unknown_no_tx :
    (e : Env) (s : Session) (o : Option SmtpTx) → Allowed e s o → is_empty s.helo ≡ true → o ≡ none
unknown_no_tx e s none a h = refl
unknown_no_tx e s (some tx) a h = ground arith

-- A test that refuses, before the others.
guard-Passes :
    (phase : FilterPhase) (given : Bool) (e : Env) (s : Session) (b : Bool) (code : ℕ) (r : Checked)
    → Serves e s
    → (b ≡ false → Passes phase given e r)
    → Passes phase given e (if b then refuse code s else r)
unfolding refuse
guard-Passes phase given e s true code r sv k = refuse-Good e s code sv
guard-Passes phase given e s false code r sv k = k refl

not-false : (b : Bool) → not b ≡ false → b ≡ true
not-false true h = refl
not-false false h = cc

or-false : (a b : Bool) → (a || b) ≡ false → (a ≡ false) × (b ≡ false)
or-false a b h = ground arith

module _ (e : Env) (s : Session) (sv : Serves e s) where
  abbrev HeloDomain : Option Text → Type 0
  HeloDomain args = Passes filter_helo (is_some args) e (check_domain e s args)

  pub check_domain-Passes : (args : Option Text) → s.tx ≡ none → HeloDomain args
  unfolding check_domain
  check_domain-Passes none n = refuse-Good e s 501 sv
  check_domain-Passes (some args) n =
      if-Passes filter_helo true e (valid_domainpart e.resolver args) (s, true) (refuse 501 s)
        (λ c. (sv.0, (refl, sv.1, n, sv.2))) (λ c. refuse-Good e s 501 sv)

  pub check_helo-Passes :
      (args : Option Text) → Passes filter_helo (is_some args) e (smtp_check_helo e s args)
  unfolding smtp_check_helo
  check_helo-Passes args =
      guard-Passes filter_helo (is_some args) e s (not s.banner_sent) 503
        (if not (is_empty s.helo) then refuse 503 s else check_domain e s args) sv
        (λ c.
          guard-Passes filter_helo (is_some args) e s (not (is_empty s.helo)) 503
            (check_domain e s args) sv
            (λ d. check_domain-Passes args (unknown_no_tx e s s.tx (sv.0.0.5) (not-false _ d))))

  helo_ehlo :
      (given : Bool) (r : Checked) → Passes filter_helo given e r → Passes filter_ehlo given e r
  helo_ehlo given (s', true) h = h
  helo_ehlo given (s', false) h = h

  pub check_ehlo-Passes :
      (args : Option Text) → Passes filter_ehlo (is_some args) e (smtp_check_ehlo e s args)
  unfolding smtp_check_ehlo smtp_check_helo
  check_ehlo-Passes args =
      helo_ehlo (is_some args) (smtp_check_helo e s args) (check_helo-Passes args)

  -- Not identified, or in a transaction: the first test of AUTH, STARTTLS and MAIL FROM.
  fresh : (is_empty s.helo || is_some s.tx) ≡ false → (s.state ≡ state_helo) × (s.tx ≡ none)
  fresh h =
      let (he, n) = or-false (is_empty s.helo) (is_some s.tx) h in
      (helo_state s.state s sv.1 sv.2 he, no_tx s.tx n)

  pub check_auth-Passes :
      (args : Option Text) → Passes filter_auth (is_some args) e (smtp_check_auth e s args)
  unfolding smtp_check_auth
  check_auth-Passes args =
      guard-Passes filter_auth (is_some args) e s (is_empty s.helo || is_some s.tx) 503 _ sv (λ c.
        guard-Passes filter_auth (is_some args) e s s.authenticated 503 _ sv (λ d.
          guard-Passes filter_auth (is_some args) e s (not (advertise_auth e s)) 503 _ sv (λ f.
            guard-Passes filter_auth (is_some args) e s (not (is_some args)) 501 (s, true) sv
              (λ g. (sv.0, (not-false (is_some args) g, (fresh c).0, (fresh c).1))))))

  pub check_starttls-Passes :
      (args : Option Text) → Passes filter_starttls false e (smtp_check_starttls e s args)
  unfolding smtp_check_starttls
  check_starttls-Passes args =
      guard-Passes filter_starttls false e s (is_empty s.helo || is_some s.tx) 503 _ sv (λ c.
        guard-Passes filter_starttls false e s (not e.f_starttls) 503 _ sv (λ d.
          guard-Passes filter_starttls false e s s.secure 503 _ sv (λ f.
            guard-Passes filter_starttls false e s (is_some args) 501 (s, true) sv
              (λ g. (sv.0, fresh c)))))

  -- With a NULL argument smtp_check_mail_from() and smtp_check_rcpt_to() would fault.
  pub check_mail_from-Passes :
      (args : Text) → Passed filter_mail_from true e (smtp_check_mail_from e s (some args))
  unfolding smtp_check_mail_from
  check_mail_from-Passes args =
      (guard-Passes filter_mail_from true e s (is_empty s.helo || is_some s.tx) 503 _ sv (λ c.
        guard-Passes filter_mail_from true e s (e.f_starttls_require && not s.secure) 530 _ sv (λ d.
          guard-Passes filter_mail_from true e s (e.f_auth_require && not s.authenticated) 530 _ sv
            (λ f.
              guard-Passes filter_mail_from true e s (leb e.sc_session_max_mails s.mailcount) 452 _
                sv
                (λ g.
                  if-Passes filter_mail_from true e
                    (is_some
                      (smtp_mailaddr e.resolver (strlcpy smtp_line_max args) true s.smtpname))
                    (s, true) (refuse 553 s)
                    (λ i. (
                      sv.0,
                      (
                        refl,
                        (fresh c).0,
                        (fresh c).1,
                        ap not ((or-false (is_empty s.helo) (is_some s.tx) c).0),
                        ground arith,
                        ground arith,
                        ground arith,
                      ),
                    ))
                    (λ i. refuse-Good e s 553 sv))))))

  unchanged : (Turn e s) × Asked filter_rset false e s
  unchanged = (sv.0, (sv.1, sv.2))

  pub check_rset-Passes : (args : Option Text) → Passes filter_rset false e (smtp_check_rset s args)
  unfolding smtp_check_rset
  check_rset-Passes none =
      guard-Passes filter_rset false e s (is_empty s.helo) 503 (s, true) sv (λ c. unchanged)
  check_rset-Passes (some args) = unfold refuse in refuse-Good e s 500 sv

  pub check_noparam-Passes :
      (args : Option Text) → Passes filter_quit false e (smtp_check_noparam s args)
  unfolding smtp_check_noparam
  check_noparam-Passes none = unchanged
  check_noparam-Passes (some args) = unfold refuse in refuse-Good e s 500 sv

  -- A client with a transaction is identified.
  tx_helo : (tx : SmtpTx) → s.tx ≡ some tx → is_empty s.helo ≡ false
  tx_helo tx h = not-true (is_empty s.helo) ((subst (Allowed e s) h (sv.0.0.5)).0)
    where
      not-true : (b : Bool) → not b ≡ true → b ≡ false
      not-true true h = cc
      not-true false h = refl

  tx_closed :
      (tx : SmtpTx)
      → s.tx ≡ some tx
      → (s.state ≡ state_helo) × (tx.ofile ≡ false) × (tx.filter ≡ false)
  tx_closed tx h =
      let st : s.state ≡ state_helo = helo_state s.state s sv.1 sv.2 (tx_helo tx h) in
      let c : Closed (some tx) = subst Closed h (subst (λ x. Shape x s) st sv.2) in (st, c.0, c.1)

  pub check_data-Passes : (args : Option Text) → Passes filter_data false e (smtp_check_data s args)
  unfolding smtp_check_data
  check_data-Passes (some args) = unfold refuse in refuse-Good e s 500 sv
  check_data-Passes none = by_tx s.tx refl
    where
      by_tx : (o : Option SmtpTx) → s.tx ≡ o → Passes filter_data false e (check_data_tx s o)
      by_tx none h = unfold check_data_tx refuse in refuse-Good e s 503 sv
      by_tx (some tx) h =
          unfold check_data_tx in
          guard-Passes filter_data false e s (tx.rcptcount == 0) 503 (s, true) sv
            (λ c. (
              sv.0,
              (
                (tx_closed tx h).0,
                subst (HasTx (λ x. (x.ofile ≡ false) × (x.filter ≡ false))) (sym h)
                    ((tx_closed tx h).1, (tx_closed tx h).2),
              ),
            ))

  pub check_rcpt_to-Passes :
      (args : Text) → Passed filter_rcpt_to true e (smtp_check_rcpt_to e s (some args))
  unfolding smtp_check_rcpt_to
  check_rcpt_to-Passes args = by_tx s.tx refl
    where
      stored :
          (tx : SmtpTx)
          → s.tx ≡ some tx
          → (m : Option (Mailaddr × Text)) → Passes filter_rcpt_to true e (store_rcpt s tx m)
      stored tx h none = unfold store_rcpt refuse in refuse-Good e s 501 sv
      stored tx h (some (rcpt, opts)) =
          let ((w, p, hs, f, m, a), r, q) = sv.0 in
          unfold store_rcpt set_tx in
          (
            ((w, p, hs, f, m, subst (Allowed e s) h a), r, q),
            (refl, (tx_closed tx h).0, ((tx_closed tx h).1, (tx_closed tx h).2)),
          )

      by_tx :
          (o : Option SmtpTx) → s.tx ≡ o → Passes filter_rcpt_to true e (check_rcpt_tx e s args o)
      by_tx none h = unfold check_rcpt_tx refuse in refuse-Good e s 503 sv
      by_tx (some tx) h =
          unfold check_rcpt_tx in
          guard-Passes filter_rcpt_to true e s (leb e.sc_session_max_rcpt tx.rcptcount) 451 _ sv
            (λ c.
              stored tx h (smtp_mailaddr e.resolver (strlcpy smtp_line_max args) false s.smtpname))

-- A command that passes its check goes to the filters, or is carried out.
allowed-Good :
    (e : Env) (r : Checked) (phase : FilterPhase) (param : Option Text)
    → Allocates e
    → Passes phase (is_some param) e r
    → Good e (if_allowed r phase e param)
unfolding if_allowed
allowed-Good e (s, true) phase param al (t, asked) =
    filter_phase-Good phase e s param al t
      (Asked-move phase (is_some param) e s s.waits s.sent phase param asked)
allowed-Good e (s, false) phase param al h = h

Passed-Good :
    (e : Env) (r : Option Checked) (phase : FilterPhase) (param : Option Text)
    → Allocates e
    → Passed phase (is_some param) e r
    → Good e (do x ← r; if_allowed x phase e param)
Passed-Good e none phase param al h = h
Passed-Good e (some r) phase param al h = allowed-Good e r phase param al h

allowed_do-Good :
    (e : Env) (r : Checked) (f : Session → Session)
    → ((s : Session) → Serves e s → Good e (some (f s)))
    → Passes filter_quit false e r
    → Good e (if_allowed_do r f)
unfolding if_allowed_do
allowed_do-Good e (s, true) f h (t, g) = h s (t, g.0, g.1)
allowed_do-Good e (s, false) f h p = p

-- The name of MAIL FROM and of RCPT TO ends at the colon: they come with arguments.
abbrev pub Given : Option Command → Option Text → Type 0
Given (some cmd_mail_from) args = is_some args ≡ true
Given (some cmd_rcpt_to) args = is_some args ≡ true
Given _ args = Unit

-- In the session's turn, before a command or after one, a line with any command, MAIL FROM and RCPT TO
-- with arguments, is treated without a fault. Then there is output and no input is read, or the session
-- waits for one answer or for the timer and neither reads nor has output, or a TLS handshake begins, or
-- the session is over; a transaction is for a client that is identified, over TLS and authenticated
-- where that is required, within the limits. This is so where memory for a transaction comes with memory
-- for its parser.
pub dispatch-Good :
    (command : Option Command) (e : Env) (s : Session) (args : Option Text)
    → Allocates e
    → Serves e s
    → Given command args
    → Good e (dispatch command e s args)
unfolding dispatch smtp_check_noop smtp_proceed_wiz
dispatch-Good (some cmd_helo) e s args al sv g =
    allowed-Good e (smtp_check_helo e s args) filter_helo args al (check_helo-Passes e s sv args)
dispatch-Good (some cmd_ehlo) e s args al sv g =
    allowed-Good e (smtp_check_ehlo e s args) filter_ehlo args al (check_ehlo-Passes e s sv args)
dispatch-Good (some cmd_starttls) e s args al sv g =
    allowed-Good e (smtp_check_starttls e s args) filter_starttls none al
      (check_starttls-Passes e s sv args)
dispatch-Good (some cmd_auth) e s args al sv g =
    allowed-Good e (smtp_check_auth e s args) filter_auth args al (check_auth-Passes e s sv args)
dispatch-Good (some cmd_mail_from) e s none al sv g = cc
dispatch-Good (some cmd_mail_from) e s (some args) al sv g =
    Passed-Good e (smtp_check_mail_from e s (some args)) filter_mail_from (some args) al
      (check_mail_from-Passes e s sv args)
dispatch-Good (some cmd_rcpt_to) e s none al sv g = cc
dispatch-Good (some cmd_rcpt_to) e s (some args) al sv g =
    Passed-Good e (smtp_check_rcpt_to e s (some args)) filter_rcpt_to (some args) al
      (check_rcpt_to-Passes e s sv args)
dispatch-Good (some cmd_rset) e s args al sv g =
    allowed-Good e (smtp_check_rset s args) filter_rset none al (check_rset-Passes e s sv args)
dispatch-Good (some cmd_data) e s args al sv g =
    allowed-Good e (smtp_check_data s args) filter_data none al (check_data-Passes e s sv args)
dispatch-Good (some cmd_quit) e s args al sv g =
    allowed-Good e (smtp_check_noparam s args) filter_quit none al
      (check_noparam-Passes e s sv args)
dispatch-Good (some cmd_noop) e s args al sv g =
    allowed-Good e (s, true) filter_noop none al (unchanged e s sv)
dispatch-Good (some cmd_help) e s args al sv g =
    allowed_do-Good e (smtp_check_noparam s args) smtp_proceed_help
      (λ s' sv'. help-Good e s' sv'.0 sv'.1 sv'.2) (check_noparam-Passes e s sv args)
dispatch-Good (some cmd_wiz) e s args al sv g =
    allowed_do-Good e (smtp_check_noparam s args) smtp_proceed_wiz
      (λ s' sv'. same_state-Good e s' (status 500) sv'.0 sv'.1 sv'.2)
      (check_noparam-Passes e s sv args)
dispatch-Good (some cmd_commit) e s args al sv g = same_state-Good e s (status 500) sv.0 sv.1 sv.2
dispatch-Good none e s args al sv g = same_state-Good e s (status 500) sv.0 sv.1 sv.2
