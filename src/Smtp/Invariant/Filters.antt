-- ===== src/Smtp/Invariant/Filters.antt =====
-- The answers of the filters keep the invariant: IMSG_FILTER_SMTP_PROTOCOL in smtp_session_imsg() of
-- usr.sbin/smtpd/smtp_session.c.
use open_smtpd.Base.{
  ◌≡◌, refl, sym, ap, subst, Bool, true, false, not, ◌||◌, Option, none, some, [], ◌∷◌, ◌>>=◌,
  if◌then◌else◌,
}
use open_smtpd.Smtp.Text.{Text, codes, starts_with}
use open_smtpd.Smtp.Types.{
  State, state_connected, state_helo, state_body, FilterPhase, filter_connect, filter_helo,
  filter_ehlo, filter_starttls, filter_auth, filter_mail_from, filter_rcpt_to, filter_data,
  filter_data_line, filter_rset, filter_quit, filter_noop, filter_help, filter_wiz, filter_commit,
  FilterStatus, proceed, junk, report, rewrite, reject, disconnect, SmtpTx, wait_filters, status,
  text, Session, Env,
}
use open_smtpd.Smtp.Session.{smtp_reply, waits_in, set_tx}
use open_smtpd.Smtp.Check.{
  Checked, refuse, is_some, smtp_check_noparam, smtp_check_rset, smtp_check_helo, smtp_check_ehlo,
  smtp_check_auth, smtp_check_starttls, smtp_check_mail_from, smtp_check_rcpt_to, smtp_check_data,
  smtp_check_noop,
}
use open_smtpd.Smtp.Proceed.{smtp_proceed_rollback, proceed_phase, proceed_any, check_phase}
use open_smtpd.Smtp.Imsg.{
  refusal_text, is_commit, filter_refuses, mark_junk, proceed_checked, filter_rewrites,
  filter_answers, imsg_filter,
}
use open_smtpd.Smtp.Invariant.Defs.{
  IsTrue, Allowed, Closed, IsOpen, Shape, is_greeted, HasTx, Asked, Pending, Rest, Turn, Inv, Good,
  replied-Done, Shape-at, Allowed-none, if-Good,
}
use open_smtpd.Smtp.Invariant.Transaction.{failed-Good}
use open_smtpd.Smtp.Invariant.Commands.{
  Allocates, quit-Good, same_state-Good, proceed_connected-Good, proceed_phase-Good,
}
use open_smtpd.Smtp.Invariant.Lines.{
  Passes, Passed, check_helo-Passes, check_ehlo-Passes, check_auth-Passes, check_starttls-Passes,
  check_mail_from-Passes, check_data-Passes, check_rcpt_to-Passes,
}
use open_smtpd.Smtp.Invariant.Answers.{pop-Good}

-- With a parameter more can be carried out.
Asked-given :
    (phase : FilterPhase) (given : Bool) (e : Env) (s : Session)
    → Asked phase given e s
    → Asked phase true e s
Asked-given filter_connect given e s a = a
Asked-given filter_helo given e s (g, gr, n, sh) = (refl, gr, n, sh)
Asked-given filter_ehlo given e s (g, gr, n, sh) = (refl, gr, n, sh)
Asked-given filter_starttls given e s a = a
Asked-given filter_auth given e s (g, st, n) = (refl, st, n)
Asked-given filter_mail_from given e s (g, st, n, he, se, au, lt) = (refl, st, n, he, se, au, lt)
Asked-given filter_rcpt_to given e s (g, st, h) = (refl, st, h)
Asked-given filter_data given e s a = a
Asked-given filter_data_line given e s a = a
Asked-given filter_rset given e s a = a
Asked-given filter_quit given e s a = a
Asked-given filter_noop given e s a = a
Asked-given filter_help given e s a = a
Asked-given filter_wiz given e s a = a
Asked-given filter_commit given e s a = a

Closed-of-HasTx :
    (o : Option SmtpTx) → HasTx (λ tx. (tx.ofile ≡ false) × (tx.filter ≡ false)) o → Closed o
Closed-of-HasTx none h = absurd h
Closed-of-HasTx (some tx) h = h

-- Between two commands, a session is as one that reads them.
at_helo :
    (s : Session)
    → s.state ≡ state_helo
    → Closed s.tx
    → IsTrue (is_greeted s.state) × Shape s.state s
at_helo s st c = (ap is_greeted st, Shape-at state_helo s st c)

Asked-Shape :
    (phase : FilterPhase) (given : Bool) (e : Env) (s : Session)
    → is_commit phase ≡ false
    → Asked phase given e s
    → IsTrue (is_greeted s.state) × Shape s.state s
Asked-Shape filter_connect given e s c (st, n, he) =
    (ap is_greeted st, Shape-at state_connected s st (n, he))
Asked-Shape filter_helo given e s c (g, gr, n, sh) = (gr, sh)
Asked-Shape filter_ehlo given e s c (g, gr, n, sh) = (gr, sh)
Asked-Shape filter_starttls given e s c (st, n) = at_helo s st (subst Closed (sym n) tt)
Asked-Shape filter_auth given e s c (g, st, n) = at_helo s st (subst Closed (sym n) tt)
Asked-Shape filter_mail_from given e s c (g, st, n, he, se, au, lt) =
    at_helo s st (subst Closed (sym n) tt)
Asked-Shape filter_rcpt_to given e s c (g, st, h) = at_helo s st (Closed-of-HasTx s.tx h)
Asked-Shape filter_data given e s c (st, h) = at_helo s st (Closed-of-HasTx s.tx h)
Asked-Shape filter_data_line given e s c a = absurd a
Asked-Shape filter_rset given e s c a = a
Asked-Shape filter_quit given e s c a = a
Asked-Shape filter_noop given e s c a = a
Asked-Shape filter_help given e s c a = a
Asked-Shape filter_wiz given e s c a = a
Asked-Shape filter_commit given e s c a = cc

-- A message that the filters refuse is rolled back.
rolled_back-Good :
    (e : Env) (s : Session)
    → Rest e s
    → s.reading ≡ false
    → s.queued ≡ true
    → IsOpen s.tx
    → Good e (smtp_proceed_rollback e s s.tx)
unfolding smtp_proceed_rollback set_tx
rolled_back-Good e s rest r q o = by_tx s.tx refl o
  where
    by_tx : (o : Option SmtpTx) → s.tx ≡ o → IsOpen o → Good e (smtp_proceed_rollback e s o)
    by_tx none eq o = absurd o
    by_tx (some tx) eq o =
        let tx' : SmtpTx = record tx { ofile = false } in
        let (w, p, h, f, m, a) = rest in
        if-Good e (not tx.ofile) _ _ (λ c. cc (c, ap not o))
          (λ c. failed-Good e s tx' tx' (w, p, h, f, m, subst (Allowed e s) eq a) r q)

refused-Good :
    (phase : FilterPhase) (given : Bool) (e : Env) (s : Session) (t : Text)
    → Turn e s
    → Asked phase given e s
    → Good e (
        if is_commit phase
        then smtp_proceed_rollback e (smtp_reply (text t) s) (smtp_reply (text t) s).tx
        else some (smtp_reply (text t) s))
refused-Good phase given e s t (rest, r, q) a =
    if-Good e (is_commit phase) _ _
      (λ c.
        unfold smtp_reply in
        rolled_back-Good e (record s { replies = text t ∷ s.replies; queued = true }) rest r refl
          (open_of phase a c))
      (λ c.
        let (g, sh) = Asked-Shape phase given e s c a in
        same_state-Good e s (text t) (rest, r, q) g sh)
  where
    open_of : (phase : FilterPhase) → Asked phase given e s → is_commit phase ≡ true → IsOpen s.tx
    open_of filter_commit (st, o) c = o
    open_of filter_connect a c = cc
    open_of phase a c = cc

filter_refuses-Good :
    (disconnects : Bool) (given : Bool) (param : Text) (e : Env) (s : Session)
    → Turn e s
    → Asked s.filter_phase given e s
    → Good e (filter_refuses e disconnects param s)
unfolding filter_refuses
filter_refuses-Good disconnects given param e s t a =
    if-Good e (disconnects || starts_with (codes "421") (refusal_text param)) _ _
      (λ c. quit-Good e s (text (refusal_text param)) t)
      (λ c. unfold smtp_reply in refused-Good s.filter_phase given e s (refusal_text param) t a)

-- The mark of junk is on the transaction, if there is one.
junk-Shape :
    (s : Session) (b : Bool) (st : State)
    → is_greeted st ≡ true
    → Shape st s
    → Shape st (record s { junk = b })
junk-Shape s b state_connected g sh = sh
junk-Shape s b state_helo g sh = sh
junk-Shape s b st g sh = cc

junk-Asked :
    (phase : FilterPhase) (given : Bool) (e : Env) (s : Session) (b : Bool)
    → Asked phase given e s
    → Asked phase given e (record s { junk = b })
junk-Asked filter_connect given e s b a = a
junk-Asked filter_helo given e s b (g, gr, n, sh) = (g, gr, n, junk-Shape s b s.state gr sh)
junk-Asked filter_ehlo given e s b (g, gr, n, sh) = (g, gr, n, junk-Shape s b s.state gr sh)
junk-Asked filter_starttls given e s b a = a
junk-Asked filter_auth given e s b a = a
junk-Asked filter_mail_from given e s b a = a
junk-Asked filter_rcpt_to given e s b a = a
junk-Asked filter_data given e s b a = a
junk-Asked filter_data_line given e s b a = a
junk-Asked filter_rset given e s b (g, sh) = (g, junk-Shape s b s.state g sh)
junk-Asked filter_quit given e s b (g, sh) = (g, junk-Shape s b s.state g sh)
junk-Asked filter_noop given e s b (g, sh) = (g, junk-Shape s b s.state g sh)
junk-Asked filter_help given e s b (g, sh) = (g, junk-Shape s b s.state g sh)
junk-Asked filter_wiz given e s b (g, sh) = (g, junk-Shape s b s.state g sh)
junk-Asked filter_commit given e s b a = a

junk_tx-Shape :
    (s : Session) (tx : SmtpTx) (st : State)
    → is_greeted st ≡ true
    → Shape st (record s { tx = some tx })
    → Shape st (record s { tx = some (record tx { junk = true }) })
junk_tx-Shape s tx state_connected g (n, he) = cc
junk_tx-Shape s tx state_helo g sh = sh
junk_tx-Shape s tx st g sh = cc

junk_tx-Asked :
    (phase : FilterPhase) (given : Bool) (e : Env) (s : Session) (tx : SmtpTx)
    → Asked phase given e (record s { tx = some tx })
    → Asked phase given e (record s { tx = some (record tx { junk = true }) })
junk_tx-Asked filter_connect given e s tx (st, n, he) = cc
junk_tx-Asked filter_helo given e s tx (g, gr, n, sh) = cc
junk_tx-Asked filter_ehlo given e s tx (g, gr, n, sh) = cc
junk_tx-Asked filter_starttls given e s tx (st, n) = cc
junk_tx-Asked filter_auth given e s tx (g, st, n) = cc
junk_tx-Asked filter_mail_from given e s tx (g, st, n, he, se, au, lt) = cc
junk_tx-Asked filter_rcpt_to given e s tx a = a
junk_tx-Asked filter_data given e s tx a = a
junk_tx-Asked filter_data_line given e s tx a = a
junk_tx-Asked filter_rset given e s tx (g, sh) = (g, junk_tx-Shape s tx s.state g sh)
junk_tx-Asked filter_quit given e s tx (g, sh) = (g, junk_tx-Shape s tx s.state g sh)
junk_tx-Asked filter_noop given e s tx (g, sh) = (g, junk_tx-Shape s tx s.state g sh)
junk_tx-Asked filter_help given e s tx (g, sh) = (g, junk_tx-Shape s tx s.state g sh)
junk_tx-Asked filter_wiz given e s tx (g, sh) = (g, junk_tx-Shape s tx s.state g sh)
junk_tx-Asked filter_commit given e s tx a = a

marked-Good :
    (e : Env) (s : Session) (param : Option Text)
    → Allocates e
    → Turn e s
    → Asked s.filter_phase (is_some param) e s
    → Good e (proceed_any s.filter_phase e (mark_junk s s.tx) param)
marked-Good e s param al t a = by_tx s.tx refl
  where
    by_tx :
        (o : Option SmtpTx) → s.tx ≡ o → Good e (proceed_any s.filter_phase e (mark_junk s o) param)
    by_tx none eq =
        let ((w, p, h, f, m, al'), r, q) = t in
        unfold mark_junk in
        proceed_phase-Good s.filter_phase e (record s { junk = true }) param al
          ((w, p, h, f, m, Allowed-none e (record s { junk = true }) eq), r, q)
          (junk-Asked s.filter_phase (is_some param) e s true a)
    by_tx (some tx) eq =
        let ((w, p, h, f, m, al'), r, q) = t in
        unfold mark_junk set_tx in
        proceed_phase-Good s.filter_phase e (record s { tx = some (record tx { junk = true }) })
          param al ((w, p, h, f, m, subst (Allowed e s) eq al'), r, q)
          (junk_tx-Asked s.filter_phase (is_some param) e s tx
            (subst (λ o. Asked s.filter_phase (is_some param) e (record s { tx = o })) eq a))

-- A parameter that the filters put in place of the client's is checked first.
abbrev is_connect : FilterPhase → Bool
is_connect filter_connect = true
is_connect _ = false

checked-Good :
    (phase : FilterPhase) (e : Env) (param : Text) (r : Checked)
    → Allocates e
    → is_connect phase ≡ false
    → Passes phase true e r
    → Good e (proceed_checked phase e param r)
unfolding proceed_checked
checked-Good phase e param (s, false) al c h = h
checked-Good phase e param (s, true) al c (t, a) =
    subst (λ x. Good e x) (same phase c) (proceed_phase-Good phase e s (some param) al t a)
  where
    same :
        (phase : FilterPhase)
        → is_connect phase ≡ false
        → proceed_any phase e s (some param) ≡ proceed_phase phase e s (some param)
    same filter_connect c = cc
    same filter_helo c = unfold proceed_any in refl
    same phase c = unfold proceed_any in refl

Passes-given :
    (phase : FilterPhase) (given : Bool) (e : Env) (r : Checked)
    → Passes phase given e r
    → Passes phase true e r
Passes-given phase given e (s, true) (t, a) = (t, Asked-given phase given e s a)
Passes-given phase given e (s, false) h = h

Passed-Good :
    (phase : FilterPhase) (e : Env) (param : Text) (r : Option Checked)
    → Allocates e
    → is_connect phase ≡ false
    → Passed phase true e r
    → Good e (do x ← r; proceed_checked phase e param x)
Passed-Good phase e param none al c h = h
Passed-Good phase e param (some r) al c h = checked-Good phase e param r al c h

rewrites-Good :
    (phase : FilterPhase) (given : Bool) (e : Env) (s : Session) (param : Text)
    → Allocates e
    → Turn e s
    → Asked phase given e s
    → Good e (filter_rewrites phase e param s)
unfolding filter_rewrites check_phase smtp_check_rset smtp_check_noparam smtp_check_noop proceed_any
rewrites-Good filter_connect given e s param al t (st, n, he) = proceed_connected-Good e s t st n he
rewrites-Good filter_helo given e s param al t a =
    let sv = Asked-Shape filter_helo given e s refl a in
    checked-Good filter_helo e param (smtp_check_helo e s (some param)) al refl
      (check_helo-Passes e s (t, sv.0, sv.1) (some param))
rewrites-Good filter_ehlo given e s param al t a =
    let sv = Asked-Shape filter_ehlo given e s refl a in
    checked-Good filter_ehlo e param (smtp_check_ehlo e s (some param)) al refl
      (check_ehlo-Passes e s (t, sv.0, sv.1) (some param))
rewrites-Good filter_starttls given e s param al t a =
    let sv = Asked-Shape filter_starttls given e s refl a in
    let r = smtp_check_starttls e s (some param) in
    checked-Good filter_starttls e param r al refl (
      Passes-given filter_starttls false e r
        (check_starttls-Passes e s (t, sv.0, sv.1) (some param)))
rewrites-Good filter_auth given e s param al t a =
    let sv = Asked-Shape filter_auth given e s refl a in
    checked-Good filter_auth e param (smtp_check_auth e s (some param)) al refl
      (check_auth-Passes e s (t, sv.0, sv.1) (some param))
rewrites-Good filter_mail_from given e s param al t a =
    let sv = Asked-Shape filter_mail_from given e s refl a in
    Passed-Good filter_mail_from e param (smtp_check_mail_from e s (some param)) al refl
      (check_mail_from-Passes e s (t, sv.0, sv.1) param)
rewrites-Good filter_rcpt_to given e s param al t a =
    let sv = Asked-Shape filter_rcpt_to given e s refl a in
    Passed-Good filter_rcpt_to e param (smtp_check_rcpt_to e s (some param)) al refl
      (check_rcpt_to-Passes e s (t, sv.0, sv.1) param)
rewrites-Good filter_data given e s param al t a =
    let sv = Asked-Shape filter_data given e s refl a in
    let r = smtp_check_data s (some param) in
    checked-Good filter_data e param r al refl
      (Passes-given filter_data false e r (check_data-Passes e s (t, sv.0, sv.1) (some param)))
rewrites-Good filter_data_line given e s param al t a = absurd a
rewrites-Good filter_rset given e s param al t (g, sh) =
    unfold refuse proceed_checked in same_state-Good e s (status 500) t g sh
rewrites-Good filter_quit given e s param al t (g, sh) =
    unfold refuse proceed_checked in same_state-Good e s (status 500) t g sh
rewrites-Good filter_noop given e s param al t (g, sh) =
    unfold proceed_checked in proceed_phase-Good filter_noop e s (some param) al t (g, sh)
rewrites-Good filter_help given e s param al t (g, sh) =
    unfold refuse proceed_checked in same_state-Good e s (status 500) t g sh
rewrites-Good filter_wiz given e s param al t (g, sh) =
    unfold refuse proceed_checked in same_state-Good e s (status 500) t g sh
rewrites-Good filter_commit given e s param al ((rest, r, q)) (st, o) =
    unfold refuse proceed_checked smtp_reply in
    replied-Done rest r refl (Shape-at state_body _ st o)

-- Whatever the filters answer.
pub filter_answer-Good :
    (answer : FilterStatus) (e : Env) (s : Session)
    → Allocates e
    → Inv e s
    → waits_in wait_filters s.waits ≡ true
    → Good e (imsg_filter answer e s)
unfolding imsg_filter
filter_answer-Good answer e s al i h =
    pop-Good wait_filters e s (filter_answers answer e) i h
      (by_answer answer (record s { waits = [] }))
  where
    by_answer :
        (answer : FilterStatus) (s : Session)
        → Turn e s
        → Pending wait_filters e s
        → Good e (filter_answers answer e s)
    by_answer (reject param) s t a =
        unfold filter_answers in filter_refuses-Good false (is_some s.filter_param) param e s t a
    by_answer (disconnect param) s t a =
        unfold filter_answers in filter_refuses-Good true (is_some s.filter_param) param e s t a
    by_answer junk s t a = unfold filter_answers in marked-Good e s s.filter_param al t a
    by_answer proceed s t a =
        unfold filter_answers in proceed_phase-Good s.filter_phase e s s.filter_param al t a
    by_answer (report param) s t a =
        unfold filter_answers in
        proceed_phase-Good s.filter_phase e s (some param) al t
          (Asked-given s.filter_phase (is_some s.filter_param) e s a)
    by_answer (rewrite param) s t a =
        unfold filter_answers in
        rewrites-Good s.filter_phase (is_some s.filter_param) e s param al t a
