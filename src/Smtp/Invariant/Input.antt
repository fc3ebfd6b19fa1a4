-- ===== src/Smtp/Invariant/Input.antt =====
-- What the connection does keeps the invariant: smtp_io() of usr.sbin/smtpd/smtp_session.c.
use open_smtpd.Base.{
  ◌≡◌, refl, sym, ap, subst, ◌∙◌, ◌≢◌, Bool, true, false, not, ◌&&◌, ◌||◌, none, some, [], arith,
  if◌then◌else◌,
}
use open_smtpd.Smtp.Types.{
  State, state_new, state_connected, state_tls, state_helo, state_auth_init, state_auth_username,
  state_auth_password, state_auth_finalize, state_body, state_quit, Session, Env,
}
use open_smtpd.Smtp.Session.{smtp_enter_state, smtp_reply, io_set_read, io_set_write, smtp_free}
use open_smtpd.Smtp.Proceed.{smtp_send_banner, smtp_tls_init}
use open_smtpd.Smtp.Io.{smtp_tls_started, io_tlsready, lowat_in, io_lowat, bad_line}
use open_smtpd.Smtp.Invariant.Defs.{
  Closed, Shape, is_opening, Rest, Situation, over, ready, awaits, pauses, secures, filters, Inv,
  Kept, Good, Good-Kept, replied-Done, Shape-at, Allowed-none,
}
use open_smtpd.Smtp.Invariant.Transaction.{smtp_free-Good}
use open_smtpd.Smtp.Invariant.Commands.{tls_init-Good}

-- The session reads input from its client.
abbrev pub Reads : Env → Session → Type 0
Reads e s = Rest e s × (s.reading ≡ true) × (s.queued ≡ false) × Shape s.state s

-- The end of a connection: the session reads or has output.
pub free-Good :
    (e : Env) (s : Session)
    → Inv e s
    → (not s.freed && (s.reading || s.queued)) ≡ true
    → Good e (smtp_free e s)
free-Good e s i h = by_situation i.situation
  where
    by_situation : Situation e s → Good e (smtp_free e s)
    by_situation (over (z, p, f) (r, q) n) = absurd (ground arith)
    by_situation (ready (z, p, hs, f) q sh) = smtp_free-Good e s i.bound z p
    by_situation (awaits v (z, p, hs, f) (r, q) pe) = absurd (ground arith)
    by_situation (pauses (z, p, hs, f) (r, q) n) = absurd (ground arith)
    by_situation (secures (z, p, hs, f) (r, q) n) = smtp_free-Good e s i.bound z p
    by_situation (filters (z, p, hs, f) (r, q) st fi) = absurd (ground arith)

-- TLS has started: the banner, or the commands.
banner-Shape :
    (s : Session) (st : State)
    → is_opening st ≡ true
    → s.tx ≡ none
    → s.helo ≡ []
    → s.reading ≡ false
    → Shape st s
banner-Shape s state_connected o n he r = (n, he)
banner-Shape s state_tls o n he r = (n, r)
banner-Shape s st o n he r = cc

pub tlsready-Kept :
    (e : Env) (s : Session)
    → Inv e s
    → (s.handshake && not s.freed) ≡ true
    → Kept e (some (io_tlsready e s))
unfolding io_tlsready smtp_tls_started
tlsready-Kept e s i h = by_situation i.situation
  where
    by_situation :
        Situation e s
        → Kept e (
            some (
              smtp_tls_started e (record s {
                handshake = false;
                secure = true;
                verified = s.verified || e.f_tls_verify;
                helo = [];
              })))
    by_situation (over (z, p, f) r n) = absurd (ground arith)
    by_situation (ready (z, p, hs, f) q sh) = absurd (ground arith)
    by_situation (awaits v (z, p, hs, f) q pe) = absurd (ground arith)
    by_situation (pauses (z, p, hs, f) q n) = absurd (ground arith)
    by_situation (filters (z, p, hs, f) q st fi) = absurd (ground arith)
    by_situation (secures (z, p, hs, f) (r, q) (n, o)) = by_smtps e.f_smtps
      where
        t : Session
        t = record s {
          handshake = false;
          secure = true;
          verified = s.verified || e.f_tls_verify;
          helo = [];
        }

        by_smtps :
            (b : Bool)
            → Kept e (
                some
                  (if b then smtp_send_banner (io_set_write t) else smtp_enter_state state_helo t))
        by_smtps true =
            unfold smtp_send_banner smtp_reply io_set_write in
            Good-Kept e (some _) (
              replied-Done (z, p, refl, f, i.bound, Allowed-none e t n) refl refl
                (banner-Shape _ s.state o n refl refl))
        by_smtps false =
            unfold smtp_enter_state in
            record {
              bound = i.bound;
              allowed = Allowed-none e t n;
              situation = ready (z, p, refl, f) (q ∙ ap not (sym r)) (subst Closed (sym n) tt);
            }

-- All output is gone: the session ends, starts TLS or reads.
reading-Shape :
    (s : Session) (st : State)
    → Shape st s
    → st ≢ state_quit
    → st ≢ state_tls
    → Shape st (record s { queued = false; reading = true })
reading-Shape s state_new sh q t = absurd sh
reading-Shape s state_connected sh q t = sh
reading-Shape s state_tls sh q t = absurd (t refl)
reading-Shape s state_helo sh q t = sh
reading-Shape s state_auth_init sh q t = sh
reading-Shape s state_auth_username sh q t = sh
reading-Shape s state_auth_password sh q t = sh
reading-Shape s state_auth_finalize sh q t = absurd sh
reading-Shape s state_body sh q t = sh
reading-Shape s state_quit sh q t = absurd (q refl)

pub lowat-Kept :
    (e : Env) (s : Session) → Inv e s → (s.queued && not s.reading) ≡ true → Kept e (io_lowat e s)
unfolding io_lowat
lowat-Kept e s i h = by_situation i.situation
  where
    in_state :
        (st : State)
        → s.state ≡ st
        → (s.waits ≡ []) × (s.paused ≡ false) × (s.handshake ≡ false) × (s.freed ≡ false)
        → Shape st s
        → Kept e (lowat_in st e (record s { queued = false }))
    in_state state_quit eq (z, p, hs, f) sh =
        unfold lowat_in in
        Good-Kept e (smtp_free e (record s { queued = false }))
          (smtp_free-Good e (record s { queued = false }) i.bound z p)
    in_state state_tls eq (z, p, hs, f) sh =
        unfold lowat_in in
        Good-Kept e (smtp_tls_init e (record s { queued = false })) (
          tls_init-Good e (record s { queued = false }) (z, p, hs, f, i.bound, i.allowed) refl sh.0
            (ap is_opening eq))
    in_state st eq (z, p, hs, f) sh =
        unfold lowat_in io_set_read in
        record {
          bound = i.bound;
          allowed = i.allowed;
          situation =
              ready (z, p, hs, f) refl
                (Shape-at st _ eq (reading-Shape s st sh (λ x. cc) (λ x. cc)));
        }

    by_situation : Situation e s → Kept e (lowat_in s.state e (record s { queued = false }))
    by_situation (over (z, p, f) (r, q) n) = absurd (ground arith)
    by_situation (ready c q sh) = in_state s.state refl c sh
    by_situation (awaits v c (r, q) pe) = absurd (ground arith)
    by_situation (pauses c (r, q) n) = absurd (ground arith)
    by_situation (secures c (r, q) n) = absurd (ground arith)
    by_situation (filters c (r, q) st fi) = absurd (ground arith)

pub bad_line-Good : (e : Env) (s : Session) → Rest e s → Good e (some (bad_line s))
unfolding bad_line smtp_reply smtp_enter_state io_set_write
bad_line-Good e s rest = replied-Done rest refl refl refl
