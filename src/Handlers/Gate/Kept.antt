-- ===== src/Handlers/Gate/Kept.antt =====
-- handlers/adminauth.go: what the guard of the administration changes of the server, the sessions
-- and the log of failures, and nothing else.
use xal_tor_ka.Base.{
  String, ◌≡◌, refl, ap, ◌∙◌, Bool, true, false, not, Option, none, some, List, [], ◌∷◌, ◌++◌,
  if◌then◌else◌, Dict, lookup,
}
use xal_tor_ka.Models.Identity.{Session}
use xal_tor_ka.Auth.Sessions.{get}
use xal_tor_ka.Auth.Directory.{get_user}
use xal_tor_ka.Handlers.Net.{NetLib, Request}
use xal_tor_ka.Handlers.Next.{UrlLib}
use xal_tor_ka.Handlers.Reply.{Response, page, answer, error_page}
use xal_tor_ka.Handlers.Server.{Server, Moment, Failure, session, audit_fail, admin_allowed}
use xal_tor_ka.Handlers.Gate.{
  check_admin, admin_denied, admin_session_ok, admin_guard, check_form, is_admin, to_login,
}

-- s' is s but for the sessions and the log.
abbrev pub Kept : Server → Server → Type 0
Kept s s' = s' ≡ record s { sessions = s'.sessions; audit = s'.audit }

Kept-trans : (s s' s'' : Server) → Kept s s' → Kept s' s'' → Kept s s''
Kept-trans s s' s'' h k =
    let with_both : Server → Server =
      (λ x. record x { sessions = s''.sessions; audit = s''.audit }) in
    k ∙ ap with_both h

pub session-Kept : (t : Moment) (r : Request) (s : Server) → Kept s (session t r s).1
unfolding session
session-Kept t r s = by_cookie (lookup s.cfg.session.cookie_name r.cookies)
  where
    by_cookie :
        (o : Option String)
        → let after : Option Session × Server = elim o [
          | none ↦ (none, s)
          | some id ↦
              let (found, store) = get t.written t.now id s.sessions in
              (found, record s { sessions = store })
        ] in
          Kept s after.1
    by_cookie none = refl
    by_cookie (some id) = refl

pub audit_fail-Kept : (event detail : String) (s : Server) → Kept s (audit_fail event detail s)
unfolding audit_fail
audit_fail-Kept event detail s = by_log s.audit
  where
    by_log :
        (o : Option (List Failure))
        → Kept s (elim o [
          | none ↦ s
          | some log ↦ record s {
            audit = some (log ++ (record { event = event; detail = detail } ∷ []));
          }
        ])
    by_log none = refl
    by_log (some log) = refl

Kept-if :
    (b : Bool) (s : Server) (v w : Option Response × Server)
    → Kept s v.1
    → Kept s w.1
    → Kept s (if b then v else w).1
Kept-if true s v w h k = h
Kept-if false s v w h k = k

check_admin-Kept :
    (url : UrlLib) (r : Request) (o : Option Session) (s : Server)
    → Kept s (check_admin url r o s).1
unfolding check_admin admin_denied
check_admin-Kept url r none s = refl
check_admin-Kept url r (some sess) s =
    let stay : Option Response × Server = (some (to_login url r), s) in
    let pass : Option Response × Server = (none, s) in
    let denied = admin_denied sess s in
    Kept-if (not sess.two_fa_done) s stay
      (if is_admin (get_user s.users sess.email) then pass else denied) refl
      (Kept-if (is_admin (get_user s.users sess.email)) s pass denied refl
        (audit_fail-Kept "admin_denied" _ s))

admin_session_ok-Kept :
    (net : NetLib) (url : UrlLib) (t : Moment) (r : Request) (s : Server)
    → Kept s (admin_session_ok net url t r s).1
unfolding admin_session_ok
admin_session_ok-Kept net url t r s =
    Kept-if (not (admin_allowed net r s)) s
      (some (answer (page 403 (error_page "err.forbidden"))), audit_fail "admin_ip" "" s)
      (let (sess, s') = session t r s in check_admin url r sess s')
      (audit_fail-Kept "admin_ip" "" s)
      (Kept-trans s _ _ (session-Kept t r s) (check_admin-Kept url r _ _))

check_form-Kept :
    (r : Request) (s : Server) (a : Option Response × Server)
    → Kept s a.1
    → Kept s (check_form r a).1
unfolding check_form
check_form-Kept r s (some answered, s') h = h
check_form-Kept r s (none, s') h = by_form r.form
  where
    by_form :
        (o : Option (Dict String))
        → let after : Option Response × Server = elim o [
          | none ↦ (some (answer (page 400 (error_page "err.bad_request"))), s')
          | some form ↦ (none, s')
        ] in
          Kept s after.1
    by_form none = h
    by_form (some form) = h

pub admin_guard-Kept :
    (net : NetLib) (url : UrlLib) (t : Moment) (r : Request) (s : Server)
    → Kept s (admin_guard net url t r s).1
unfolding admin_guard
admin_guard-Kept net url t r s = check_form-Kept r s _ (admin_session_ok-Kept net url t r s)
