-- ===== src/Handlers/Gate/Laws.antt =====
-- handlers/adminauth.go: who reaches the administration.
use xal_tor_ka.Base.{
  ◌≡◌, refl, sym, ◌∙◌, ◌↔◌, inl, inr, Bool, true, false, not, Option, none, some, if◌then◌else◌,
  Bool-cases, Option-cases, some_eq, lookup,
}
use xal_tor_ka.Models.Identity.{User, Session}
use mathlib.Core.Path.{subst}
use xal_tor_ka.Auth.Directory.{get_user}
use xal_tor_ka.Handlers.Net.{NetLib, Request, client_ip, ip_in_cidrs}
use xal_tor_ka.Handlers.Next.{UrlLib}
use xal_tor_ka.Handlers.Reply.{Response}
use xal_tor_ka.Handlers.Server.{Server, Moment, session, admin_allowed, effective_admin_ips}
use xal_tor_ka.Handlers.Gate.{is_admin, admin_denied, check_admin, admin_session_ok}

-- The request comes from a listed network and carries a session with its second factor, whose user
-- is an administrator.
abbrev pub Administrator : NetLib → Moment → Request → Server → Type 0
Administrator net t r s =
    (ip_in_cidrs net (client_ip net r s.cfg.server.trusted_proxies) (effective_admin_ips s) ≡ true)
    × ((sess : Session) × ((session t r s).0 ≡ some sess)
        × (sess.two_fa_done ≡ true)
        × ((u : User) × (get_user s.users sess.email ≡ some u) × (u.admin ≡ true)))

is_admin-user : (o : Option User) → is_admin o ≡ true → (u : User) × (o ≡ some u) × (u.admin ≡ true)
unfolding is_admin
is_admin-user none h = cc
is_admin-user (some u) h = (u, refl, h)

session-users : (t : Moment) (r : Request) (s : Server) → (session t r s).1.users ≡ s.users
unfolding session
session-users t r s = elim (Option-cases (lookup s.cfg.session.cookie_name r.cookies)) [
  | inl e ↦ rw (e, session) refl
  | inr (id, e) ↦ rw (e, session) refl
]

module _ (url : UrlLib) (r : Request) where
  check_admin_iff :
      (o : Option Session) (s : Server)
      → ((check_admin url r o s).0 ≡ none) ↔ (
          (sess : Session) × (o ≡ some sess)
          × (sess.two_fa_done ≡ true)
          × ((u : User) × (get_user s.users sess.email ≡ some u) × (u.admin ≡ true)))
  unfolding check_admin admin_denied is_admin
  check_admin_iff none s = ((λ h. cc), (λ (sess, e, _, _). cc))
  check_admin_iff (some sess) s = (forward, back)
    where
      forward :
          (check_admin url r (some sess) s).0 ≡ none
          → (x : Session) × (some sess ≡ some x)
            × (x.two_fa_done ≡ true)
            × ((u : User) × (get_user s.users x.email ≡ some u) × (u.admin ≡ true))
      forward h = elim (Bool-cases sess.two_fa_done) [
        | inr not_done ↦ absurd (cc (rw not_done at h))
        | inl done ↦ elim (Bool-cases (is_admin (get_user s.users sess.email))) [
          | inl admin ↦ (sess, refl, done, is_admin-user _ admin)
          | inr no_admin ↦ absurd (cc (rw (done, no_admin) at h))
        ]
      ]

      back :
          ((x : Session) × (some sess ≡ some x)
            × (x.two_fa_done ≡ true)
            × ((u : User) × (get_user s.users x.email ≡ some u) × (u.admin ≡ true)))
          → (check_admin url r (some sess) s).0 ≡ none
      back (x, q, done, (u, known, admin)) =
          rw (some_eq q) (rw done (rw (admin_known u known admin) refl))
        where
          admin_known :
              (u : User)
              → get_user s.users x.email ≡ some u
              → u.admin ≡ true
              → is_admin (get_user s.users x.email) ≡ true
          admin_known u known admin = rw (known, is_admin) admin

first_if : (b : Bool) (v w : Option Response × Server) → b ≡ true → (if not b then v else w).0 ≡ w.0
first_if b v w e = rw e refl

refused_if :
    (b : Bool) (a : Response) (s : Server) (w : Option Response × Server)
    → b ≡ false
    → (if not b then (some a, s) else w).0 ≡ some a
refused_if b a s w e = rw e refl

-- A request passes the gate of the administration exactly if it is an administrator's; every other
-- one gets an answer there.
pub admin_session_ok_iff :
    (net : NetLib) (url : UrlLib) (t : Moment) (r : Request) (s : Server)
    → ((admin_session_ok net url t r s).0 ≡ none) ↔ Administrator net t r s
unfolding admin_session_ok admin_allowed
admin_session_ok_iff net url t r s = elim (Bool-cases (admin_allowed net r s)) [
  | inr out ↦
      ((λ h. absurd (cc (refused_if (admin_allowed net r s) _ _ _ out, h))), (λ (listed, _). cc))
  | inl ok ↦
      let same = first_if (admin_allowed net r s) _ _ ok in
      (
        (λ h.
            let (sess, e, done, (u, known, admin)) = (check_admin_iff url r _ _).0 (sym same ∙ h) in
            (
              ok,
              (
                sess,
                e,
                done,
                (u, subst (λ d. get_user d sess.email ≡ some u) (session-users t r s) known, admin),
              ),
            )),
        (λ (_, (sess, e, done, (u, known, admin))).
            same
            ∙ (check_admin_iff url r _ _).1 (
              sess,
              e,
              done,
              (
                u,
                subst (λ d. get_user d sess.email ≡ some u) (sym (session-users t r s)) known,
                admin,
              ),
            )),
      )
]
