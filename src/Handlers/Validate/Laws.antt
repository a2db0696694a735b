-- ===== src/Handlers/Validate/Laws.antt =====
-- handlers/server.go, handleValidate: who is let through.
use mathlib.Core.Path.{subst}
use mathlib.Core.Bool.{or-true}
use xal_tor_ka.Base.{
  String, ◌≡◌, refl, sym, ◌∙◌, ◌↔◌, ◌⊎◌, inl, inr, Bool, true, false, not, ◌||◌, Option, none, some,
  arith, ◌==◌, eq_iff, eq_refl, if◌then◌else◌, Bool-cases, Option-cases, some_eq, or→either, In,
  any→In, In→any,
}
use xal_tor_ka.Models.Services.{Route, Backend}
use xal_tor_ka.Models.Identity.{User, Session}
use xal_tor_ka.Models.Grants.{
  rule_public, rule_authenticated, rule_authorized, effective_grant_id, canonical_rule,
}
use xal_tor_ka.Auth.Directory.{get_user}
use xal_tor_ka.Matrix.{Resolved, hit, no_route, no_host, resolve, authorized}
use xal_tor_ka.Handlers.Net.{NetLib, Request}
use xal_tor_ka.Handlers.Server.{Server, Moment, session}
use xal_tor_ka.Handlers.Validate.{
  Verdict, status_ok, request_host, request_path, answer_authenticated, may_use, answer_authorized,
  answer_rule, ip_denied, answer_resolved, handle_validate,
}

-- The request carries a live session that has its second factor.
abbrev pub Verified : Moment → Request → Server → Session → Type 0
Verified t r s sess = ((session t r s).0 ≡ some sess) × (sess.two_fa_done ≡ true)

-- The user of the session is known, and is an administrator or holds the grant of the route.
abbrev pub Entitled : Server → Backend → Route → Session → Type 0
Entitled s be rt sess =
    (u : User) × (get_user s.users sess.email ≡ some u)
    × ((u.admin ≡ true) ⊎ In (effective_grant_id be rt) u.backends)

-- What the rule of the route asks for.
abbrev pub RuleMet : Moment → Request → Server → Backend → Route → Type 0
RuleMet t r s be rt =
    (canonical_rule rt.rule ≡ rule_public)
    ⊎ ((sess : Session) × (canonical_rule rt.rule ≡ rule_authenticated) × Verified t r s sess)
    ⊎ ((sess : Session) × (canonical_rule rt.rule ≡ rule_authorized)
        × Verified t r s sess
        × Entitled s be rt sess)

authorized_iff : (u : User) (id : String) → (authorized u id ≡ true) ↔ In id u.backends
unfolding authorized
authorized_iff u id = (
  (λ h.
      let (b, i, q) = any→In (λ b. b == id) u.backends h in
      subst (λ x. In x u.backends) ((eq_iff b id).0 q) i),
  (λ i. In→any (λ b. b == id) id u.backends i (eq_refl id)),
)

may_use_iff :
    (s : Server) (be : Backend) (rt : Route) (sess : Session)
    → (may_use (get_user s.users sess.email) be rt ≡ true) ↔ Entitled s be rt sess
unfolding may_use
may_use_iff s be rt sess = elim (Option-cases (get_user s.users sess.email)) [
  | inl e ↦ ((λ h. cc (rw (e, may_use) at h)), (λ (u, q, _). cc))
  | inr (u, e) ↦ (
    (λ h. (
      u,
      e,
      elim (or→either u.admin _ (rw (e, may_use) at h)) [
        | inl a ↦ inl a
        | inr a ↦ inr ((authorized_iff u (effective_grant_id be rt)).0 a)
      ],
    )),
    (λ (v, q, k). rw (e, may_use) (allowed v (some_eq (sym q ∙ e)) k)),
  )
]
  where
    allowed :
        {u : User} (v : User)
        → v ≡ u
        → ((v.admin ≡ true) ⊎ In (effective_grant_id be rt) v.backends)
        → (u.admin || authorized u (effective_grant_id be rt)) ≡ true
    allowed v e (inl a) = rw (← e) (rw a refl)
    allowed v e (inr i) =
        rw (← e) (rw ((authorized_iff v (effective_grant_id be rt)).1 i) (or-true v.admin))

answer_authorized_iff :
    (s : Server) (be : Backend) (rt : Route) (o : Option Session)
    → ((answer_authorized s be rt o).status ≡ status_ok)
      ↔ ((sess : Session) × (o ≡ some sess) × (sess.two_fa_done ≡ true) × Entitled s be rt sess)
unfolding answer_authorized
answer_authorized_iff s be rt none = ((λ h. absurd (omega arith)), (λ (sess, q, _, _). cc))
answer_authorized_iff s be rt (some sess) = (forward, back)
  where
    forward :
        (answer_authorized s be rt (some sess)).status ≡ status_ok
        → (x : Session) × (some sess ≡ some x) × (x.two_fa_done ≡ true) × Entitled s be rt x
    forward h = elim (Bool-cases sess.two_fa_done) [
      | inl done ↦ elim (Bool-cases (may_use (get_user s.users sess.email) be rt)) [
        | inl may ↦ (sess, refl, done, (may_use_iff s be rt sess).0 may)
        | inr no_grant ↦ absurd (omega (arith, rw (done, no_grant) at h))
      ]
      | inr not_done ↦ absurd (omega (arith, rw not_done at h))
    ]

    back :
        ((x : Session) × (some sess ≡ some x) × (x.two_fa_done ≡ true) × Entitled s be rt x)
        → (answer_authorized s be rt (some sess)).status ≡ status_ok
    back (x, q, done, may) =
        let same : sess ≡ x = some_eq q in
        rw same (rw done (rw ((may_use_iff s be rt x).1 may) refl))

answer_authenticated_iff :
    (o : Option Session)
    → ((answer_authenticated o).status ≡ status_ok)
      ↔ ((sess : Session) × (o ≡ some sess) × (sess.two_fa_done ≡ true))
unfolding answer_authenticated
answer_authenticated_iff none = ((λ h. absurd (omega arith)), (λ (sess, q, _). cc))
answer_authenticated_iff (some sess) = (
  (λ h. elim (Bool-cases sess.two_fa_done) [
    | inl done ↦ (sess, refl, done)
    | inr not_done ↦ absurd (omega (arith, rw not_done at h))
  ]),
  (λ (x, q, done). rw (some_eq q) (rw done refl)),
)

module _ (t : Moment) (r : Request) (be : Backend) (rt : Route) (s : Server) where
  answer_rule-RuleMet : (answer_rule t r be rt s).0.status ≡ status_ok → RuleMet t r s be rt
  unfolding answer_rule
  answer_rule-RuleMet h = elim (Bool-cases (canonical_rule rt.rule == rule_public)) [
    | inl p ↦ inl ((eq_iff _ _).0 p)
    | inr p ↦ elim (Bool-cases (canonical_rule rt.rule == rule_authenticated)) [
      | inl q ↦
          let (sess, e, done) = (answer_authenticated_iff _).0 (rw (p, q) at h) in
          inr (inl (sess, (eq_iff _ _).0 q, (e, done)))
      | inr q ↦ elim (Bool-cases (canonical_rule rt.rule == rule_authorized)) [
        | inl k ↦
            let (sess, e, done, may) = (answer_authorized_iff s be rt _).0 (rw (p, q, k) at h) in
            inr (inr (sess, (eq_iff _ _).0 k, (e, done), may))
        | inr k ↦ absurd (omega (arith, rw (p, q, k) at h))
      ]
    ]
  ]

  RuleMet-answer_rule : RuleMet t r s be rt → (answer_rule t r be rt s).0.status ≡ status_ok
  unfolding answer_rule
  RuleMet-answer_rule (inl e) = rw e refl
  RuleMet-answer_rule (inr (inl (sess, e, (live, done)))) =
      rw e ((answer_authenticated_iff _).1 (sess, live, done))
  RuleMet-answer_rule (inr (inr (sess, e, (live, done), may))) =
      rw e ((answer_authorized_iff s be rt _).1 (sess, live, done, may))

-- Who is let through: everybody where the gate only proxies, else a request that a route covers,
-- that the backend's list of networks does not exclude, and that meets the rule of the route.
abbrev pub Permitted : NetLib → Moment → Request → Server → Type 0
Permitted net t r s =
    (s.cfg.auth_mode ≡ false)
    ⊎ ((be : Backend) × (rt : Route) × (resolve s.resolver (request_host r) (request_path r)
          ≡ hit be rt)
        × (ip_denied net r be s ≡ false)
        × RuleMet t r s be rt)

module _ (net : NetLib) (t : Moment) (r : Request) (s : Server) where
  answer_hit_iff :
      (be : Backend) (rt : Route)
      → ((answer_resolved net t r (hit be rt) s).0.status ≡ status_ok)
        ↔ ((ip_denied net r be s ≡ false) × RuleMet t r s be rt)
  unfolding answer_resolved
  answer_hit_iff be rt = elim (Bool-cases (ip_denied net r be s)) [
    | inl d ↦ ((λ h. absurd (omega (arith, rw d at h))), (λ (e, _). cc))
    | inr d ↦ (
      (λ h. (d, answer_rule-RuleMet t r be rt s (rw d at h))),
      (λ (_, met). rw d (RuleMet-answer_rule t r be rt s met)),
    )
  ]

  answer_resolved_iff :
      (o : Resolved)
      → ((answer_resolved net t r o s).0.status ≡ status_ok) ↔ (
          (be : Backend) × (rt : Route) × (o ≡ hit be rt)
          × (ip_denied net r be s ≡ false)
          × RuleMet t r s be rt)
  unfolding answer_resolved
  answer_resolved_iff (hit be rt) = (
    (λ h. let (d, met) = (answer_hit_iff be rt).0 h in (be, rt, refl, d, met)),
    (λ (b, q, e, d, met).
        subst (λ x. (answer_resolved net t r x s).0.status ≡ status_ok) (sym e)
          ((answer_hit_iff b q).1 (d, met))),
  )
  answer_resolved_iff (no_route h) = ((λ k. absurd (omega (arith, k))), (λ (b, q, e, _, _). cc))
  answer_resolved_iff no_host = ((λ k. absurd (omega (arith, k))), (λ (b, q, e, _, _). cc))

status_if :
    (b : Bool) (v w : Verdict × Server) → b ≡ true → (if not b then v else w).0.status ≡ w.0.status
status_if b v w e = rw e refl

-- The answer is 200 exactly if the gate only proxies, or if a route covers the request, the networks
-- of the backend do not exclude the client, and the rule of the route is met: it is public, or the
-- request has a live session with its second factor and, for the rule authorized, the session's
-- user is known and is an administrator or holds the grant of the route.
pub handle_validate_iff :
    (net : NetLib) (t : Moment) (r : Request) (s : Server)
    → ((handle_validate net t r s).0.status ≡ status_ok) ↔ Permitted net t r s
unfolding handle_validate
handle_validate_iff net t r s = elim (Bool-cases s.cfg.auth_mode) [
  | inl on ↦ (
    (λ h. inr ((answer_resolved_iff net t r s _).0 (sym (status_if s.cfg.auth_mode _ _ on) ∙ h))),
    (λ p. elim p [
      | inl off ↦ cc
      | inr q ↦ status_if s.cfg.auth_mode _ _ on ∙ (answer_resolved_iff net t r s _).1 q
    ]),
  )
  | inr off ↦ ((λ _. inl off), (λ _. rw off refl))
]
