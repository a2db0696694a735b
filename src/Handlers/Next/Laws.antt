-- ===== src/Handlers/Next/Laws.antt =====
-- handlers/server.go, sanitizeNext: what it returns.
use xal_tor_ka.Base.{
  String, ◌≡◌, refl, ◌⊎◌, inl, inr, true, false, ◌||◌, some, arith, ◌==◌, eq_iff, Bool-cases,
  Option-cases, and→both, or→either, In, any→In, has_prefix,
}
use xal_tor_ka.Models.Services.{Backend}
use xal_tor_ka.Matrix.{Resolver}
use xal_tor_ka.Handlers.Net.{strip_port}
use xal_tor_ka.Handlers.Next.{
  UrlLib, listing, is_local_path, is_known_host, leads_to_backend, sanitize_next,
}

-- A path of this host, or an http or https URL whose host is that of a backend.
abbrev pub Allowed : UrlLib → Resolver → String → Type 0
Allowed url r n =
    ((has_prefix n "/" ≡ true) × (has_prefix n "//" ≡ false))
    ⊎ ((scheme : String) × (host : String) × (be : Backend) × (url.parse_url n
          ≡ some (scheme, host))
        × ((scheme ≡ "http") ⊎ (scheme ≡ "https"))
        × In be r.backends
        × (be.host ≡ strip_port host))

is_local_path-Allowed :
    (url : UrlLib) (r : Resolver) (n : String) → is_local_path n ≡ true → Allowed url r n
unfolding is_local_path
is_local_path-Allowed url r n h = inl (ground arith, ground arith)

leads_to_backend-Allowed :
    (url : UrlLib) (r : Resolver) (n : String) → leads_to_backend url r n ≡ true → Allowed url r n
unfolding leads_to_backend is_known_host
leads_to_backend-Allowed url r n h = elim (Option-cases (url.parse_url n)) [
  | inl e ↦ absurd (cc (rw (e, leads_to_backend) at h))
  | inr ((scheme, host), e) ↦
      let (s, k) =
        and→both (scheme == "http" || scheme == "https") _ (rw (e, leads_to_backend) at h) in
      let (be, i, q) = any→In (λ be. be.host == strip_port host) r.backends k in
      inr (scheme, host, be, e, scheme_cases scheme s, i, (eq_iff _ _).0 q)
]
  where
    scheme_cases :
        (s : String) → (s == "http" || s == "https") ≡ true → (s ≡ "http") ⊎ (s ≡ "https")
    scheme_cases s k = elim (or→either (s == "http") (s == "https") k) [
      | inl e ↦ inl ((eq_iff s "http").0 e)
      | inr e ↦ inr ((eq_iff s "https").0 e)
    ]

local_listing : is_local_path listing ≡ true
unfolding is_local_path has_prefix
local_listing = refl

sanitize-listing : (url : UrlLib) (r : Resolver) → sanitize_next url r listing ≡ listing
unfolding sanitize_next
sanitize-listing url r = rw local_listing refl

-- The target of a redirect is a path of this host or the URL of a known backend, whatever the
-- request asks for. (A path that starts with a slash and a backslash counts as one of this host.)
pub sanitize_next-Allowed :
    (url : UrlLib) (r : Resolver) (n : String) → Allowed url r (sanitize_next url r n)
unfolding sanitize_next
sanitize_next-Allowed url r n = elim (Bool-cases (n == "")) [
  | inl e ↦ rw e (is_local_path-Allowed url r listing local_listing)
  | inr e ↦ elim (Bool-cases (is_local_path n)) [
    | inl p ↦ rw (e, p) (is_local_path-Allowed url r n p)
    | inr p ↦ elim (Bool-cases (leads_to_backend url r n)) [
      | inl q ↦ rw (e, p, q) (leads_to_backend-Allowed url r n q)
      | inr q ↦ rw (e, p, q) (is_local_path-Allowed url r listing local_listing)
    ]
  ]
]

-- Cleaning a target again, as each page of the login does, leaves it as it is.
pub sanitize_next_idem :
    (url : UrlLib) (r : Resolver) (n : String)
    → sanitize_next url r (sanitize_next url r n) ≡ sanitize_next url r n
unfolding sanitize_next
sanitize_next_idem url r n = elim (Bool-cases (n == "")) [
  | inl e ↦ rw e (sanitize-listing url r)
  | inr e ↦ elim (Bool-cases (is_local_path n)) [
    | inl p ↦ rw (e, p) (rw (e, p) refl)
    | inr p ↦ elim (Bool-cases (leads_to_backend url r n)) [
      | inl q ↦ rw (e, p, q) (rw (e, p, q) refl)
      | inr q ↦ rw (e, p, q) (sanitize-listing url r)
    ]
  ]
]
