-- ===== src/Models/Grants.antt =====
-- models/config.go: the access rules, and which grant governs a route.
pub mod Laws
use Prim.Native.String.{len, ◌++◌ as str_append}
use xal_tor_ka.Base.{
  ℕ, String, Bool, List, [], ◌∷◌, map, ◌&&◌, ◌||◌, not, ◌==◌, ltb, if◌then◌else◌, has_prefix,
  trim_right,
}
use xal_tor_ka.Models.Services.{Backend, Route}

abbrev pub rule_public : String
rule_public = "public"

abbrev pub rule_authenticated : String
rule_authenticated = "authenticated"

abbrev pub rule_authorized : String
rule_authorized = "authorized"

abbrev pub rule_whitelist_legacy : String
rule_whitelist_legacy = "whitelist"

-- the request path lies at or below the path `base`, on a segment boundary
unfoldable pub is_at_or_below : String → String → Bool
is_at_or_below path base = path == base || has_prefix path (str_append base "/")

-- a route path that stands for the whole host
unfoldable pub is_root_path : String → Bool
is_root_path p = p == "" || p == "/"

unfoldable pub grant_id : String → String → String
grant_id backend_id path =
    if is_root_path path then backend_id else str_append backend_id (str_append "#" path)

-- one round of the loop of EffectiveGrantID over the routes of the backend
unfoldable pub nearest_step : String → String → Route → String
nearest_step path best r =
    if not r.own_grants || is_root_path r.path
    then best
    else let anc = trim_right b'/' r.path in
      if is_at_or_below path anc && ltb (len best) (len anc) then anc else best

unfoldable pub nearest : String → String → List Route → String
nearest path best [] = best
nearest path best (r ∷ rs) = nearest path (nearest_step path best r) rs

unfoldable pub effective_grant_id : Backend → Route → String
effective_grant_id be rt =
    if rt.own_grants
    then grant_id be.id rt.path
    else let best = nearest rt.path "" be.routes in
      if not (best == "") then grant_id be.id best else be.id

unfoldable pub canonical_rule : String → String
canonical_rule r = if r == rule_whitelist_legacy then rule_authorized else r

unfoldable pub canonical_route : Route → Route
canonical_route r = record r { rule = canonical_rule r.rule }

unfoldable pub canonical_backend : Backend → Backend
canonical_backend b = record b { routes = map canonical_route b.routes }

unfoldable pub canonicalize_rules : List Backend → List Backend
canonicalize_rules bs = map canonical_backend bs
