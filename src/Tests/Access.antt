-- ===== src/Tests/Access.antt =====
-- Who reaches a service and the administration, at concrete requests.
use xal_tor_ka.Base.{some, ◌≤◌, ◌≡◌, refl, ◌↔◌, ◌⊎◌, inl, inr, true, false, none, [], ◌∷◌, In}
use xal_tor_ka.Models.Services.{Route, Backend}
use xal_tor_ka.Models.Grants.{grant_id, effective_grant_id}
use xal_tor_ka.Models.Grants.Laws.{Governs, anchor, effective_grant_id_lem}
use xal_tor_ka.Matrix.{resolve, hit, miss}
use xal_tor_ka.Matrix.Laws.{Covers, resolve_lem}
use xal_tor_ka.Handlers.Server.{Server}
use xal_tor_ka.Handlers.Next.{sanitize_next}
use xal_tor_ka.Handlers.Next.Laws.{Allowed, sanitize_next-Allowed}
use xal_tor_ka.Handlers.Gate.{admin_session_ok}
use xal_tor_ka.Handlers.Gate.Laws.{Administrator, admin_session_ok_iff}
use xal_tor_ka.Handlers.Validate.{handle_validate, status_ok}
use xal_tor_ka.Handlers.Validate.Laws.{Permitted, handle_validate_iff}
use xal_tor_ka.Providers.Ldap.{escape_dn_value}
use xal_tor_ka.Providers.Ldap.Laws.{read_chars, read_dn_value, read-escape_dn_value}
use Prim.Native.String.{len, ◌++◌ as str_append}
use xal_tor_ka.Tests.Fixtures.{
  net_lib, url_lib, app, root_route, team_route, files_route, resolver, server, request, at_20,
}

handle_validate_example :
    ((handle_validate net_lib at_20 (request "b" "/team/x") server).0.status ≡ status_ok)
    ↔ Permitted net_lib at_20 (request "b" "/team/x") server
handle_validate_example = handle_validate_iff net_lib at_20 (request "b" "/team/x") server

resolve_example :
    ((be : Backend) × (rt : Route) × (resolve resolver "app.local" "/team/x" ≡ hit be rt)
      × Covers "app.local" "/team/x" resolver.backends be rt
      × ((b : Backend) (s : Route)
          → Covers "app.local" "/team/x" resolver.backends b s
          → len s.path ≤ len rt.path))
    ⊎ ((resolve resolver "app.local" "/team/x" ≡ miss "app.local" resolver.backends)
        × ((b : Backend) (s : Route) → ¬ Covers "app.local" "/team/x" resolver.backends b s))
resolve_example = resolve_lem resolver "app.local" "/team/x"

effective_grant_id_example :
    ((files_route.own_grants ≡ true)
      × (effective_grant_id app files_route ≡ grant_id app.id files_route.path))
    ⊎ ((files_route.own_grants ≡ false)
        × ((r : Route) → In r app.routes → Governs files_route.path r → anchor r ≡ "")
        × (effective_grant_id app files_route ≡ app.id))
    ⊎ ((r : Route) × (files_route.own_grants ≡ false)
        × In r app.routes
        × Governs files_route.path r
        × ((s : Route)
            → In s app.routes
            → Governs files_route.path s
            → len (anchor s) ≤ len (anchor r))
        × (effective_grant_id app files_route ≡ grant_id app.id (anchor r)))
effective_grant_id_example = effective_grant_id_lem app files_route

swap_routes :
    (r : Route) → In r app.routes → In r (team_route ∷ root_route ∷ files_route ∷ team_route ∷ [])
swap_routes r (inl e) = inr (inl e)
swap_routes r (inr (inl e)) = inl e
swap_routes r (inr (inr (inl e))) = inr (inr (inl e))
swap_routes r (inr (inr (inr i))) = elim i [ ]

swap_back :
    (r : Route) → In r (team_route ∷ root_route ∷ files_route ∷ team_route ∷ []) → In r app.routes
swap_back r (inl e) = inr (inl e)
swap_back r (inr (inl e)) = inl e
swap_back r (inr (inr (inl e))) = inr (inr (inl e))
swap_back r (inr (inr (inr (inl e)))) = inr (inl e)
swap_back r (inr (inr (inr (inr i)))) = elim i [ ]

admin_session_ok_example :
    ((admin_session_ok net_lib url_lib at_20 (request "a" "/admin") server).0 ≡ none)
    ↔ Administrator net_lib at_20 (request "a" "/admin") server
admin_session_ok_example = admin_session_ok_iff net_lib url_lib at_20 (request "a" "/admin") server

sanitize_next-Allowed_example :
    Allowed url_lib resolver (sanitize_next url_lib resolver "https://app.local/x")
sanitize_next-Allowed_example = sanitize_next-Allowed url_lib resolver "https://app.local/x"

abbrev direct : Server
direct = record server {
  cfg = record (server.cfg) {
    server = record (server.cfg.server) { trusted_proxies = "proxy" ∷ [] };
  };
}

read-escape_dn_value_example :
    read_dn_value (str_append (escape_dn_value "eve,ou=admins") ",ou=people")
    ≡ some ("eve,ou=admins", ",ou=people")
unfolding read_dn_value read_chars
read-escape_dn_value_example = read-escape_dn_value "eve,ou=admins" ",ou=people" refl refl refl
