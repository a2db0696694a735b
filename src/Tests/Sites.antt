-- ===== src/Tests/Sites.antt =====
-- Reloads and the generated configuration, at the small gate.
use xal_tor_ka.Base.{
  ◌↔◌, ◌≤◌, String, ◌≡◌, refl, ◌⊎◌, true, false, Option, none, some, List, [], ◌∷◌, In, lookup,
  Distinct, pos,
}
use xal_tor_ka.Models.Services.{ProviderCfg, Route, Backend, Services}
use xal_tor_ka.Auth.Otp.{is_cooling, check_entry, verify, issue, must_wait, hash_code}
use xal_tor_ka.Auth.Sessions.{create}
use xal_tor_ka.Auth.Directory.{get_user}
use xal_tor_ka.Matrix.{Resolver, resolve, hit, miss}
use Prim.Native.String.{len}
use xal_tor_ka.Proxy.Group.{location_path}
use xal_tor_ka.Proxy.Locations.{location_paths}
use xal_tor_ka.Handlers.Net.{Request, form_value, field}
use xal_tor_ka.Handlers.Reply.{Response}
use xal_tor_ka.Handlers.Server.{Server}
use xal_tor_ka.Handlers.Services.{reload}
use xal_tor_ka.Handlers.Services.Laws.{InForce, Serves, reload_lem}
use xal_tor_ka.Proxy.Locations.Blocks.{always_written, location_paths_lem}
use xal_tor_ka.Handlers.Login.{create_session, start_session, cookie_reply}
use xal_tor_ka.Handlers.Login.Laws.{Opened}
use xal_tor_ka.Handlers.Code.{
  otp_enabled, deliver_issued, request_code, code_sent, handle_code_request_submit, verify_for,
  after_verify, handle_code_verify_submit,
}
use xal_tor_ka.Handlers.Code.Laws.{CodeLogin, code_opens, code_request_silent}
use xal_tor_ka.Tests.Fixtures.{
  outside, app, service, local_provider, server, form_of, chance_n, at_20,
}

abbrev admin_route : Route
admin_route = record { path = "/admin"; rule = "public"; upstream = "x:1"; own_grants = false }

abbrev panel : Backend
panel = service "a-panel" (admin_route ∷ [])

abbrev group : List Backend
group = panel ∷ app ∷ []

location_paths_lem_example :
    (Distinct (location_paths group) ↔ (
      (be : Backend) (rt : Route)
      → In be group
      → In rt be.routes
      → ¬ In (location_path rt) always_written))
    × ((be : Backend) (rt : Route)
        → In be group
        → In rt be.routes
        → In (location_path rt) (location_paths group))
location_paths_lem_example = location_paths_lem group

abbrev renamed : ProviderCfg
renamed = record local_provider { name = "Local" }

abbrev file : Services
file = record {
  admin_ip_whitelist = [];
  backends = panel ∷ record app { id = "off"; disabled = true } ∷ [];
  links = [];
  monitors = [];
  providers = renamed ∷ [];
}

reload_lem_example :
    (◌≡◌ {A = Option Services} (some file) none
      × (reload (some file) true server ≡ (false, server)))
    ⊎ ((svc : Services) × (some file ≡ some svc)
        × ((reload (some file) true server).0 ≡ true)
        × ((be : Backend)
            → In be (reload (some file) true server).1.resolver.backends ↔ InForce server svc be)
        × ((host path : String)
            → let table : Resolver = (reload (some file) true server).1.resolver in
              ((be : Backend) × (rt : Route) × (resolve table host path ≡ hit be rt)
                × Serves server svc host path be rt
                × ((b : Backend) (r : Route)
                    → Serves server svc host path b r
                    → len r.path ≤ len rt.path))
              ⊎ ((resolve table host path ≡ miss host table.backends)
                  × ((b : Backend) (r : Route) → ¬ Serves server svc host path b r))))
reload_lem_example = reload_lem (some file) true server

abbrev digest : String → String
digest s = s

abbrev code_server : Server
code_server = record server {
  otp = some (record {
    codes = ("bob", record { hash = "xtk-otp:1234"; issued = 10; expires = 110 }) ∷ [];
    ttl = pos 100;
    cooldown = pos 30;
    length = 4;
  });
}

abbrev typed : Request
typed = form_of (("email", "bob") ∷ ("code", "1234") ∷ ("next", "/team") ∷ [])

code_opens_example :
    CodeLogin digest chance_n.moment code_server
      (form_value typed "email")
      (form_value typed "code")
    × Opened chance_n "n"
        (form_value typed "email")
        "otp"
        code_server.cfg.disable_totp
        (handle_code_verify_submit outside digest chance_n typed code_server).1
unfolding handle_code_verify_submit otp_enabled form_value field lookup get_user verify_for verify
    check_entry hash_code after_verify start_session create_session create cookie_reply
code_opens_example = code_opens outside digest chance_n typed code_server "n" refl

abbrev asks : String → Request
asks email = form_of (("email", email) ∷ [])

abbrev waiting : Response × Server
waiting = (code_sent outside digest (asks "bob") code_server, code_server)

abbrev no_users : Server
no_users = record code_server { users = record { by_email = [] } }

abbrev unknown_user : Response × Server
unknown_user = (code_sent outside digest (asks "bob") no_users, no_users)

code_request_silent_example : waiting.0 ≡ unknown_user.0
unfolding handle_code_request_submit otp_enabled form_value field lookup get_user request_code
    deliver_issued issue must_wait is_cooling
code_request_silent_example =
    code_request_silent outside digest at_20 at_20 [] [] (asks "bob") code_server no_users waiting
      unknown_user refl refl refl refl
