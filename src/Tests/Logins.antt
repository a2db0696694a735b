-- ===== src/Tests/Logins.antt =====
-- The login pages, at concrete forms.
use xal_tor_ka.Base.{String, ◌≡◌, refl, some, [], ◌∷◌, trim_space, Dict, lookup}
use xal_tor_ka.Auth.Sessions.{create}
use xal_tor_ka.Auth.Directory.{get_user}
use xal_tor_ka.Providers.Local.{authenticate_user, authenticate_local}
use xal_tor_ka.Providers.Ldap.{bind_user, authenticate_ldap, escape_dn_value, is_dn_special}
use xal_tor_ka.Handlers.Net.{Request, field}
use xal_tor_ka.Handlers.Reply.{Response}
use xal_tor_ka.Handlers.Server.{Server, session}
use xal_tor_ka.Handlers.Login.{
  clean, cookie_reply, create_session, start_ldap_session, ldap_match, ldap_login, login_with,
  handle_login_submit, handle_totp_submit,
}
use xal_tor_ka.Handlers.Login.Laws.{Reason, login_opens}
use xal_tor_ka.Handlers.Login.Second.{Sha1Length, Finished, totp_completes}
use xal_tor_ka.Tests.Fixtures.{outside, hashes, chance_n, server, form_of}

abbrev login_form : Request
login_form = form_of (("email", "eve") ∷ ("password", "ldap-pw") ∷ ("next", "/team") ∷ [])

login_opens_example :
    (form : Dict String) × (login_form.form ≡ some form)
    × Reason outside chance_n.moment
        (field "email" form)
        (field "password" form)
        (clean outside server (field "next" form))
        server
        chance_n.id
        "n"
        (handle_login_submit outside chance_n login_form server)
unfolding handle_login_submit login_with authenticate_local authenticate_user get_user lookup field
    ldap_login ldap_match authenticate_ldap bind_user escape_dn_value is_dn_special trim_space
    start_ldap_session create_session create cookie_reply
login_opens_example = login_opens outside chance_n login_form server "n" refl

abbrev code_form : Request
code_form = form_of (("code", "281096") ∷ ("next", "/team") ∷ [])

sha1_hashes : Sha1Length hashes
sha1_hashes key msg = refl

totp_completes_example :
    (res : Response × Server) × (handle_totp_submit outside hashes chance_n code_form server
      ≡ some res)
    × Finished outside hashes chance_n code_form (session chance_n.moment code_form server) res
totp_completes_example = totp_completes outside hashes chance_n code_form server sha1_hashes
