-- ===== src/Handlers/Admin/Scan.antt =====
-- handlers/admin.go: services made of containers and of open ports. strings.ToLower is an argument.
use Prim.Native.String.{◌++◌ as str_append}
use xal_tor_ka.Base.{
  ℕ, String, false, ◌&&◌, Option, none, some, List, [], ◌∷◌, ◌++◌, ◌==◌, leb, if◌then◌else◌, ℤ, pos,
}
use xal_tor_ka.Models.Services.{Backend, Services}
use xal_tor_ka.Config.Validate.{atoi}
use xal_tor_ka.Handlers.Net.{NetLib, Request, form_value, form_list}
use xal_tor_ka.Handlers.Next.{UrlLib}
use xal_tor_ka.Handlers.Reply.{Response, quoting}
use xal_tor_ka.Handlers.Server.{Server}
use xal_tor_ka.Handlers.Services.{no_options}
use xal_tor_ka.Handlers.Admin.{
  Effects, Edited, refused, edited, id_taken, bad_request, guarded, edit_services,
}
use xal_tor_ka.Handlers.Admin.Upstream.{sanitize_name, decimal_digits}
use xal_tor_ka.Handlers.Admin.Form.{route, rule_or_authorized}

-- fmt.Sprintf("%d", port) for a port of at most five digits
unfoldable pub port_text : ℕ → String
port_text port = decimal_digits 5 port

unfoldable pub scanned_upstream : ℕ → String
scanned_upstream port = str_append "http://host.docker.internal:" (port_text port)

unfoldable pub scanned_backend : String → ℕ → String → Backend
scanned_backend name port rule =
    let host = str_append name ".localhost" in
    record {
      id = name;
      name = name;
      description = "";
      host = host;
      url = str_append "//" host;
      www = false;
      disabled = false;
      unlisted = false;
      image = "";
      ip_allow = [];
      routes = route "/" rule (scanned_upstream port) false ∷ [];
      health = record {
        url = str_append (scanned_upstream port) "/";
        interval_seconds = pos 30;
        timeout_seconds = pos 5;
      };
      nginx = no_options;
      hosting = none;
      waf = none;
    }

-- port > 0 && port <= 65535
unfoldable pub port_of : Option ℤ → Option ℕ
port_of (some (pos n)) = if leb 1 n && leb n 65535 then some n else none
port_of _ = none

unfoldable pub add_discovered : Server → String → Backend → Services → Edited Services
add_discovered s name be svc =
    if id_taken s svc name
    then refused (quoting "id " name " already exists")
    else edited (record svc { backends = svc.backends ++ (be ∷ []) })

module _ (lower : String → String) where
  -- the name of a port's service
  unfoldable pub scanned_name : Request → String → ℕ → String
  scanned_name r ps port =
      let name = sanitize_name lower (form_value r (str_append "name_" ps)) in
      if name == "" then str_append "host-" (port_text port) else name

  -- one round of the loop of handleHostScanAdd
  unfoldable pub add_scanned : Server → Request → Services → String → Services
  add_scanned s r svc ps = elim (port_of (atoi ps)) [
    | none ↦ svc
    | some port ↦
        let name = scanned_name r ps port in
        if id_taken s svc name then svc else record svc {
          backends = svc.backends ++ (scanned_backend name port (rule_or_authorized r) ∷ []);
        }
  ]

  unfoldable pub add_all_scanned : Server → Request → List String → Services → Services
  add_all_scanned s r [] svc = svc
  add_all_scanned s r (ps ∷ pss) svc = add_all_scanned s r pss (add_scanned s r svc ps)

module _ (net : NetLib) (lower : String → String) (url : UrlLib) (e : Effects) where
  unfoldable pub discover_add : Request → Server → Response × Server
  discover_add r s =
      let name = sanitize_name lower (form_value r "name") in
      elim (port_of (atoi (form_value r "port"))) [
        | none ↦ (bad_request "err.invalid_container_port", s)
        | some port ↦
            if name == ""
            then (bad_request "err.invalid_container_port", s)
            else edit_services url e
                (add_discovered s name (scanned_backend name port (rule_or_authorized r))) r s
      ]

  unfoldable pub handle_discover_add : Request → Server → Response × Server
  handle_discover_add = guarded net url e discover_add

  unfoldable pub handle_host_scan_add : Request → Server → Response × Server
  handle_host_scan_add = guarded net url e (λ r s.
      edit_services url e (λ svc. edited (add_all_scanned lower s r (form_list r "ports") svc)) r s)
