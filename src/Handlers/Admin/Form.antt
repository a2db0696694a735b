-- ===== src/Handlers/Admin/Form.antt =====
-- handlers/admin.go: what the forms of a service say, as the values of services.json. What
-- saveListingImage does with the uploaded file is an argument.
use xal_tor_ka.Base.{
  is_space, ℕ, zero, suc, String, Bool, true, false, not, ◌||◌, Option, none, some, List, [], ◌∷◌,
  map, ◌==◌, if◌then◌else◌, trim_right, trim_space, Dict, insert, ℤ, pos, ltb_ℤ, is_pos,
}
use xal_tor_ka.Models.Services.{Route, WafCfg, HostingRef, NginxOpts, Backend}
use xal_tor_ka.Models.Grants.{rule_public, rule_authenticated, rule_authorized, canonical_rule}
use xal_tor_ka.Config.Validate.{atoi}
use xal_tor_ka.Handlers.Number.{atoi_value}
use xal_tor_ka.Handlers.Net.{Request, form_value, form_list}
use xal_tor_ka.Handlers.Services.{no_options}
use xal_tor_ka.Handlers.Admin.Upstream.{split_match, join_match, fields_func}

unfoldable pub is_rule : String → Bool
is_rule rule = rule == rule_public || rule == rule_authenticated || rule == rule_authorized

unfoldable pub slash_or : String → String
slash_or path = if path == "" then "/" else path

-- what saveListingImage returns: an error, no change, a removal, or the name of the new file
pub data Upload : Type 0 where
  upload_failed : Upload
  upload_none : Upload
  upload_removed : Upload
  uploaded : String → Upload

-- a Route of the forms
abbrev pub route : String → String → String → Bool → Route
route path rule upstream own = record {
  path = path;
  rule = rule;
  upstream = upstream;
  own_grants = own;
}

unfoldable pub hosting_of : Request → Option HostingRef
hosting_of r =
    if not (form_value r "hosting_site" == "")
    then some (record { site = form_value r "hosting_site"; vhost = form_value r "hosting_vhost" })
    else none

unfoldable pub backend_of : Request → List String → String → String → Backend
backend_of r ip_allow rule upstream = record {
  id = form_value r "id";
  name = form_value r "name";
  description = "";
  host = form_value r "host";
  url = form_value r "url";
  www = not (form_value r "www" == "");
  disabled = false;
  unlisted = false;
  image = "";
  ip_allow = ip_allow;
  routes = route (slash_or (form_value r "path")) rule upstream false ∷ [];
  health = record { url = ""; interval_seconds = pos 0; timeout_seconds = pos 0 };
  nginx = no_options;
  hosting = hosting_of r;
  waf = none;
}

-- xs[i], none out of range
unfoldable pub nth : List String → ℕ → Option String
nth [] i = none
nth (x ∷ xs) zero = some x
nth (x ∷ xs) (suc i) = nth xs i

-- i < len(xs) && xs[i] == v
unfoldable pub is_at : List String → ℕ → String → Bool
is_at xs i v = elim (nth xs i) [ none ↦ false | some x ↦ x == v ]

-- One path of the form with a rule of its own: the grants are its users where it does not inherit.
pub record Override : Type 0 where
  pub path : String
  pub rule : String
  pub own : Bool
  pub emails : List String

unfoldable pub override_rule : Option String → String
override_rule none = rule_authenticated
override_rule (some orule) = if is_rule orule then orule else "authenticated"

-- one round of the loop, for a path that is not empty
unfoldable pub override_of : Request → ℕ → String → Bool → Override
override_of r i cp exact = record {
  path = join_match cp (exact || is_at (form_list r "omatch") i "exact");
  rule = override_rule (nth (form_list r "orule") i);
  own = is_at (form_list r "oinherit") i "0";
  emails = elim (nth (form_list r "ousers") i) [
    | none ↦ []
    | some text ↦ fields_func is_space text
  ];
}

-- for i, op := range opaths
unfoldable pub overrides : Request → ℕ → List String → List Override
overrides r i [] = []
overrides r i (op ∷ ops) =
    let (cp, exact) = split_match (trim_space op) in
    let rest = overrides r (suc i) ops in if cp == "" then rest else override_of r i cp exact ∷ rest

unfoldable pub override_route : String → Override → Route
override_route up o = route o.path o.rule up o.own

-- the map pathGrants
unfoldable pub path_grants : Dict (List String) → List Override → Dict (List String)
path_grants m [] = m
path_grants m (o ∷ os) = path_grants (if o.own then insert o.path o.emails m else m) os

-- the upstream of the first route, where the hosting panel owns it
unfoldable pub upstream_of : Backend → String → String
upstream_of b upstream = elim b.hosting [
  | none ↦ upstream
  | some ref ↦ elim b.routes [ [] ↦ upstream | rt ∷ rts ↦ rt.upstream ]
]

-- n, _ := strconv.Atoi(strings.TrimSpace(s)); if n < 0 { n = 0 }
unfoldable pub not_negative : String → ℤ
not_negative s = let n = atoi_value (trim_space s) in if ltb_ℤ n (pos 0) then pos 0 else n

-- parseNginxOpts
unfoldable pub parse_nginx_opts : Request → NginxOpts
parse_nginx_opts r = record {
  proxy_timeout = not_negative (form_value r "ngx_timeout");
  max_body_mb = not_negative (form_value r "ngx_maxbody");
  web_socket = not (form_value r "ngx_ws" == "");
  no_buffering = not (form_value r "ngx_nobuf" == "");
  backend_self_signed = not (form_value r "ngx_selfsigned" == "");
  custom_server = trim_space (form_value r "ngx_custom_srv");
  custom_location = trim_space (form_value r "ngx_custom_loc");
}

unfoldable pub disabled_rules_of : List String → List ℤ
disabled_rules_of [] = []
disabled_rules_of (f ∷ fs) =
    let rest = disabled_rules_of fs in
    elim (atoi (trim_right b',' f)) [ none ↦ rest | some n ↦ if is_pos n then n ∷ rest else rest ]

unfoldable pub paranoia_of : Option WafCfg → ℤ × ℤ
paranoia_of none = (pos 0, pos 0)
paranoia_of (some w) = (w.paranoia, w.threshold)

unfoldable pub waf_of : Request → Option WafCfg → Option WafCfg
waf_of r before =
    let (paranoia, threshold) = paranoia_of before in
    if form_value r "waf_enabled" == ""
    then none
    else some (record {
      enabled = true;
      mode = if form_value r "waf_mode" == "block" then "block" else "detect";
      paranoia = paranoia;
      threshold = threshold;
      disabled_rules = disabled_rules_of (fields_func is_space (form_value r "waf_disabled_rules"));
      ignore_ips = map (trim_right b',') (fields_func is_space (form_value r "waf_ignore_ips"));
      custom_rules = trim_space (form_value r "waf_custom_rules");
    })

unfoldable pub image_after : Upload → String → String
image_after upload_removed image = ""
image_after (uploaded name) image = name
image_after _ image = image

-- the rule of the form of handleBackendEdit, handleDiscoverAdd and handleHostScanAdd
unfoldable pub rule_or_authorized : Request → String
rule_or_authorized r =
    let rule = canonical_rule (form_value r "rule") in
    if is_rule rule then rule else rule_authorized

-- the backend behind the edit
unfoldable pub edit_fields : Request → List String → Upload → String → Backend → Backend
edit_fields r ip_allow upload upstream b =
    let up = upstream_of b upstream in
    record b {
      name = form_value r "name";
      description = form_value r "description";
      unlisted = form_value r "listed" == "";
      image = image_after upload b.image;
      host = form_value r "host";
      url = form_value r "url";
      www = not (form_value r "www" == "");
      ip_allow = ip_allow;
      nginx = parse_nginx_opts r;
      routes =
          route (slash_or (form_value r "path")) (rule_or_authorized r) up false
          ∷ map (override_route up) (overrides r 0 (form_list r "opath"));
      waf = waf_of r b.waf;
    }
