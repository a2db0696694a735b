-- ===== src/Handlers/Admin/Networks.antt =====
-- handlers/admin.go: the list of the administrators' networks.
pub mod Laws
use xal_tor_ka.Base.{
  is_space, ℕ, zero, suc, ◌+◌, ◌-◌, ◌*◌, ◌/◌, ◌%◌, ◌^◌, ◌≤◌, ◌<◌, String, Char, code, ◌≡◌, refl,
  sym, ap, ◌∙◌, ◌≢◌, ◌↔◌, ◌⊎◌, inl, inr, Bool, true, false, not, ◌&&◌, ◌||◌, Option, none, some,
  List, [], ◌∷◌, ◌++◌, map, arith, ◌==◌, eq_iff, eq_refl, ltb, leb, eqb, if◌then◌else◌, ltb→lt,
  lt→ltb, leb→le, ltb→le, eqb→eq, eqb_refl, Bool-cases, Option-cases, some_eq, is_some, and→both,
  both→and, or→either, length, take, drop, length-append, length-take, length-drop,
  take-append-drop, any, all, keep, In, All, All-append, All-map, All-at, All-of, In-append_left,
  In-append_right, In-append, any→In, In→any, any-eq-false, all→All, keep-In, In-keep, has_prefix,
  trim_right, trim_char, index_char, has_char, trim_space, ne→false, false→ne, last_index_char,
  has_prefix→append, has_prefix-append, trim_char-lacks, len-cons, len-nil, len-cons-pos,
  has_prefix_unique, has_prefix_refl, has_prefix_shorter, eq-nil_of_len, ne-nil_of_len, Dict,
  lookup, insert, delete, has_key, lookup-insert, lookup-insert_self, lookup-delete, dict_laws, ℤ,
  pos, negsuc, sub_ℕ, ltb_ℤ, is_pos, add_clamped,
}
use xal_tor_ka.Models.Services.{
  ProviderCfg, Route, Health, WafCfg, HostingRef, NginxOpts, Backend, Link, Monitor, Services,
}
use xal_tor_ka.Models.Grants.{rule_public, rule_authenticated, rule_authorized, canonical_rule}
use xal_tor_ka.Config.Validate.{atoi}
use Prim.Native.String.{◌++◌ as str_append}
use xal_tor_ka.Handlers.Net.{NetLib, Request, form_value, form_list, client_ip, ip_in_cidrs}
use xal_tor_ka.Handlers.Next.{UrlLib}
use xal_tor_ka.Handlers.Reply.{
  Response, Reply, Refusal, said, quoting, failed_outside, redirect, page, answer, refusal_page,
}
use xal_tor_ka.Handlers.Server.{Server}
use xal_tor_ka.Handlers.Services.{no_options}
use xal_tor_ka.Handlers.Admin.{
  Effects, Edited, refused, edited, id_taken, load_services, bad_request, guarded, edit_services,
  mutate_services, after_mutation,
}
use xal_tor_ka.Handlers.Admin.Upstream.{
  host_internalize, validate_upstream, split_match, join_match, normalize_cidrs, fields_func,
}
use xal_tor_ka.Handlers.Admin.Backends.{invalid_network}

-- svc.AdminIPWhitelist = cidrs
unfoldable pub set_admin_ips : List String → Services → Edited Services
set_admin_ips cidrs svc = edited (record svc { admin_ip_whitelist = cidrs })

-- the networks that hold after the edit
unfoldable pub effective_after : List String → Server → List String
effective_after cidrs s = elim cidrs [ [] ↦ s.cfg.admin.ip_whitelist | c ∷ cs ↦ c ∷ cs ]

module _ (net : NetLib) (is_v4 : net.Ip → Bool) (url : UrlLib) (e : Effects) where
  unfoldable pub admin_ips : Request → Server → Response × Server
  admin_ips r s = elim (normalize_cidrs net is_v4 (form_value r "ip_whitelist")) [
    | inr wrong ↦ (invalid_network wrong, s)
    | inl cidrs ↦
        if not
          (ip_in_cidrs net (client_ip net r s.cfg.server.trusted_proxies) (effective_after cidrs s))
        then (bad_request "err.ip_lockout", s)
        else edit_services url e (set_admin_ips cidrs) r s
  ]

  unfoldable pub handle_admin_ips : Request → Server → Response × Server
  handle_admin_ips = guarded net url e admin_ips
