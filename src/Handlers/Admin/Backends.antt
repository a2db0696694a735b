-- ===== src/Handlers/Admin/Backends.antt =====
-- handlers/admin.go: adding and changing a service.
pub mod Laws
use xal_tor_ka.Base.{
  is_space, ℕ, zero, suc, ◌+◌, ◌-◌, ◌*◌, ◌/◌, ◌%◌, ◌^◌, ◌≤◌, ◌<◌, String, Char, code, ◌≡◌, refl,
  sym, ap, ◌∙◌, ◌≢◌, ◌↔◌, ◌⊎◌, inl, inr, Bool, true, false, not, ◌&&◌, ◌||◌, Option, none, some,
  List, [], ◌∷◌, ◌++◌, map, arith, ◌==◌, eq_iff, eq_refl, ltb, leb, eqb, if◌then◌else◌, ltb→lt,
  lt→ltb, leb→le, ltb→le, eqb→eq, eqb_refl, Bool-cases, Option-cases, some_eq, is_some, and→both,
  both→and, or→either, length, take, drop, length-append, length-take, length-drop,
  take-append-drop, any, all, keep, In, All, All-append, All-map, All-at, All-of, In-append_left,
  In-append_right, In-append, any→In, In→any, any-eq-false, all→All, keep-In, In-keep, has_prefix,
  trim_right, trim_char, index_char, has_char, trim_space, ne→false, false→ne, last_index_char,
  has_prefix→append, has_prefix-append, trim_char-lacks, len-cons, len-nil, len-cons-pos,
  has_prefix_unique, has_prefix_refl, has_prefix_shorter, eq-nil_of_len, ne-nil_of_len, Dict,
  lookup, insert, delete, has_key, lookup-insert, lookup-insert_self, lookup-delete, dict_laws, ℤ,
  pos, negsuc, sub_ℕ, ltb_ℤ, is_pos, add_clamped,
}
use xal_tor_ka.Models.Services.{
  ProviderCfg, Route, Health, WafCfg, HostingRef, NginxOpts, Backend, Link, Monitor, Services,
}
use xal_tor_ka.Models.Grants.{rule_public, rule_authenticated, rule_authorized, canonical_rule}
use xal_tor_ka.Config.Validate.{atoi}
use Prim.Native.String.{◌++◌ as str_append}
use xal_tor_ka.Handlers.Net.{NetLib, Request, form_value, form_list, client_ip, ip_in_cidrs}
use xal_tor_ka.Handlers.Next.{UrlLib}
use xal_tor_ka.Handlers.Reply.{
  Response, Reply, Refusal, said, quoting, failed_outside, redirect, page, answer, refusal_page,
}
use xal_tor_ka.Handlers.Server.{Server}
use xal_tor_ka.Handlers.Services.{no_options}
use xal_tor_ka.Handlers.Admin.{
  Effects, Edited, refused, edited, id_taken, load_services, bad_request, guarded, edit_services,
  mutate_services, after_mutation,
}
use xal_tor_ka.Handlers.Admin.Upstream.{
  host_internalize, validate_upstream, split_match, join_match, normalize_cidrs, fields_func,
}
use xal_tor_ka.Handlers.Admin.Grants.{apply_service_grants, apply_path_grants}
use xal_tor_ka.Handlers.Admin.Form.{
  Upload, upload_failed, Override, is_rule, slash_or, route, hosting_of, backend_of, nth, is_at,
  override_rule, override_of, overrides, override_route, path_grants, upstream_of, not_negative,
  parse_nginx_opts, disabled_rules_of, paranoia_of, waf_of, image_after, rule_or_authorized,
  edit_fields,
}

unfoldable pub add_backend : Server → Backend → Services → Edited Services
add_backend s be svc =
    if id_taken s svc be.id
    then refused (said "id already exists")
    else edited (record svc { backends = svc.backends ++ (be ∷ []) })

-- the id is taken in the file that LoadServices reads
unfoldable pub is_published : Server → String → Bool
is_published s id = elim (load_services s) [ none ↦ false | some svc ↦ id_taken s svc id ]

-- the loop: the first backend of the id is changed, none where there is none
unfoldable pub edit_backends : String → (Backend → Backend) → List Backend → Option (List Backend)
edit_backends id f [] = none
edit_backends id f (b ∷ bs) =
    let rest : Option (List Backend) = elim (edit_backends id f bs) [
      | none ↦ none
      | some ts ↦ some (b ∷ ts)
    ] in
    if not (b.id == id) then rest else some (f b ∷ bs)

unfoldable pub edit_backend : String → (Backend → Backend) → Services → Edited Services
edit_backend id f svc = elim (edit_backends id f svc.backends) [
  | none ↦ refused (said "backend not found")
  | some bs ↦ edited (record svc { backends = bs })
]

unfoldable pub invalid_network : String → Response
invalid_network wrong = answer (page 400 (refusal_page (quoting "invalid IP/CIDR " wrong "")))

unfoldable pub is_failed : Upload → Bool
is_failed upload_failed = true
is_failed _ = false

module _ (net : NetLib) (is_v4 : net.Ip → Bool) (url : UrlLib) (upload : Request → Upload)
    (e : Effects) where
  -- handleBackendAdd behind the checks of the form
  unfoldable pub publish : Request → List String → String → String → Server → Response × Server
  publish r ip_allow rule upstream s =
      if is_published s (form_value r "id")
      then (
        answer (
            redirect (str_append "/admin/backend/edit?id=" (url.query_escape (form_value r "id")))),
        s,
      )
      else edit_services url e (add_backend s (backend_of r ip_allow rule upstream)) r s

  unfoldable pub backend_add : Request → Server → Response × Server
  backend_add r s =
      let upstream = host_internalize s.upstream_localhost (form_value r "upstream") in
      let rule = canonical_rule (form_value r "rule") in
      if form_value r "id" == "" || form_value r "host" == "" || upstream == ""
      then (bad_request "err.id_host_upstream_required", s)
      else if not (is_rule rule)
      then (bad_request "err.invalid_rule", s)
      else elim (normalize_cidrs net is_v4 (form_value r "ip_allow")) [
        | inr wrong ↦ (invalid_network wrong, s)
        | inl ip_allow ↦ publish r ip_allow rule upstream s
      ]

  unfoldable pub handle_backend_add : Request → Server → Response × Server
  handle_backend_add = guarded net url e backend_add

  -- the three writes of handleBackendEdit, each only after the one before it
  unfoldable pub write_edit : Request → List String → String → Server → Option Refusal × Server
  write_edit r ip_allow upstream s =
      let id = form_value r "id" in
      let change = edit_fields r ip_allow (upload r) upstream in
      let grants = path_grants [] (overrides r 0 (form_list r "opath")) in
      let (err, s1) = mutate_services e (edit_backend id change) s in
      elim err [
        | some why ↦ (some why, s1)
        | none ↦
            let (err2, s2) = apply_service_grants e r id s1 in
            elim err2 [ some why ↦ (some why, s2) | none ↦ apply_path_grants e id grants s2 ]
      ]

  unfoldable pub backend_edit : Request → Server → Response × Server
  backend_edit r s =
      let upstream = host_internalize s.upstream_localhost (form_value r "upstream") in
      elim (validate_upstream upstream) [
        | some why ↦ (answer (page 400 (refusal_page (said why))), s)
        | none ↦
            if form_value r "host" == ""
            then (bad_request "err.host_required", s)
            else elim (normalize_cidrs net is_v4 (form_value r "ip_allow")) [
              | inr wrong ↦ (invalid_network wrong, s)
              | inl ip_allow ↦
                  let (err, s') = write_edit r ip_allow upstream s in
                  if is_failed (upload r)
                  then (answer (page 400 (refusal_page failed_outside)), s)
                  else (after_mutation url r err, s')
            ]
      ]

  unfoldable pub handle_backend_edit : Request → Server → Response × Server
  handle_backend_edit = guarded net url e backend_edit
