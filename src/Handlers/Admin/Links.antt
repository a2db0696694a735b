-- ===== src/Handlers/Admin/Links.antt =====
-- handlers/admin.go: links, monitors, and the deletion and the switch of services.
use xal_tor_ka.Base.{
  ℕ, String, false, not, ◌||◌, Option, none, some, List, [], ◌∷◌, ◌++◌, ◌==◌, if◌then◌else◌, any,
  keep, ℤ, pos, is_pos,
}
use xal_tor_ka.Models.Services.{Backend, Link, Services}
use xal_tor_ka.Handlers.Number.{atoi_value}
use xal_tor_ka.Handlers.Net.{NetLib, Request, form_value}
use xal_tor_ka.Handlers.Next.{UrlLib}
use xal_tor_ka.Handlers.Reply.{Response, said}
use xal_tor_ka.Handlers.Server.{Server}
use xal_tor_ka.Handlers.Admin.{
  Effects, Edited, refused, edited, id_taken, bad_request, guarded, edit_services,
}

-- n, _ := strconv.Atoi(s); if n <= 0 { n = d }
unfoldable pub positive_or : ℕ → String → ℤ
positive_or d s = let n = atoi_value s in if is_pos n then n else pos d

unfoldable pub add_monitor : Request → Services → Edited Services
add_monitor r svc =
    let id = form_value r "id" in
    if any (λ m. m.id == id) svc.monitors
    then refused (said "id already exists")
    else edited (record svc {
      monitors =
          svc.monitors
          ++ (record {
            id = id;
            name = form_value r "name";
            url = form_value r "url";
            interval_seconds = positive_or 30 (form_value r "interval");
            timeout_seconds = positive_or 5 (form_value r "timeout");
          }
              ∷ []);
    })

unfoldable pub del_monitor : String → Services → Edited Services
del_monitor id svc = edited (record svc { monitors = keep (λ m. not (m.id == id)) svc.monitors })

unfoldable pub link_of : Request → Link
link_of r = record {
  id = form_value r "id";
  name = form_value r "name";
  url = form_value r "url";
  description = form_value r "desc";
  public = not (form_value r "public" == "");
  disabled = false;
}

unfoldable pub add_link : Server → Request → Services → Edited Services
add_link s r svc =
    if id_taken s svc (form_value r "id")
    then refused (said "id already exists")
    else edited (record svc { links = svc.links ++ (link_of r ∷ []) })

unfoldable pub del_link : String → Services → Edited Services
del_link id svc = edited (record svc { links = keep (λ l. not (l.id == id)) svc.links })

unfoldable pub del_backend : String → Services → Edited Services
del_backend id svc = edited (record svc { backends = keep (λ b. not (b.id == id)) svc.backends })

-- the loop of handleBackendToggle; none where no backend has the id
unfoldable pub toggle_backends : String → List Backend → Option (List Backend)
toggle_backends id [] = none
toggle_backends id (b ∷ bs) =
    let rest : Option (List Backend) = elim (toggle_backends id bs) [
      | none ↦ none
      | some ts ↦ some (b ∷ ts)
    ] in
    if b.id == id then some (record b { disabled = not b.disabled } ∷ bs) else rest

unfoldable pub toggle_backend : String → Services → Edited Services
toggle_backend id svc = elim (toggle_backends id svc.backends) [
  | none ↦ refused (said "backend not found")
  | some bs ↦ edited (record svc { backends = bs })
]

unfoldable pub toggle_links : String → List Link → Option (List Link)
toggle_links id [] = none
toggle_links id (l ∷ ls) =
    let rest : Option (List Link) = elim (toggle_links id ls) [
      | none ↦ none
      | some ts ↦ some (l ∷ ts)
    ] in
    if l.id == id then some (record l { disabled = not l.disabled } ∷ ls) else rest

unfoldable pub toggle_link : String → Services → Edited Services
toggle_link id svc = elim (toggle_links id svc.links) [
  | none ↦ refused (said "link not found")
  | some ls ↦ edited (record svc { links = ls })
]

module _ (net : NetLib) (url : UrlLib) (e : Effects) where
  unfoldable pub handle_monitor_add : Request → Server → Response × Server
  handle_monitor_add = guarded net url e (λ r s.
      if form_value r "id" == "" || form_value r "url" == ""
      then (bad_request "err.id_url_required", s)
      else edit_services url e (add_monitor r) r s)

  unfoldable pub handle_monitor_del : Request → Server → Response × Server
  handle_monitor_del =
      guarded net url e (λ r. edit_services url e (del_monitor (form_value r "id")) r)

  unfoldable pub handle_link_add : Request → Server → Response × Server
  handle_link_add = guarded net url e (λ r s.
      if form_value r "id" == "" || form_value r "name" == "" || form_value r "url" == ""
      then (bad_request "err.id_name_url_required", s)
      else edit_services url e (add_link s r) r s)

  unfoldable pub handle_link_del : Request → Server → Response × Server
  handle_link_del = guarded net url e (λ r. edit_services url e (del_link (form_value r "id")) r)

  unfoldable pub handle_backend_del : Request → Server → Response × Server
  handle_backend_del =
      guarded net url e (λ r. edit_services url e (del_backend (form_value r "id")) r)

  unfoldable pub handle_backend_toggle : Request → Server → Response × Server
  handle_backend_toggle =
      guarded net url e (λ r. edit_services url e (toggle_backend (form_value r "id")) r)

  unfoldable pub handle_link_toggle : Request → Server → Response × Server
  handle_link_toggle =
      guarded net url e (λ r. edit_services url e (toggle_link (form_value r "id")) r)
