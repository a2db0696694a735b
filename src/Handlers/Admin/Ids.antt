-- ===== src/Handlers/Admin/Ids.antt =====
-- handlers/admin.go: the edits of services.json as the steps of a relation, and the ids of all
-- services, which stay apart under every one of them.
use xal_tor_ka.Base.{
  ℕ, String, ◌≡◌, refl, sym, ap, ◌∙◌, inl, inr, Bool, true, false, not, none, some, List, [], ◌∷◌,
  ◌++◌, map, arith, ◌==◌, eq_iff, if◌then◌else◌, Bool-cases, Option-cases, any, In, In-append,
  Distinct, Distinct-insert, Distinct-last, keys-append, Sub-refl, Sub-append, Sub-Distinct,
  keep-Sub,
}
use mathlib.Core.List.{append_assoc}
use mathlib.Core.Path.{subst}
use xal_tor_ka.Config.Validate.{atoi}
use xal_tor_ka.Models.Services.{Backend, Link, Services}
use xal_tor_ka.Handlers.Net.{Request}
use xal_tor_ka.Handlers.Server.{Server}
use xal_tor_ka.Handlers.Admin.{Edited, edited, id_taken}
use xal_tor_ka.Handlers.Admin.Saved.{edited_eq, found_eq, unless_refused, changed_to}
use xal_tor_ka.Handlers.Admin.Links.{
  add_monitor, del_monitor, add_link, link_of, del_link, del_backend, toggle_backends,
  toggle_backend, toggle_links, toggle_link,
}
use xal_tor_ka.Handlers.Admin.Form.{Upload, rule_or_authorized, edit_fields}
use xal_tor_ka.Handlers.Admin.Backends.{add_backend, edit_backends, edit_backend}
use xal_tor_ka.Handlers.Admin.Networks.{set_admin_ips}
use xal_tor_ka.Handlers.Admin.Scan.{
  add_discovered, add_scanned, add_all_scanned, scanned_backend, scanned_name, port_of,
}

-- The functions that the handlers give to mutateServices, less those that change no id of a service, a
-- link or a monitor: the edits of the providers and setBackendWWW.
pub data ServiceEdit (s : Server) : (Services → Edited Services) → Type 0 where
  adds_monitor : (r : Request) → ServiceEdit s (add_monitor r)
  dels_monitor : (id : String) → ServiceEdit s (del_monitor id)
  adds_link : (r : Request) → ServiceEdit s (add_link s r)
  dels_link : (id : String) → ServiceEdit s (del_link id)
  toggles_link : (id : String) → ServiceEdit s (toggle_link id)
  adds_backend : (be : Backend) → ServiceEdit s (add_backend s be)
  dels_backend : (id : String) → ServiceEdit s (del_backend id)
  toggles_backend : (id : String) → ServiceEdit s (toggle_backend id)
  edits_backend :
      (id : String) (r : Request) (ips : List String) (upload : Upload) (upstream : String)
      → ServiceEdit s (edit_backend id (edit_fields r ips upload upstream))
  sets_networks : (cidrs : List String) → ServiceEdit s (set_admin_ips cidrs)
  discovers :
      (name : String) (port : ℕ) (rule : String)
      → ServiceEdit s (add_discovered s name (scanned_backend name port rule))
  scans :
      (lower : String → String) (r : Request) (pss : List String)
      → ServiceEdit s (λ svc. edited (add_all_scanned lower s r pss svc))

-- the ids that idTaken looks at
abbrev pub all_ids : Server → Services → List String
all_ids s svc =
    map (λ b. b.id) s.base_backends ++ (map (λ b. b.id) svc.backends ++ map (λ l. l.id) svc.links)

key→any :
    {A : Type 0} (f : A → String) (id : String) (xs : List A)
    → In id (map f xs)
    → any (λ x. f x == id) xs ≡ true
key→any f id [] i = elim i [ ]
key→any f id (x ∷ xs) (inl e) = ground (arith, eq_iff (f x) id)
key→any f id (x ∷ xs) (inr i) = ground (arith, key→any f id xs i)

free→new :
    (s : Server) (svc : Services) (id : String)
    → id_taken s svc id ≡ false
    → ¬ In id (all_ids s svc)
unfolding id_taken
free→new s svc id h i = elim (In-append id (map (λ b. b.id) s.base_backends) _ i) [
  | inl k ↦
      let q : any (λ b. b.id == id) s.base_backends ≡ true = key→any (λ b. b.id) id _ k in
      ground arith
  | inr j ↦ elim (In-append id (map (λ b. b.id) svc.backends) _ j) [
    | inl k ↦
        let q : any (λ b. b.id == id) svc.backends ≡ true = key→any (λ b. b.id) id _ k in
        ground arith
    | inr k ↦
        let q : any (λ l. l.id == id) svc.links ≡ true = key→any (λ l. l.id) id _ k in ground arith
  ]
]

append-last : {A : Type 0} (xs ys zs : List A) → xs ++ (ys ++ zs) ≡ xs ++ ys ++ zs
append-last xs ys zs = sym (append_assoc xs ys zs)

module _ (s : Server) (svc : Services) where
  link_last :
      (l : Link)
      → all_ids s (record svc { links = svc.links ++ (l ∷ []) }) ≡ all_ids s svc ++ (l.id ∷ [])
  link_last l = rw (keys-append (λ k. k.id) svc.links (l ∷ [])) (
      ap (λ z. map (λ b. b.id) s.base_backends ++ z)
        (append-last (map (λ b. b.id) svc.backends) (map (λ k. k.id) svc.links) (l.id ∷ []))
      ∙ append-last (map (λ b. b.id) s.base_backends) _ (l.id ∷ []))

  added_link :
      (l : Link)
      → ¬ In l.id (all_ids s svc)
      → Distinct (all_ids s svc)
      → Distinct (all_ids s (record svc { links = svc.links ++ (l ∷ []) }))
  added_link l new d = rw (link_last l) (Distinct-last l.id (all_ids s svc) new d)

  backend_between :
      (be : Backend)
      → all_ids s (record svc { backends = svc.backends ++ (be ∷ []) })
        ≡ map (λ b. b.id) s.base_backends
          ++ map (λ b. b.id) svc.backends
          ++ (be.id ∷ map (λ l. l.id) svc.links)
  backend_between be = rw (keys-append (λ b. b.id) svc.backends (be ∷ [])) (
      ap (λ z. map (λ b. b.id) s.base_backends ++ z)
        (append_assoc (map (λ b. b.id) svc.backends) (be.id ∷ []) _)
      ∙ append-last (map (λ b. b.id) s.base_backends) (map (λ b. b.id) svc.backends) _)

  added_backend :
      (be : Backend)
      → ¬ In be.id (all_ids s svc)
      → Distinct (all_ids s svc)
      → Distinct (all_ids s (record svc { backends = svc.backends ++ (be ∷ []) }))
  added_backend be new d =
      let front = map (λ b. b.id) s.base_backends ++ map (λ b. b.id) svc.backends in
      let behind = map (λ l. l.id) svc.links in
      let same : all_ids s svc ≡ front ++ behind =
        append-last (map (λ b. b.id) s.base_backends) (map (λ b. b.id) svc.backends) behind in
      rw (backend_between be) (Distinct-insert be.id front behind (rw same at new) (rw same at d))

toggle_backends-ids :
    (id : String) (bs ts : List Backend)
    → toggle_backends id bs ≡ some ts
    → map (λ b. b.id) ts ≡ map (λ b. b.id) bs
unfolding toggle_backends
toggle_backends-ids id [] ts h = cc
toggle_backends-ids id (b ∷ bs) ts h =
    found_eq (λ b. b.id) (b.id == id) b _ bs ts (toggle_backends id bs) h (λ _. refl)
      (toggle_backends-ids id bs)

toggle_links-ids :
    (id : String) (ls ts : List Link)
    → toggle_links id ls ≡ some ts
    → map (λ l. l.id) ts ≡ map (λ l. l.id) ls
unfolding toggle_links
toggle_links-ids id [] ts h = cc
toggle_links-ids id (l ∷ ls) ts h =
    found_eq (λ l. l.id) (l.id == id) l _ ls ts (toggle_links id ls) h (λ _. refl)
      (toggle_links-ids id ls)

edit_backends-ids :
    (id : String) (f : Backend → Backend) (bs ts : List Backend)
    → ((b : Backend) → (f b).id ≡ b.id)
    → edit_backends id f bs ≡ some ts
    → map (λ b. b.id) ts ≡ map (λ b. b.id) bs
unfolding edit_backends
edit_backends-ids id f [] ts same h = cc
edit_backends-ids id f (b ∷ bs) ts same h =
    found_eq (λ b. b.id) (b.id == id) b (f b) bs ts (edit_backends id f bs) (swapped (b.id == id) h)
      (λ _. same b) (λ zs. edit_backends-ids id f bs zs same)
  where
    swapped :
        (c : Bool)
        → (if not c
            then (elim (edit_backends id f bs) [ none ↦ none | some zs ↦ some (b ∷ zs) ])
            else some (f b ∷ bs))
          ≡ some ts
        → (if c
            then some (f b ∷ bs)
            else elim (edit_backends id f bs) [ none ↦ none | some zs ↦ some (b ∷ zs) ])
          ≡ some ts
    swapped true h = h
    swapped false h = h

module _ (s : Server) where
  abbrev DistinctIds : Services → Type 0
  DistinctIds svc = Distinct (all_ids s svc)

  scanned-Distinct :
      (lower : String → String) (r : Request) (svc : Services) (ps : String)
      → DistinctIds svc
      → DistinctIds (add_scanned lower s r svc ps)
  unfolding add_scanned scanned_backend
  scanned-Distinct lower r svc ps d = elim (Option-cases (port_of (atoi ps))) [
    | inl q ↦ rw (q, add_scanned) d
    | inr (port, q) ↦
        let name = scanned_name lower r ps port in
        elim (Bool-cases (id_taken s svc name)) [
          | inl k ↦ rw (q, k, add_scanned) d
          | inr k ↦
              rw (q, k, add_scanned)
                (added_backend s svc (scanned_backend name port (rule_or_authorized r))
                  (free→new s svc name k) d)
        ]
  ]

  all_scanned-Distinct :
      (lower : String → String) (r : Request) (pss : List String) (svc : Services)
      → DistinctIds svc
      → DistinctIds (add_all_scanned lower s r pss svc)
  unfolding add_all_scanned
  all_scanned-Distinct lower r [] svc d = d
  all_scanned-Distinct lower r (ps ∷ pss) svc d =
      all_scanned-Distinct lower r pss _ (scanned-Distinct lower r svc ps d)

  with_backends :
      (svc : Services) (ts : List Backend)
      → map (λ b. b.id) ts ≡ map (λ b. b.id) svc.backends
      → DistinctIds svc
      → DistinctIds (record svc { backends = ts })
  with_backends svc ts e d = rw e d

  -- One edit keeps the ids apart.
  pub edit-Distinct :
      (fn : Services → Edited Services) (svc svc' : Services)
      → ServiceEdit s fn
      → DistinctIds svc
      → fn svc ≡ edited svc'
      → DistinctIds svc'
  unfolding add_monitor del_monitor add_link del_link toggle_link add_backend del_backend
      toggle_backend edit_backend set_admin_ips add_discovered scanned_backend link_of edit_fields
  edit-Distinct fn svc svc' (adds_monitor r) d h =
      subst DistinctIds (unless_refused _ _ _ svc' h).1 d
  edit-Distinct fn svc svc' (dels_monitor id) d h = subst DistinctIds (edited_eq h) d
  edit-Distinct fn svc svc' (adds_link r) d h =
      let (free, e) = unless_refused _ _ _ svc' h in
      subst DistinctIds e (added_link s svc (link_of r) (free→new s svc _ free) d)
  edit-Distinct fn svc svc' (dels_link id) d h = subst DistinctIds (edited_eq h) (
      Sub-Distinct
        (Sub-append (Sub-refl _) (Sub-append (Sub-refl _) (keep-Sub (λ l. l.id) _ svc.links))) d)
  edit-Distinct fn svc svc' (toggles_link id) d h =
      let (ts, q, e) = changed_to _ _ _ svc' h in
      subst DistinctIds e (rw (toggle_links-ids id svc.links ts q) d)
  edit-Distinct fn svc svc' (adds_backend be) d h =
      let (free, e) = unless_refused _ _ _ svc' h in
      subst DistinctIds e (added_backend s svc be (free→new s svc _ free) d)
  edit-Distinct fn svc svc' (dels_backend id) d h = subst DistinctIds (edited_eq h) (
      Sub-Distinct
        (Sub-append (Sub-refl _) (Sub-append (keep-Sub (λ b. b.id) _ svc.backends) (Sub-refl _))) d)
  edit-Distinct fn svc svc' (toggles_backend id) d h =
      let (ts, q, e) = changed_to _ _ _ svc' h in
      subst DistinctIds e (with_backends svc ts (toggle_backends-ids id svc.backends ts q) d)
  edit-Distinct fn svc svc' (edits_backend id r ips upload upstream) d h =
      let (ts, q, e) = changed_to _ _ _ svc' h in
      subst DistinctIds e
        (with_backends svc ts (edit_backends-ids id _ svc.backends ts (λ b. refl) q) d)
  edit-Distinct fn svc svc' (sets_networks cidrs) d h = subst DistinctIds (edited_eq h) d
  edit-Distinct fn svc svc' (discovers name port rule) d h =
      let (free, e) = unless_refused _ _ _ svc' h in
      subst DistinctIds e (added_backend s svc _ (free→new s svc name free) d)
  edit-Distinct fn svc svc' (scans lower r pss) d h =
      subst DistinctIds (edited_eq h) (all_scanned-Distinct lower r pss svc d)

  -- The services after a sequence of edits, refused ones changing nothing.
  pub data Edits : Services → Services → Type 0 where
    no_edit : {svc : Services} → Edits svc svc
    then_edit :
        {svc svc' svc'' : Services} (fn : Services → Edited Services)
        → ServiceEdit s fn
        → Edits svc svc'
        → fn svc' ≡ edited svc''
        → Edits svc svc''

  -- No sequence of edits from the administration ever gives two entries of the configured backends,
  -- the services and the links the same id, where there were none at first.
  pub edits-Distinct :
      (svc svc' : Services) → Edits svc svc' → Distinct (all_ids s svc) → Distinct (all_ids s svc')
  edits-Distinct svc svc' no_edit d = d
  edits-Distinct svc svc' (then_edit {svc' = mid} fn step before h) d =
      edit-Distinct fn mid svc' step (edits-Distinct svc mid before d) h
