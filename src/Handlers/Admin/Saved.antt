-- ===== src/Handlers/Admin/Saved.antt =====
-- handlers/admin.go, mutateServices: the states in which an edit of services.json may leave the
-- server, as an induction principle.
use xal_tor_ka.Base.{
  String, ◌≡◌, refl, sym, inl, inr, Bool, true, false, not, Option, none, some, List, ◌∷◌, map,
  arith, if◌then◌else◌, Option-cases, some_eq,
}
use xal_tor_ka.Models.Services.{Services}
use xal_tor_ka.Models.Grants.{canonicalize_rules}
use xal_tor_ka.Handlers.Net.{NetLib, Request}
use xal_tor_ka.Handlers.Next.{UrlLib}
use xal_tor_ka.Handlers.Reply.{Response, Refusal, failed_outside}
use xal_tor_ka.Handlers.Server.{Server}
use xal_tor_ka.Handlers.Services.{reload, reloaded}
use xal_tor_ka.Handlers.Gate.{admin_guard}
use xal_tor_ka.Handlers.Gate.Kept.{Kept, admin_guard-Kept}
use xal_tor_ka.Handlers.Admin.{
  Effects, Edited, refused, edited, guarded, mutate_services, load_services, save_services,
  save_edited,
}

pub edited_eq : {A : Type 0} {a b : A} → edited a ≡ edited b → a ≡ b
edited_eq h = ground arith

if_both : {A : Type 0} (P : A → Type 0) (b : Bool) (v w : A) → P v → P w → P (if b then v else w)
if_both P true v w h k = h
if_both P false v w h k = k

-- the canonical form of the services, which LoadServices reads back
abbrev pub canonical_services : Services → Services
canonical_services svc = record svc { backends = canonicalize_rules svc.backends }

-- the state after a write of the services and a reload
abbrev pub in_force : Services → Server → Server
in_force svc s = reloaded (canonical_services svc) (record s { services_file = some svc })

module _ (P : Server → Type 0) (e : Effects) where
  save_services-cases :
      (svc : Services) (s : Server)
      → P (record s { services_file = e.torn })
      → P (in_force svc s)
      → P (save_services e svc s).1
  unfolding save_services reload load_services
  save_services-cases svc s torn ok =
      let Q : Option Refusal × Server → Type 0 = (λ x. P x.1) in
      let failed : Option Refusal × Server =
        (some failed_outside, record s { services_file = e.torn }) in
      let accepted : Option Refusal × Server = (none, in_force svc s) in
      let rejected : Option Refusal × Server = (some failed_outside, in_force svc s) in
      if_both Q (not e.services_saved) failed (if e.applied then accepted else rejected) torn
        (if_both Q e.applied accepted rejected ok ok)

  -- An edit leaves the server as it is, or with a torn file, or with the edited services in force.
  pub mutate_services-cases :
      (fn : Services → Edited Services) (s : Server)
      → P s
      → ((svc svc' : Services)
          → load_services s ≡ some svc
          → fn svc ≡ edited svc'
          → P (record s { services_file = e.torn }) × P (in_force svc' s))
      → P (mutate_services e fn s).1
  unfolding mutate_services save_edited
  mutate_services-cases fn s same changed = elim (Option-cases (load_services s)) [
    | inl q ↦ rw (q, mutate_services) same
    | inr (svc, q) ↦ rw (q, mutate_services) (by_edit svc q (fn svc) refl)
  ]
    where
      by_edit :
          (svc : Services)
          → load_services s ≡ some svc
          → (d : Edited Services) → fn svc ≡ d
          → P (save_edited e d s).1
      by_edit svc q (refused why) k = same
      by_edit svc q (edited svc') k =
          let (torn, ok) = changed svc svc' q k in save_services-cases svc' s torn ok

-- What holds of a server however its sessions and its log stand, and what a handler keeps of it, a
-- handler behind the guard keeps.
pub guarded-cases :
    (P : Server → Type 0) (net : NetLib) (url : UrlLib) (e : Effects)
    (f : Request → Server → Response × Server) (r : Request) (s : Server)
    → ((s' : Server) → Kept s s' → P s')
    → ((s' : Server) → Kept s s' → P (f r s').1)
    → P (guarded net url e f r s).1
unfolding guarded
guarded-cases P net url e f r s stays inside = by_stop (admin_guard net url e.moment r s).0
  where
    kept : Kept s (admin_guard net url e.moment r s).1
    kept = admin_guard-Kept net url e.moment r s

    by_stop :
        (o : Option Response)
        → let after : Response × Server = elim o [
          | some answered ↦ (answered, (admin_guard net url e.moment r s).1)
          | none ↦ f r (admin_guard net url e.moment r s).1
        ] in
          P after.1
    by_stop (some answered) = stays _ kept
    by_stop none = inside _ kept

-- The keys of a list in which a loop has changed the first element that a test holds of.
pub found_eq :
    {A : Type 0} (f : A → String) (b : Bool) (x y : A) (xs ts : List A) (o : Option (List A))
    → (if b then some (y ∷ xs) else elim o [ none ↦ none | some zs ↦ some (x ∷ zs) ]) ≡ some ts
    → (b ≡ true → f y ≡ f x)
    → ((zs : List A) → o ≡ some zs → map f zs ≡ map f xs)
    → map f ts ≡ map f (x ∷ xs)
found_eq f true x y xs ts o h e k = rw (sym (some_eq h), e refl) refl
found_eq f false x y xs ts none h e k = cc
found_eq f false x y xs ts (some zs) h e k = rw (sym (some_eq h)) (rw (k zs refl) refl)

pub unless_refused :
    {A : Type 0} (b : Bool) (why : Refusal) (x y : A)
    → (if b then refused why else edited x) ≡ edited y
    → (b ≡ false) × (x ≡ y)
unless_refused true why x y h = cc
unless_refused false why x y h = (refl, edited_eq h)

pub changed_to :
    {A B : Type 0} (o : Option (List A)) (why : Refusal) (k : List A → B) (y : B)
    → (elim o [ none ↦ refused why | some ts ↦ edited (k ts) ]) ≡ edited y
    → (ts : List A) × (o ≡ some ts) × (k ts ≡ y)
changed_to none why k y h = cc
changed_to (some ts) why k y h = (ts, refl, edited_eq h)

pub unless_stopped :
    {A : Type 0} (b : Bool) (why : Refusal) (m : Edited A) (y : A)
    → (if b then refused why else m) ≡ edited y
    → (b ≡ false) × (m ≡ edited y)
unless_stopped true why m y h = cc
unless_stopped false why m y h = (refl, h)
