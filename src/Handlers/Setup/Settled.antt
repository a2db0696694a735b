-- ===== src/Handlers/Setup/Settled.antt =====
-- handlers/setup.go, finalizeSetup: the user of the state is an administrator afterwards.
use xal_tor_ka.Base.{
  String, ◌≡◌, refl, sym, ◌∙◌, ◌⊎◌, inl, inr, Bool, true, false, none, some, List, [], ◌∷◌, ◌==◌,
  eq_iff, eq_refl, if◌then◌else◌, Bool-cases, In, ne→false, Distinct,
}
use xal_tor_ka.Models.Identity.{User, SetupState}
use xal_tor_ka.Auth.Directory.{all_users, replace, get_user}
use xal_tor_ka.Auth.Directory.Laws.{replace_lem, last_with}
use xal_tor_ka.Handlers.Reply.{Response, page, answer, setup_done_page}
use xal_tor_ka.Handlers.Server.{Server}
use xal_tor_ka.Handlers.Admin.{Effects}
use xal_tor_ka.Handlers.Admin.Users.Laws.{emails}
use mathlib.Core.Path.{subst}
use xal_tor_ka.Handlers.Setup.{SetupDisk, setup_error, setup_user, put_user, finalize_setup}

-- the state a finished set-up leaves, or the users as they were
abbrev pub Settled : Server → SetupState → Server → Type 0
Settled s st s' =
    ((s'.users ≡ s.users) × (s'.users_file ≡ s.users_file))
    ⊎ ((u : User) × (get_user s'.users st.email ≡ some u) × (u.admin ≡ true))

absent-last : (email : String) (us : List User) → ¬ In email (emails us) → last_with email us ≡ none
unfolding last_with
absent-last email [] h = refl
absent-last email (u ∷ us) h =
    rw (absent-last email us (λ i. h (inr i)), ne→false u.email email (λ q. h (inl (sym q)))) refl

put_user-last :
    (new : User) (us : List User)
    → Distinct (emails us)
    → last_with new.email (put_user new us) ≡ some new
unfolding put_user last_with
put_user-last new [] d = rw (eq_refl new.email) refl
put_user-last new (u ∷ us) (fresh, d) = elim (Bool-cases (u.email == new.email)) [
  | inr q ↦ rw q (rw (put_user-last new us d) refl)
  | inl q ↦
      let out : ¬ In new.email (emails us) =
        subst (λ x. ¬ In x (emails us)) ((eq_iff u.email new.email).0 q) fresh in
      rw q (rw (absent-last new.email us out, eq_refl new.email) refl)
]

pub finalize_setup-Settled :
    (d : SetupDisk) (e : Effects) (st : SetupState) (s : Server)
    → Distinct (emails (all_users s.users))
    → Settled s st (finalize_setup d e st s).1
unfolding finalize_setup setup_user
finalize_setup-Settled d e st s apart = by_write e.users_saved
  where
    us : List User
    us = put_user (setup_user st) (all_users s.users)

    by_write :
        (b : Bool)
        → let after : Response × Server =
            if b
            then (
              answer (page 200 (setup_done_page st.email)),
              record s {
                users_file = us;
                users = replace s.users us;
                setup_file = if d.removed then none else s.setup_file;
              },
            )
            else (setup_error, s) in
          Settled s st after.1
    by_write false = inl (refl, refl)
    by_write true = inr (
      setup_user st,
      (replace_lem s.users us st.email).0 ∙ put_user-last (setup_user st) (all_users s.users) apart,
      refl,
    )
