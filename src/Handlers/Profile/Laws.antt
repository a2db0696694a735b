-- ===== src/Handlers/Profile/Laws.antt =====
-- handlers/profile.go: who can change a password, and whose.
use xal_tor_ka.Base.{
  String, ◌≡◌, refl, ap, ◌∙◌, ◌⊎◌, inl, inr, Bool, true, false, Option, none, some, ◌==◌, eq_iff,
  List, [], ◌∷◌, ◌++◌, not, any, some_eq, ◌≢◌, false→ne, sym, Dict, if◌then◌else◌, Bool-cases,
}
use xal_tor_ka.Models.Identity.{User, Session}
use xal_tor_ka.Handlers.Net.{Request, form_value}
use xal_tor_ka.Handlers.Reply.{Refusal, Response, answer, redirect, said}
use mathlib.Core.Path.{subst}
use xal_tor_ka.Handlers.Server.{Server, session, audit_fail}
use xal_tor_ka.Auth.Directory.{get_user, all_users, replace}
use xal_tor_ka.Handlers.Admin.{Effects, Edited, refused, edited, mutate_users, save_users}
use xal_tor_ka.Handlers.Admin.Users.{change_first, change_user, internal_error}
use xal_tor_ka.Handlers.Gate.Kept.{session-Kept, audit_fail-Kept}
use Prim.Native.String.{◌++◌ as str_append}
use xal_tor_ka.Handlers.Profile.{
  profile_error, write_password, new_password, user_of, current_user, change_password,
  handle_profile_password, to_profile_login,
}

-- The users and their file are as they were.
abbrev pub SameUsers : Server → Server → Type 0
SameUsers s s' = (s'.users ≡ s.users) × (s'.users_file ≡ s.users_file)

-- In the list one user, the first with the address, has another password hash, and nothing else is
-- changed.
pub record SetFor (email hash : String) (old neu : List User) : Type 0 where
  pub before : List User
  pub user : User
  pub after : List User
  pub addressed : user.email ≡ email
  pub first : any (λ v. v.email == email) before ≡ false
  pub was : old ≡ before ++ (user ∷ after)
  pub becomes : neu ≡ before ++ (record user { password_hash = hash } ∷ after)

-- The file has the new hash of the password sent, for the address, and the directory is loaded anew
-- from it.
pub record NewPassword (e : Effects) (r : Request) (email : String) (s s' : Server) : Type 0 where
  pub hash : String
  pub given : form_value r "password" ≢ ""
  pub hashed : e.hash_password (form_value r "password") ≡ some hash
  pub file : SetFor email hash (all_users s.users) s'.users_file
  pub loaded : s'.users ≡ replace s.users s'.users_file

abbrev with_hash : String → User → User
with_hash hash v = record v { password_hash = hash }

change_first-SetFor :
    (email hash : String) (us vs : List User)
    → change_first email (with_hash hash) us ≡ some vs
    → SetFor email hash us vs
unfolding change_first
change_first-SetFor email hash [] vs h = cc
change_first-SetFor email hash (u ∷ us) vs h = elim (Bool-cases (u.email == email)) [
  | inl q ↦ record {
    before = [];
    user = u;
    after = us;
    addressed = (eq_iff u.email email).0 q;
    first = refl;
    was = refl;
    becomes = sym (some_eq (rw q at h));
  }
  | inr q ↦
      later q (change_first email (with_hash hash) us) (λ ws. change_first-SetFor email hash us ws)
        (rw q at h)
]
  where
    later :
        (u.email == email) ≡ false
        → (o : Option (List User)) → ((ws : List User) → o ≡ some ws → SetFor email hash us ws)
        → elim o [ none ↦ none | some ws ↦ some (u ∷ ws) ] ≡ some vs
        → SetFor email hash (u ∷ us) vs
    later q none k e = cc
    later q (some ws) k e =
        let t = k ws refl in
        record {
          before = u ∷ t.before;
          user = t.user;
          after = t.after;
          addressed = t.addressed;
          first = rw (q, t.first) refl;
          was = ap (λ l. u ∷ l) t.was;
          becomes = sym (some_eq e) ∙ ap (λ l. u ∷ l) t.becomes;
        }

-- The write leaves the users alone, or sets the hash for the address of the user.
abbrev HashWritten : String → String → Server → Server → Type 0
HashWritten email hash s s' =
    SameUsers s s'
    ⊎ (SetFor email hash (all_users s.users) s'.users_file
        × (s'.users ≡ replace s.users s'.users_file))

write_password-HashWritten :
    (e : Effects) (u : User) (hash : String) (s : Server)
    → HashWritten u.email hash s (write_password e u hash s).1
unfolding write_password mutate_users save_users change_user
write_password-HashWritten e u hash s =
    by_change (change_first u.email (with_hash hash) (all_users s.users)) refl
  where
    shown : Option Refusal × Server → Response × Server
    shown (err, s') = elim err [
      | some why ↦ (internal_error, s')
      | none ↦ (answer (redirect "/profilo?ok=pw"), s')
    ]

    saved :
        (ok : Bool) (vs : List User)
        → SetFor u.email hash (all_users s.users) vs
        → HashWritten u.email hash s (shown (save_users ok (edited vs) s)).1
    saved true vs t = inr (t, refl)
    saved false vs t = inl (refl, refl)

    by_change :
        (o : Option (List User))
        → change_first u.email (with_hash hash) (all_users s.users) ≡ o
        → let edit : Edited (List User) = elim o [
          | none ↦ refused (said "user not found")
          | some vs ↦ edited vs
        ] in
          HashWritten u.email hash s (shown (save_users e.users_saved edit s)).1
    by_change none q = inl (refl, refl)
    by_change (some vs) q =
        saved e.users_saved vs (change_first-SetFor u.email hash (all_users s.users) vs q)

new_password-NewPassword :
    (e : Effects) (r : Request) (u : User) (s : Server)
    → SameUsers s (new_password e r u s).1 ⊎ NewPassword e r u.email s (new_password e r u s).1
unfolding new_password
new_password-NewPassword e r u s = elim (Bool-cases (form_value r "password" == "")) [
  | inl q ↦ inl (rw (q, new_password) (refl, refl))
  | inr q ↦
      rw (q, new_password)
        (by_hash (false→ne (form_value r "password") "" q)
          (e.hash_password (form_value r "password")) refl)
]
  where
    by_hash :
        form_value r "password" ≢ ""
        → (o : Option String) → e.hash_password (form_value r "password") ≡ o
        → let after : Response × Server = elim o [
          | none ↦ (internal_error, s)
          | some hash ↦ write_password e u hash s
        ] in
          SameUsers s after.1 ⊎ NewPassword e r u.email s after.1
    by_hash given none q = inl (refl, refl)
    by_hash given (some hash) q = elim (write_password-HashWritten e u hash s) [
      | inl same ↦ inl same
      | inr (t, l) ↦ inr (record { hash = hash; given = given; hashed = q; file = t; loaded = l })
    ]

change_password-owner :
    (verify_password : String → String → Bool) (e : Effects) (r : Request) (u : User) (s : Server)
    → SameUsers s (change_password verify_password e r u s).1
      ⊎ ((u.provider ≡ "local")
          × (verify_password u.password_hash (form_value r "current") ≡ true)
          × NewPassword e r u.email s (change_password verify_password e r u s).1)
unfolding change_password
change_password-owner verify_password e r u s = elim (Bool-cases (u.provider == "local")) [
  | inr q ↦ inl (rw (q, change_password) (refl, refl))
  | inl q ↦ rw (q, change_password) (by_form ((eq_iff u.provider "local").0 q) r.form)
]
  where
    Owned : Response × Server → Type 0
    Owned after =
        SameUsers s after.1
        ⊎ ((u.provider ≡ "local")
            × (verify_password u.password_hash (form_value r "current") ≡ true)
            × NewPassword e r u.email s after.1)

    denied : Server
    denied = audit_fail "profile_pw" (str_append "email=" u.email) s

    checked : Bool → Response × Server
    checked b = if not b then (profile_error, denied) else new_password e r u s

    by_check :
        u.provider ≡ "local"
        → (b : Bool) → verify_password u.password_hash (form_value r "current") ≡ b
        → Owned (checked b)
    by_check is_local true right = elim (new_password-NewPassword e r u s) [
      | inl same ↦ inl same
      | inr n ↦ inr (is_local, right, n)
    ]
    by_check is_local false wrong =
        let kept = audit_fail-Kept "profile_pw" (str_append "email=" u.email) s in
        inl (ap (λ x. x.users) kept, ap (λ x. x.users_file) kept)

    by_form :
        u.provider ≡ "local"
        → (o : Option (Dict String))
        → Owned (elim o [
          | none ↦ (profile_error, s)
          | some form ↦ checked (verify_password u.password_hash (form_value r "current"))
        ])
    by_form is_local none = inl (refl, refl)
    by_form is_local (some form) =
        by_check is_local (verify_password u.password_hash (form_value r "current")) refl

-- A request that changes the users comes with a session past the second factor, of a local user,
-- and with that user's current password. It then changes one thing about them: the user of that
-- address, the first if there are several, has the hash of the new password, which is not empty, in
-- users.json, from which the directory is loaded anew. Every other request leaves directory and
-- users.json as they were.
pub handle_profile_password-owner :
    (verify_password : String → String → Bool) (e : Effects) (r : Request) (s : Server)
    → SameUsers s (handle_profile_password verify_password e r s).1
      ⊎ ((sess : Session) × (u : User) × ((session e.moment r s).0 ≡ some sess)
          × (sess.two_fa_done ≡ true)
          × (get_user (session e.moment r s).1.users sess.email ≡ some u)
          × (u.provider ≡ "local")
          × (verify_password u.password_hash (form_value r "current") ≡ true)
          × NewPassword e r u.email s (handle_profile_password verify_password e r s).1)
unfolding handle_profile_password current_user user_of
handle_profile_password-owner verify_password e r s = by_user (session e.moment r s).0 refl
  where
    s1 : Server
    s1 = (session e.moment r s).1

    kept : SameUsers s s1
    kept = let k = session-Kept e.moment r s in (ap (λ x. x.users) k, ap (λ x. x.users_file) k)

    Owned : Option Session → Response × Server → Type 0
    Owned o after =
        SameUsers s after.1
        ⊎ ((sess : Session) × (u : User) × (o ≡ some sess)
            × (sess.two_fa_done ≡ true)
            × (get_user s1.users sess.email ≡ some u)
            × (u.provider ≡ "local")
            × (verify_password u.password_hash (form_value r "current") ≡ true)
            × NewPassword e r u.email s after.1)

    after_user : Option User → Response × Server
    after_user o = elim o [
      | none ↦ (to_profile_login, s1)
      | some u ↦ change_password verify_password e r u s1
    ]

    moved :
        (email : String) (after : Server)
        → NewPassword e r email s1 after
        → NewPassword e r email s after
    moved email after n = record {
      hash = n.hash;
      given = n.given;
      hashed = n.hashed;
      file = subst (λ d. SetFor email n.hash (all_users d) after.users_file) kept.0 n.file;
      loaded = subst (λ d. after.users ≡ replace d after.users_file) kept.0 n.loaded;
    }

    changed :
        (sess : Session) (o : Option User)
        → sess.two_fa_done ≡ true
        → get_user s1.users sess.email ≡ o
        → Owned (some sess) (after_user o)
    changed sess none done k = inl kept
    changed sess (some u) done k = elim (change_password-owner verify_password e r u s1) [
      | inl (a, b) ↦ inl (a ∙ kept.0, b ∙ kept.1)
      | inr (is_local, right, n) ↦ inr (sess, u, refl, done, k, is_local, right, moved u.email _ n)
    ]

    by_flag :
        (sess : Session) (b : Bool)
        → sess.two_fa_done ≡ b
        → Owned (some sess) (after_user (if b then get_user s1.users sess.email else none))
    by_flag sess true done = changed sess (get_user s1.users sess.email) done refl
    by_flag sess false half = inl kept

    by_user :
        (o : Option Session) → (session e.moment r s).0 ≡ o → Owned o (after_user (user_of o s1))
    by_user none q = inl kept
    by_user (some sess) q = by_flag sess sess.two_fa_done refl
