-- ===== src/Handlers/Admin/Users.antt =====
-- handlers/admin.go: the users. A value of r.PostForm that is not there is the empty list.
pub mod Admins
pub mod Laws
use xal_tor_ka.Base.{
  ℕ, String, Bool, false, not, ◌&&◌, ◌||◌, Option, none, some, List, [], ◌∷◌, ◌++◌, ◌==◌, leb,
  if◌then◌else◌, length, any, keep, trim_space,
}
use xal_tor_ka.Models.Identity.{User}
use xal_tor_ka.Handlers.Net.{NetLib, Request, form_value, form_list}
use xal_tor_ka.Handlers.Next.{UrlLib}
use xal_tor_ka.Handlers.Reply.{
  Response, said, quoting, page, answer, error_page, refusal_page, admin_qr_page,
}
use xal_tor_ka.Handlers.Server.{Server}
use xal_tor_ka.Handlers.Admin.{
  Effects, Edited, refused, edited, bad_request, guarded, edit_users, mutate_users, after_mutation,
}

-- The loops "for i := range users": the change of the first user with the address, none where there
-- is no such user.
unfoldable pub change_first : String → (User → User) → List User → Option (List User)
change_first email f [] = none
change_first email f (u ∷ us) =
    let rest : Option (List User) = elim (change_first email f us) [
      | none ↦ none
      | some vs ↦ some (u ∷ vs)
    ] in
    if u.email == email then some (f u ∷ us) else rest

unfoldable pub change_user : String → (User → User) → List User → Edited (List User)
change_user email f us = elim (change_first email f us) [
  | none ↦ refused (said "user not found")
  | some vs ↦ edited vs
]

unfoldable pub has_email : String → List User → Bool
has_email email us = any (λ u. u.email == email) us

unfoldable pub add_user : User → List User → Edited (List User)
add_user u us =
    if has_email u.email us then refused (said "user already exists") else edited (us ++ (u ∷ []))

unfoldable pub del_user : String → List User → Edited (List User)
del_user email us = edited (keep (λ u. not (u.email == email)) us)

unfoldable pub rename_user : String → String → List User → Edited (List User)
rename_user old neu us =
    if any (λ u. u.email == neu && not (neu == old)) us
    then refused (quoting "email " neu " already in use")
    else change_user old (λ u. record u { email = neu }) us

-- the counter `admins`
unfoldable pub count_admins : List User → ℕ
count_admins us = length (keep (λ u. u.admin) us)

-- the index `target`: the change of the last user with the address
unfoldable pub change_last : String → (User → User) → List User → Option (List User)
change_last email f [] = none
change_last email f (u ∷ us) = elim (change_last email f us) [
  | some vs ↦ some (u ∷ vs)
  | none ↦ if u.email == email then some (f u ∷ us) else none
]

-- (*users)[target], none for target < 0
unfoldable pub target : String → List User → Option User
target email [] = none
target email (u ∷ us) = elim (target email us) [
  | some v ↦ some v
  | none ↦ if u.email == email then some u else none
]

-- the write behind the guards of handleUserAdmin
unfoldable pub flip_admin : String → List User → Edited (List User)
flip_admin email us = elim (change_last email (λ u. record u { admin = not u.admin }) us) [
  | none ↦ refused (said "user not found")
  | some vs ↦ edited vs
]

unfoldable pub toggle_admin : String → List User → Edited (List User)
toggle_admin email us = elim (target email us) [
  | none ↦ refused (said "user not found")
  | some u ↦
      if u.admin && leb (count_admins us) 1
      then refused (said "at least one administrator must remain")
      else flip_admin email us
]

-- renderAdminQR
unfoldable pub render_admin_qr : Effects → String → String → Response
render_admin_qr e email secret =
    if e.draws_qr
    then answer (page 200 (admin_qr_page email secret))
    else answer (page 500 (error_page "err.qr"))

unfoldable pub internal_error : Response
internal_error = answer (page 500 (error_page "err.internal"))

-- the secret of a new user: none is an error of the random source
unfoldable pub first_secret : Effects → Server → Option String
first_secret e s = if s.cfg.disable_totp then some "" else e.new_secret

unfoldable pub new_user : Request → String → String → User
new_user r hash secret = record {
  email = form_value r "email";
  provider = "local";
  password_hash = hash;
  totp_secret = secret;
  admin = false;
  backends = form_list r "authz";
}

module _ (net : NetLib) (url : UrlLib) (e : Effects) where
  -- handleUserAdd behind the two random values
  unfoldable pub insert_user : Request → String → String → Server → Response × Server
  insert_user r hash secret s =
      let (err, s') = mutate_users e.users_saved (add_user (new_user r hash secret)) s in
      elim err [
        | some why ↦ (answer (page 400 (refusal_page why)), s')
        | none ↦ (
          (if s.cfg.disable_totp
              then after_mutation url r none
              else render_admin_qr e (form_value r "email") secret),
          s',
        )
      ]

  unfoldable pub user_add : Request → Server → Response × Server
  user_add r s =
      if form_value r "email" == "" || form_value r "password" == ""
      then (bad_request "err.email_password_required", s)
      else elim (e.hash_password (form_value r "password")) [
        | none ↦ (internal_error, s)
        | some hash ↦ elim (first_secret e s) [
          | none ↦ (internal_error, s)
          | some secret ↦ insert_user r hash secret s
        ]
      ]

  unfoldable pub handle_user_add : Request → Server → Response × Server
  handle_user_add = guarded net url e user_add

  unfoldable pub handle_user_del : Request → Server → Response × Server
  handle_user_del = guarded net url e (λ r. edit_users url e (del_user (form_value r "email")) r)

  unfoldable pub handle_user_authz : Request → Server → Response × Server
  handle_user_authz = guarded net url e (λ r.
      edit_users url e
        (change_user (form_value r "email") (λ u. record u { backends = form_list r "authz" })) r)

  unfoldable pub user_totp : Request → Server → Response × Server
  user_totp r s = elim e.new_secret [
    | none ↦ (internal_error, s)
    | some secret ↦
        let email = form_value r "email" in
        let set : User → User = (λ u. record u { totp_secret = secret }) in
        let (err, s') = mutate_users e.users_saved (change_user email set) s in
        elim err [
          | some why ↦ (answer (page 400 (refusal_page why)), s')
          | none ↦ (render_admin_qr e email secret, s')
        ]
  ]

  unfoldable pub handle_user_totp : Request → Server → Response × Server
  handle_user_totp = guarded net url e user_totp

  unfoldable pub handle_user_email : Request → Server → Response × Server
  handle_user_email = guarded net url e (λ r s.
      let neu = trim_space (form_value r "email") in
      if neu == ""
      then (bad_request "err.email_required", s)
      else edit_users url e (rename_user (form_value r "old") neu) r s)

  unfoldable pub user_password : Request → Server → Response × Server
  user_password r s =
      if form_value r "password" == ""
      then (bad_request "err.password_required", s)
      else elim (e.hash_password (form_value r "password")) [
        | none ↦ (internal_error, s)
        | some hash ↦
            edit_users url e
              (change_user (form_value r "email") (λ u. record u { password_hash = hash })) r s
      ]

  unfoldable pub handle_user_password : Request → Server → Response × Server
  handle_user_password = guarded net url e user_password

  unfoldable pub handle_user_admin : Request → Server → Response × Server
  handle_user_admin =
      guarded net url e (λ r. edit_users url e (toggle_admin (form_value r "email")) r)
