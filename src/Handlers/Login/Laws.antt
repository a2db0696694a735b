-- ===== src/Handlers/Login/Laws.antt =====
-- handlers/login.go, handleLoginSubmit: what opens a session.
use xal_tor_ka.Base.{
  ℕ, String, ◌≡◌, refl, ◌≢◌, ◌⊎◌, inl, inr, Bool, true, false, not, ◌||◌, Option, none, some, List,
  [], ◌∷◌, arith, ◌==◌, eq_iff, if◌then◌else◌, Bool-cases, Option-cases, some_eq, In, trim_space,
  false→ne, Dict, lookup, insert, lookup-insert_self,
}
use xal_tor_ka.Models.Identity.{User, Session}
use xal_tor_ka.Auth.Sessions.{MemoryStore, create, complete_2fa, fresh_session}
use xal_tor_ka.Auth.Sessions.Laws.{persist-m}
use xal_tor_ka.Auth.Directory.{get_user}
use xal_tor_ka.Providers.Answer.{Identity, Answer, identity, invalid_credentials, unavailable}
use xal_tor_ka.Providers.Local.{authenticate_user, authenticate_local}
use xal_tor_ka.Providers.Ldap.{Ldap, escape_dn_value, bind_user, authenticate_ldap}
use xal_tor_ka.Handlers.Net.{Request, field}
use xal_tor_ka.Handlers.Reply.{Reply, Response, redirect, kept, set_session}
use xal_tor_ka.Handlers.Server.{Server, Moment}
use xal_tor_ka.Handlers.Login.{
  Outside, Chance, cookie_reply, create_session, complete, clean, login_again, start_session,
  start_ldap_session, ldap_match, ldap_login, login_with, handle_login_submit,
}

-- The password is that of a local user.
abbrev pub LocalLogin : Outside → Server → String → String → Type 0
LocalLogin out s email password =
    (u : User) × (get_user s.users email ≡ some u)
    × (u.provider ≡ "local")
    × (u.password_hash ≢ "")
    × (out.verify_password u.password_hash password ≡ true)

-- A directory server accepts a bind with the name and a password that is not empty.
abbrev pub LdapLogin : Outside → Server → String → String → Ldap → Type 0
LdapLogin out s email password lp =
    In lp s.ldap
    × (trim_space email ≢ "")
    × (password ≢ "")
    × (out.ldap_net.bind lp.url (out.ldap_net.sprintf lp.bind_dn_template (escape_dn_value email))
          password
        ≡ true)

-- The store holds a new session of the user under the drawn id.
pub record Opened (c : Chance) (id email provider : String) (done : Bool) (s : Server)
    : Type 0 where
  pub drawn : c.id ≡ some id
  pub stored :
      lookup id s.sessions.m
      ≡ some (record (fresh_session id email provider c.moment.now) { two_fa_done = done })

cookie_eq : {a b : String} → set_session a ≡ set_session b → a ≡ b
cookie_eq h = ground arith

complete-lookup :
    (w : Bool) (id : String) (st : MemoryStore) (sess : Session)
    → lookup id st.m ≡ some sess
    → lookup id (complete_2fa w id st).1.m ≡ some (record sess { two_fa_done = true })
unfolding complete_2fa
complete-lookup w id st sess e =
    rw (e, complete_2fa)
      (rw (persist-m w (record st { m = insert id (record sess { two_fa_done = true }) st.m }))
        (lookup-insert_self id _ st.m))

create-lookup :
    (w : Bool) (now : ℕ) (id email provider : String) (st : MemoryStore)
    → lookup id (create (some id) w now email provider st).1.m
      ≡ some (fresh_session id email provider now)
unfolding create
create-lookup w now id email provider st =
    rw (persist-m w (record st { m = insert id (fresh_session id email provider now) st.m }))
      (lookup-insert_self id _ st.m)

-- A request without a cookie of its own keeps the one it has.
abbrev pub Fails : (Server → Response) → Type 0
Fails failed = (s : Server) → (failed s).cookie ≡ kept

abbrev pub chance : Moment → Option String → Chance
chance t o = record { moment = t; id = o }

-- the two ends of start_session behind a session that is there
abbrev opened : Chance → Bool → String → Reply → Reply → Server → Response × Server
opened c done id r1 r2 s =
    if done then (cookie_reply id r1, complete c id s) else (cookie_reply id r2, s)

opened-Opened :
    (c : Chance) (done : Bool) (i id email provider : String) (r1 r2 : Reply) (s : Server)
    → (opened c done i r1 r2 s).0.cookie ≡ set_session id
    → c.id ≡ some i
    → lookup i s.sessions.m ≡ some (fresh_session i email provider c.moment.now)
    → Opened c id email provider done (opened c done i r1 r2 s).1
unfolding cookie_reply complete
opened-Opened c true i id email provider r1 r2 s h drawn stored =
    rw (← cookie_eq h)
      (record { drawn = drawn; stored = complete-lookup c.moment.written i s.sessions _ stored })
opened-Opened c false i id email provider r1 r2 s h drawn stored =
    rw (← cookie_eq h) (record { drawn = drawn; stored = stored })

module _ (out : Outside) (t : Moment) (next email provider : String) where
  pub start_session-Opened :
      (failed : Server → Response) (o : Option String) (s : Server) (id : String)
      → Fails failed
      → (start_session out
          (chance t o)
          next
          failed
          (create_session (chance t o) email provider s)).0.cookie
        ≡ set_session id
      → Opened
          (chance t o)
          id
          email
          provider
          s.cfg.disable_totp
          (start_session out
            (chance t o)
            next
            failed
            (create_session (chance t o) email provider s)).1
  unfolding start_session create_session create
  start_session-Opened failed none s id fails h = absurd (cc (fails s, h))
  start_session-Opened failed (some i) s id fails h =
      opened-Opened (chance t (some i)) s.cfg.disable_totp i id email provider _ _ _ h refl
        (create-lookup t.written t.now i email provider s.sessions)

  start_ldap_session-Opened :
      (o : Option String) (s : Server) (id : String)
      → (start_ldap_session out
          (chance t o)
          next
          (create_session (chance t o) email provider s)).0.cookie
        ≡ set_session id
      → Opened
          (chance t o)
          id
          email
          provider
          true
          (start_ldap_session out
            (chance t o)
            next
            (create_session (chance t o) email provider s)).1
  unfolding start_ldap_session create_session create login_again
  start_ldap_session-Opened none s id h = cc
  start_ldap_session-Opened (some i) s id h =
      opened-Opened (chance t (some i)) true i id email provider (redirect next) (redirect next) _ h
        refl (create-lookup t.written t.now i email provider s.sessions)

authenticate_local-LocalLogin :
    (out : Outside) (s : Server) (email password : String) (i : Identity)
    → authenticate_local out.verify_password s.users email password ≡ identity i
    → LocalLogin out s email password
unfolding authenticate_local authenticate_user
authenticate_local-LocalLogin out s email password i h =
    elim (Option-cases (get_user s.users email)) [
      | inl e ↦ absurd (cc (rw (e, authenticate_user) at h))
      | inr (u, e) ↦ elim (Bool-cases (not (u.provider == "local") || u.password_hash == "")) [
        | inl k ↦ absurd (cc (rw (e, authenticate_user, k) at h))
        | inr k ↦ elim (Bool-cases (out.verify_password u.password_hash password)) [
          | inl v ↦ (
            u,
            e,
            (eq_iff u.provider "local").0 (ground arith),
            false→ne u.password_hash "" (ground arith),
            v,
          )
          | inr v ↦ absurd (cc (rw (e, authenticate_user, k, v) at h))
        ]
      ]
    ]

module _ (out : Outside) (email password : String) where
  abbrev Bound : Ldap → Type 0
  Bound lp =
      (trim_space email ≢ "")
      × (password ≢ "")
      × (out.ldap_net.bind lp.url (out.ldap_net.sprintf lp.bind_dn_template (escape_dn_value email))
            password
          ≡ true)

  authenticate_ldap-Bound :
      (lp : Ldap) (i : Identity)
      → authenticate_ldap out.ldap_net lp email password ≡ identity i
      → Bound lp
  unfolding authenticate_ldap bind_user
  authenticate_ldap-Bound lp i h = elim (Bool-cases (trim_space email == "" || password == "")) [
    | inl k ↦ absurd (cc (rw k at h))
    | inr k ↦ (
      false→ne (trim_space email) "" (ground arith),
      false→ne password "" (ground arith),
      ground arith,
    )
  ]

  ldap_match-Bound :
      (lps : List Ldap) (id : String)
      → ldap_match out lps email password ≡ some id
      → (lp : Ldap) × In lp lps × (lp.id ≡ id) × Bound lp
  unfolding ldap_match
  ldap_match-Bound [] id h = cc
  ldap_match-Bound (lp ∷ lps) id h =
      decide (authenticate_ldap out.ldap_net lp email password) refl
        (λ k. ldap_match-Bound lps id k)
    where
      Found : List Ldap → Type 0
      Found ls = (l : Ldap) × In l ls × (l.id ≡ id) × Bound l

      later : Found lps → Found (lp ∷ lps)
      later (l, i, e, b) = (l, inr i, e, b)

      decide :
          (a : Answer)
          → authenticate_ldap out.ldap_net lp email password ≡ a
          → (ldap_match out lps email password ≡ some id → Found lps)
          → Found (lp ∷ lps)
      decide (identity i) e go =
          (lp, inl refl, some_eq (rw (e, ldap_match) at h), authenticate_ldap-Bound lp i e)
      decide invalid_credentials e go = later (go (rw (e, ldap_match) at h))
      decide unavailable e go = later (go (rw (e, ldap_match) at h))

module _ (out : Outside) (t : Moment) (email password next : String) (s : Server) where
  -- Why a session is open in the answer: the password of a local user, or a bind.
  abbrev pub Reason : Option String → String → Response × Server → Type 0
  Reason o id res =
      (LocalLogin out s email password
        × Opened (chance t o) id email "local" s.cfg.disable_totp res.1)
      ⊎ ((lp : Ldap) × LdapLogin out s email password lp
          × Opened (chance t o) id email lp.id true res.1)

  ldap_login-Reason :
      (o : Option String) (id : String)
      → (ldap_login out (chance t o) email password next s).0.cookie ≡ set_session id
      → Reason o id (ldap_login out (chance t o) email password next s)
  unfolding ldap_login login_again
  ldap_login-Reason o id h = elim (Option-cases (ldap_match out s.ldap email password)) [
    | inl e ↦ absurd (cc (rw (e, ldap_login) at h))
    | inr (pid, e) ↦
        let (lp, i, same, (name, pass, bound)) = ldap_match-Bound out email password s.ldap pid e in
        inr (
          lp,
          (i, name, pass, bound),
          rw (same, e, ldap_login)
              (start_ldap_session-Opened out t next email pid o s id (rw (e, ldap_login) at h)),
        )
  ]

  login_with-Reason :
      (o : Option String) (id : String) (a : Answer)
      → authenticate_local out.verify_password s.users email password ≡ a
      → (login_with out (chance t o) email password next s a).0.cookie ≡ set_session id
      → Reason o id (login_with out (chance t o) email password next s a)
  unfolding login_with login_again
  login_with-Reason o id (identity i) e h = inl (
    authenticate_local-LocalLogin out s email password i e,
    start_session-Opened out t next email "local" _ o s id (λ x. refl) h,
  )
  login_with-Reason o id invalid_credentials e h = ldap_login-Reason o id h
  login_with-Reason o id unavailable e h = cc

-- The login page sets a session cookie only for the right password of a local user or for a name
-- and a password that a directory server accepts. The store then holds a new session of that user
-- under the cookie's id, which counts as complete for LDAP and where TOTP is switched off, and
-- else waits for the second factor.
pub login_opens :
    (out : Outside) (c : Chance) (r : Request) (s : Server) (id : String)
    → (handle_login_submit out c r s).0.cookie ≡ set_session id
    → (form : Dict String) × (r.form ≡ some form)
      × Reason out c.moment
          (field "email" form)
          (field "password" form)
          (clean out s (field "next" form))
          s
          c.id
          id
          (handle_login_submit out c r s)
unfolding handle_login_submit login_again
login_opens out c r s id h = elim (Option-cases r.form) [
  | inl e ↦ absurd (cc (rw (e, handle_login_submit) at h))
  | inr (form, e) ↦ (
    form,
    e,
    rw (e, handle_login_submit)
        (login_with-Reason out c.moment (field "email" form) (field "password" form)
          (clean out s (field "next" form)) s c.id id _ refl (rw (e, handle_login_submit) at h)),
  )
]
