-- ===== src/Auth/Sessions/Trust.antt =====
-- auth/session.go: what a session that the store serves has been through.
use xal_tor_ka.Base.{
  ℕ, String, ◌≡◌, refl, sym, ◌∙◌, inl, inr, Bool, true, false, not, ◌&&◌, ◌||◌, Option, none, some,
  List, [], ◌∷◌, arith, ◌==◌, if◌then◌else◌, Bool-cases, lookup, ℤ,
}
use xal_tor_ka.Models.Identity.{Session}
use xal_tor_ka.Auth.Sessions.{
  MemoryStore, new_memory_store, fresh_session, is_over, is_expired, get,
}
use xal_tor_ka.Auth.Sessions.Laws.{seen_at, get-live}
use xal_tor_ka.Auth.Sessions.History.{
  Call, creates, gets, completes, removes, run, get_view, view_step, view_run, run-View, run-limits,
}

-- What the history says of an id: the session that its last creation opened, and whether its second
-- factor was completed after that.
pub record Past : Type 0 where
  pub opened : Option Session
  pub second_factor : Bool

pub past_step : String → Past → Call → Past
past_step id p (creates none now email provider) = p
past_step id p (creates (some j) now email provider) =
    if j == id
    then record { opened = some (fresh_session id email provider now); second_factor = false }
    else p
past_step id p (gets now j) = p
past_step id p (completes j) = if j == id then record p { second_factor = true } else p
past_step id p (removes j) = if j == id then record { opened = none; second_factor = false } else p

pub past : String → Past → List (Bool × Call) → Past
past id p [] = p
past id p ((w, c) ∷ cs) = past id (past_step id p c) cs

-- A session agrees with the past of its id.
pub record Earned (p : Past) (sess : Session) : Type 0 where
  pub origin : Session
  pub was_opened : p.opened ≡ some origin
  pub same_id : sess.id ≡ origin.id
  pub same_email : sess.email ≡ origin.email
  pub same_provider : sess.provider ≡ origin.provider
  pub same_birth : sess.created_at ≡ origin.created_at
  pub factor : sess.two_fa_done ≡ true → p.second_factor ≡ true

abbrev EarnedAll : Past → Option Session → Type 0
EarnedAll p none = Unit
EarnedAll p (some sess) = Earned p sess

seen-Earned : (p : Past) (now : ℕ) (sess : Session) → Earned p sess → Earned p (seen_at now sess)
seen-Earned p now sess h = record {
  origin = h.origin;
  was_opened = h.was_opened;
  same_id = h.same_id;
  same_email = h.same_email;
  same_provider = h.same_provider;
  same_birth = h.same_birth;
  factor = h.factor;
}

not_over :
    (s : MemoryStore) (now : ℕ) (sess : Session)
    → is_expired s now sess ≡ false
    → is_over s.ttl sess.created_at now ≡ false
unfolding is_expired
not_over s now sess h = ground arith

module _ (ttl idle : ℤ) (id : String) where
  get-Earned :
      (p : Past) (now : ℕ) (v : Option Session)
      → EarnedAll p v
      → EarnedAll p (get_view ttl idle id now v)
  unfolding get_view
  get-Earned p now none h = tt
  get-Earned p now (some sess) h =
      elim (Bool-cases (is_over ttl sess.created_at now || is_over idle sess.last_seen now)) [
        | inl e ↦ rw e tt
        | inr e ↦ rw e (seen-Earned p now sess h)
      ]

  step-Earned :
      (p : Past) (v : Option Session) (c : Call)
      → EarnedAll p v
      → EarnedAll (past_step id p c) (view_step ttl idle id v c)
  unfolding past_step view_step
  step-Earned p v (creates none now email provider) h = h
  step-Earned p v (creates (some j) now email provider) h = elim (Bool-cases (j == id)) [
    | inl e ↦ rw e (record {
      origin = fresh_session id email provider now;
      was_opened = refl;
      same_id = refl;
      same_email = refl;
      same_provider = refl;
      same_birth = refl;
      factor = λ q. q;
    })
    | inr e ↦ rw e h
  ]
  step-Earned p v (gets now j) h = elim (Bool-cases (j == id && not (j == ""))) [
    | inl e ↦ rw e (get-Earned p now v h)
    | inr e ↦ rw e h
  ]
  step-Earned p none (completes j) h = elim (Bool-cases (j == id)) [
    | inl e ↦ rw e tt
    | inr e ↦ rw e tt
  ]
  step-Earned p (some sess) (completes j) h = elim (Bool-cases (j == id)) [
    | inl e ↦ rw e (record {
      origin = h.origin;
      was_opened = h.was_opened;
      same_id = h.same_id;
      same_email = h.same_email;
      same_provider = h.same_provider;
      same_birth = h.same_birth;
      factor = λ q. refl;
    })
    | inr e ↦ rw e h
  ]
  step-Earned p v (removes j) h = elim (Bool-cases (j == id)) [ inl e ↦ rw e tt | inr e ↦ rw e h ]

  run-Earned :
      (p : Past) (v : Option Session) (cs : List (Bool × Call))
      → EarnedAll p v
      → EarnedAll (past id p cs) (view_run ttl idle id v cs)
  unfolding past view_run
  run-Earned p v [] h = h
  run-Earned p v ((w, c) ∷ cs) h =
      run-Earned (past_step id p c) (view_step ttl idle id v c) cs (step-Earned p v c h)

abbrev pub unused : Past
unused = record { opened = none; second_factor = false }

-- After any history of a new store, a session that Get hands out is the one that the last creation
-- of its id opened, for the same user and provider, it has its second factor only if that was
-- completed since, and its lifetime from the creation on is not over.
pub get-Earned_live :
    (ttl idle : ℤ) (cs : List (Bool × Call)) (w : Bool) (now : ℕ) (id : String) (sess : Session)
    → (get w now id (run (new_memory_store ttl idle) cs)).0 ≡ some sess
    → Earned (past id unused cs) sess × (is_over ttl sess.created_at now ≡ false)
unfolding new_memory_store lookup
get-Earned_live ttl idle cs w now id sess h =
    let s = run (new_memory_store ttl idle) cs in
    let (old, e, x, same, n, frame) = get-live w now id s sess h in
    let view = sym (run-View (new_memory_store ttl idle) id cs) ∙ e in
    let kept : EarnedAll (past id unused cs) (some old) =
      rw view at (run-Earned ttl idle id unused none cs tt) in
    rw same (
      seen-Earned (past id unused cs) now old kept,
      rw (run-limits (new_memory_store ttl idle) cs).0 at (not_over s now old x),
    )
