-- ===== src/Auth/Sessions/History.antt =====
-- auth/session.go over a history of calls: the store is one automaton for each session id.
use mathlib.Core.Option
use xal_tor_ka.Base.{
  ℕ, String, ◌≡◌, refl, ap, ◌∙◌, inl, inr, Bool, true, not, ◌&&◌, ◌||◌, Option, none, some, List,
  [], ◌∷◌, arith, ◌==◌, eq_iff, if◌then◌else◌, Option-cases, lookup, lookup-insert, lookup-delete,
  ℤ,
}
use xal_tor_ka.Models.Identity.{Session}
use xal_tor_ka.Auth.Sessions.{
  MemoryStore, persist_locked, fresh_session, create, is_over, is_expired, get_found, get,
  complete_2fa, remove,
}
use xal_tor_ka.Auth.Sessions.Laws.{persist-m, seen_at, no_id, unknown, over, live, get-Got}

-- A call, with whether its write of the file succeeds.
pub data Call : Type 0 where
  creates : Option String → (now : ℕ) → (email provider : String) → Call
  gets : (now : ℕ) → String → Call
  completes : String → Call
  removes : String → Call

unfoldable pub step : MemoryStore → Bool × Call → MemoryStore
step s (w, creates fresh now email provider) = (create fresh w now email provider s).1
step s (w, gets now id) = (get w now id s).1
step s (w, completes id) = (complete_2fa w id s).1
step s (w, removes id) = remove w id s

unfoldable pub run : MemoryStore → List (Bool × Call) → MemoryStore
run s [] = s
run s (c ∷ cs) = run (step s c) cs

abbrev pub verified : Session → Session
verified sess = record sess { two_fa_done = true }

-- What one id goes through, told without the store: none is an id that is not in use.
module _ (ttl idle : ℤ) (id : String) where
  unfoldable pub get_view : ℕ → Option Session → Option Session
  get_view now none = none
  get_view now (some sess) =
      if is_over ttl sess.created_at now || is_over idle sess.last_seen now
      then none
      else some (seen_at now sess)

  unfoldable pub view_step : Option Session → Call → Option Session
  view_step v (creates none now email provider) = v
  view_step v (creates (some j) now email provider) =
      if j == id then some (fresh_session id email provider now) else v
  view_step v (gets now j) = if j == id && not (j == "") then get_view now v else v
  view_step v (completes j) = if j == id then Option.map verified v else v
  view_step v (removes j) = if j == id then none else v

  unfoldable pub view_run : Option Session → List (Bool × Call) → Option Session
  view_run v [] = v
  view_run v ((w, c) ∷ cs) = view_run (view_step v c) cs

create-View :
    (s : MemoryStore) (id : String) (w : Bool) (fresh : Option String) (now : ℕ)
    (email provider : String)
    → lookup id (create fresh w now email provider s).1.m
      ≡ view_step s.ttl s.idle id (lookup id s.m) (creates fresh now email provider)
unfolding create view_step
create-View s id w none now email provider = refl
create-View s id w (some j) now email provider =
    ap (lookup id) (persist-m w _)
    ∙ lookup-insert j id (fresh_session j email provider now) s.m
    ∙ ground (arith, eq_iff j id)

get-View :
    (s : MemoryStore) (id : String) (w : Bool) (now : ℕ) (j : String)
    → lookup id (get w now j s).1.m ≡ view_step s.ttl s.idle id (lookup id s.m) (gets now j)
unfolding view_step get_view is_expired
get-View s id w now j = elim (get-Got w now j s) [
  | no_id e k ↦ ap (λ r. lookup id r.1.m) k ∙ ground (arith, eq_iff j "", eq_iff j id)
  | unknown e k ↦ ap (λ r. lookup id r.1.m) k ∙ ground (arith, eq_iff j id)
  | over old n e x k ↦
      ap (λ r. lookup id r.1.m) k
      ∙ ap (lookup id) (persist-m w _)
      ∙ lookup-delete j id s.m
      ∙ ground (arith, eq_iff j id, eq_iff j "")
  | live old n e x k ↦
      ap (λ r. lookup id r.1.m) k
      ∙ lookup-insert j id (seen_at now old) s.m
      ∙ ground (arith, eq_iff j id, eq_iff j "")
]

complete-View :
    (s : MemoryStore) (id : String) (w : Bool) (j : String)
    → lookup id (complete_2fa w j s).1.m ≡ view_step s.ttl s.idle id (lookup id s.m) (completes j)
unfolding view_step complete_2fa
complete-View s id w j = elim (Option-cases (lookup j s.m)) [
  | inl e ↦ rw (e, complete_2fa) (ground (arith, eq_iff j id))
  | inr (sess, e) ↦
      rw (e, complete_2fa)
        (ap (lookup id) (persist-m w _)
          ∙ lookup-insert j id (record sess { two_fa_done = true }) s.m
          ∙ ground (arith, eq_iff j id))
]

remove-View :
    (s : MemoryStore) (id : String) (w : Bool) (j : String)
    → lookup id (remove w j s).m ≡ view_step s.ttl s.idle id (lookup id s.m) (removes j)
unfolding view_step remove
remove-View s id w j = ap (lookup id) (persist-m w _) ∙ lookup-delete j id s.m

pub step-View :
    (s : MemoryStore) (id : String) (w : Bool) (c : Call)
    → lookup id (step s (w, c)).m ≡ view_step s.ttl s.idle id (lookup id s.m) c
unfolding step
step-View s id w (creates fresh now email provider) = create-View s id w fresh now email provider
step-View s id w (gets now j) = get-View s id w now j
step-View s id w (completes j) = complete-View s id w j
step-View s id w (removes j) = remove-View s id w j

step-limits :
    (s : MemoryStore) (c : Bool × Call) → ((step s c).ttl ≡ s.ttl) × ((step s c).idle ≡ s.idle)
unfolding step create get get_found complete_2fa remove persist_locked
step-limits s (w, creates none now email provider) = (refl, refl)
step-limits s (w, creates (some j) now email provider) = ground arith
step-limits s (w, gets now j) = ground arith
step-limits s (w, completes j) = ground arith
step-limits s (w, removes j) = ground arith

-- Whatever the history, what the store holds under an id is what the automaton of that id says:
-- sessions do not touch one another, and failing writes of the file do not change what is served.
pub run-View :
    (s : MemoryStore) (id : String) (cs : List (Bool × Call))
    → lookup id (run s cs).m ≡ view_run s.ttl s.idle id (lookup id s.m) cs
unfolding run view_run
run-View s id [] = refl
run-View s id ((w, c) ∷ cs) =
    let (t, i) = step-limits s (w, c) in
    run-View (step s (w, c)) id cs ∙ rw (t, i, step-View s id w c) refl

pub run-limits :
    (s : MemoryStore) (cs : List (Bool × Call))
    → ((run s cs).ttl ≡ s.ttl) × ((run s cs).idle ≡ s.idle)
unfolding run
run-limits s [] = (refl, refl)
run-limits s (c ∷ cs) =
    let (t, i) = step-limits s c in let (t', i') = run-limits (step s c) cs in (t' ∙ t, i' ∙ i)
