-- ===== src/Auth/Sessions/Laws.antt =====
-- auth/session.go: what each method of the session store does.
use xal_tor_ka.Base.{
  ℕ, String, ◌≡◌, refl, sym, ap, ◌∙◌, ◌≢◌, inl, inr, Bool, true, false, none, some, arith, ◌==◌,
  eq_iff, if◌then◌else◌, Bool-cases, Option-cases, some_eq, lookup, insert, delete, lookup-insert,
  lookup-delete,
}
use xal_tor_ka.Models.Identity.{Session}
use xal_tor_ka.Auth.Sessions.{MemoryStore, persist_locked, is_expired, get_found, get}

pub persist-m : (w : Bool) (s : MemoryStore) → (persist_locked w s).m ≡ s.m
unfolding persist_locked
persist-m w s = ground arith

pub persist-ttl : (w : Bool) (s : MemoryStore) → (persist_locked w s).ttl ≡ s.ttl
unfolding persist_locked
persist-ttl w s = ground arith

pub persist-idle : (w : Bool) (s : MemoryStore) → (persist_locked w s).idle ≡ s.idle
unfolding persist_locked
persist-idle w s = ground arith

abbrev pub seen_at : ℕ → Session → Session
seen_at now sess = record sess { last_seen = now }

-- The four ways in which Get returns.
pub data Got (w : Bool) (now : ℕ) (id : String) (s : MemoryStore) : Type 0 where
  no_id : id ≡ "" → get w now id s ≡ (none, s) → Got w now id s
  unknown : lookup id s.m ≡ none → get w now id s ≡ (none, s) → Got w now id s
  over :
      (old : Session)
      → id ≢ ""
      → lookup id s.m ≡ some old
      → is_expired s now old ≡ true
      → get w now id s ≡ (none, persist_locked w (record s { m = delete id s.m }))
      → Got w now id s
  live :
      (old : Session)
      → id ≢ ""
      → lookup id s.m ≡ some old
      → is_expired s now old ≡ false
      → get w now id s ≡ (some (seen_at now old), record s { m = insert id (seen_at now old) s.m })
      → Got w now id s

pub get-Got : (w : Bool) (now : ℕ) (id : String) (s : MemoryStore) → Got w now id s
unfolding get get_found
get-Got w now id s = elim (Bool-cases (id == "")) [
  | inl e ↦ no_id ((eq_iff id "").0 e) (rw e)
  | inr e ↦
      let named : id ≢ "" = λ q. cc (sym e ∙ (eq_iff id "").1 q) in
      elim (Option-cases (lookup id s.m)) [
        | inl k ↦ unknown k (rw (e, k, get))
        | inr (old, k) ↦ elim (Bool-cases (is_expired s now old)) [
          | inl x ↦ over old named k x (rw (e, k, get) (rw x refl))
          | inr x ↦ live old named k x (rw (e, k, get) (rw x refl))
        ]
      ]
]

-- A session is handed out only while neither lifetime is over, and then with its last use set to
-- now and the rest as stored; no other entry of the store changes.
pub get-live :
    (w : Bool) (now : ℕ) (id : String) (s : MemoryStore) (sess : Session)
    → (get w now id s).0 ≡ some sess
    → (old : Session) × (lookup id s.m ≡ some old)
      × (is_expired s now old ≡ false)
      × (sess ≡ record old { last_seen = now })
      × (id ≢ "")
      × ((j : String)
          → lookup j (get w now id s).1.m ≡ (if id == j then some sess else lookup j s.m))
get-live w now id s sess h = elim (get-Got w now id s) [
  | no_id e k ↦ cc (ap (λ r. r.0) k)
  | unknown e k ↦ cc (ap (λ r. r.0) k)
  | over old n e x k ↦ cc (ap (λ r. r.0) k)
  | live old n e x k ↦
      let same : sess ≡ seen_at now old = some_eq (sym h ∙ ap (λ r. r.0) k) in
      (
        old,
        e,
        x,
        same,
        n,
        (λ j.
            ap (λ r. lookup j r.1.m) k
            ∙ lookup-insert id j (seen_at now old) s.m
            ∙ ap (λ v. if id == j then some v else lookup j s.m) (sym same)),
      )
]

-- A session whose lifetime or idle time is over is refused and is gone from the store.
pub get_expired :
    (w : Bool) (now : ℕ) (id : String) (s : MemoryStore) (old : Session)
    → id ≢ ""
    → lookup id s.m ≡ some old
    → is_expired s now old ≡ true
    → ((get w now id s).0 ≡ none)
      × ((j : String) → lookup j (get w now id s).1.m ≡ (if id == j then none else lookup j s.m))
get_expired w now id s old ne h e = elim (get-Got w now id s) [
  | no_id q k ↦ absurd (ne q)
  | unknown q k ↦ cc
  | over old' n q x k ↦ (
    ap (λ r. r.0) k,
    (λ j. ap (λ r. lookup j r.1.m) k ∙ ap (lookup j) (persist-m w _) ∙ lookup-delete id j s.m),
  )
  | live old' n q x k ↦ cc (ap (is_expired s now) (some_eq (sym h ∙ q)))
]
