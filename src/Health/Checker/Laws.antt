-- ===== src/Health/Checker/Laws.antt =====
-- health/checker.go: what the alerts tell.
use xal_tor_ka.Base.{
  ℕ, String, code, ◌≡◌, refl, sym, ◌∙◌, ◌≢◌, inl, inr, true, false, Option, none, some, List, [],
  ◌∷◌, ◌==◌, eq_iff, if◌then◌else◌, Bool-cases, Option-cases, some_eq, keep, ne→false, false→ne,
  Dict, lookup, insert, lookup-insert, lookup-insert_self, pos, sub_ℕ, ltb_ℤ,
}
use xal_tor_ka.Models.Services.{Backend}
use mathlib.Core.Path.{subst}
use xal_tor_ka.Health.Checker.{
  state_unknown, Status, Alert, Checker, Network, Response, failed, responded, is_success,
  seconds_or, state_of, status_of, is_change, notify, probe, probe_if_due, visit, tick, new_checker,
}

-- the alerts about one backend
abbrev pub about : String → List Alert → List Alert
about id log = keep (λ a. a.cur.backend_id == id) log

-- The newest alert tells of a change to the given state, from the one that the alert before it
-- told of, and so on back.
abbrev pub Chain : List Alert → String → Type 0
Chain [] state = Unit
Chain (a ∷ log) state = (a.cur.state ≡ state) × (a.prev ≢ a.cur.state) × Chain log a.prev

abbrev pub Told : String → Option Status → List Alert → Type 0
Told id none log = about id log ≡ []
Told id (some st) log = (st.state ≢ "") × (st.state ≢ state_unknown) × Chain (about id log) st.state

-- With an alerter, its alerts agree with the last states of all backends.
abbrev pub Agrees : Checker → Type 0
Agrees c =
    (log : List Alert) → c.alerter ≡ some log → (id : String) → Told id (lookup id c.status) log

known_state : (o : Response) → (state_of o ≢ "") × (state_of o ≢ state_unknown)
unfolding state_of
known_state (failed e) = (false→ne "unreachable" "" refl, false→ne "unreachable" "unknown" refl)
known_state (responded code) = elim (Bool-cases (is_success code)) [
  | inl e ↦ rw e (false→ne "up" "" refl, false→ne "up" "unknown" refl)
  | inr e ↦ rw e (false→ne "down" "" refl, false→ne "down" "unknown" refl)
]

-- the state that probe is told of
abbrev before : Option Status → String
before none = ""
before (some st) = st.state

new_Told :
    (id : String) (o : Option Status) (log : List Alert) (st : Status)
    → Told id o log
    → (st.state ≢ "") × (st.state ≢ state_unknown)
    → st.backend_id ≡ id
    → Told id
        (some st)
        (if is_change (before o) st.state then record { cur = st; prev = before o } ∷ log else log)
unfolding is_change
new_Told id none log st told (a, b) e = (a, b, subst (λ l. Chain l st.state) (sym told) tt)
new_Told id (some old) log st (p, q, chain) (a, b) e = elim (Bool-cases (old.state == st.state)) [
  | inl same ↦
      rw (ne→false old.state "" p, ne→false old.state "unknown" q, same)
        (a, b, subst (λ s. Chain (about id log) s) ((eq_iff old.state st.state).0 same) chain)
  | inr other ↦
      rw (ne→false old.state "" p, ne→false old.state "unknown" q, other)
        (a, b, rw ((eq_iff st.backend_id id).1 e) (refl, false→ne old.state st.state other, chain))
]

other_Told :
    (id : String) (o : Option Status) (log : List Alert) (a : Alert)
    → (a.cur.backend_id == id) ≡ false
    → Told id o log
    → Told id o (a ∷ log)
other_Told id none log a e t = rw e t
other_Told id (some st) log a e t = rw e t

notify-alerter :
    (st : Status) (prev : String) (c : Checker) (log : List Alert)
    → c.alerter ≡ some log
    → (notify st prev c).alerter
      ≡ some (if is_change prev st.state then record { cur = st; prev = prev } ∷ log else log)
unfolding notify
notify-alerter st prev c log e = elim (Bool-cases (is_change prev st.state)) [
  | inl k ↦ rw (e, notify, k) refl
  | inr k ↦ rw (e, notify, k) e
]

notify-none :
    (st : Status) (prev : String) (c : Checker)
    → c.alerter ≡ none
    → (notify st prev c).alerter ≡ none
unfolding notify
notify-none st prev c e = rw (e, notify) e

notify-status : (st : Status) (prev : String) (c : Checker) → (notify st prev c).status ≡ c.status
unfolding notify
notify-status st prev c = elim (Option-cases c.alerter) [
  | inl e ↦ rw (e, notify) refl
  | inr (log, e) ↦ elim (Bool-cases (is_change prev st.state)) [
    | inl k ↦ rw (e, notify, k) refl
    | inr k ↦ rw (e, notify, k) refl
  ]
]

-- one more status and the alert that goes with it
recorded-Told :
    (st : Status) (m : Dict Status) (log : List Alert)
    → ((id : String) → Told id (lookup id m) log)
    → (st.state ≢ "") × (st.state ≢ state_unknown)
    → (id : String)
    → Told id (lookup id (insert st.backend_id st m)) (
        if is_change (before (lookup st.backend_id m)) st.state
        then record { cur = st; prev = before (lookup st.backend_id m) } ∷ log
        else log)
recorded-Told st m log h known id = elim (Bool-cases (st.backend_id == id)) [
  | inl same ↦
      let e : st.backend_id ≡ id = (eq_iff st.backend_id id).0 same in
      subst
        (λ x. Told x (lookup x (insert st.backend_id st m)) (
          if is_change (before (lookup st.backend_id m)) st.state
          then record { cur = st; prev = before (lookup st.backend_id m) } ∷ log
          else log))
        e
        (rw (lookup-insert_self st.backend_id st m)
          (new_Told st.backend_id (lookup st.backend_id m) log st (h st.backend_id) known refl))
  | inr other ↦
      rw (lookup-insert st.backend_id id st m, other)
        (elim (Bool-cases (is_change (before (lookup st.backend_id m)) st.state)) [
          | inl k ↦ rw k (other_Told id (lookup id m) log _ other (h id))
          | inr k ↦ rw k (h id)
        ])
]

module _ (net : Network) where
  probe-Agrees :
      (be : Backend) (c : Checker)
      → Agrees c
      → Agrees (probe net be (before (lookup be.id c.status)) c)
  unfolding probe status_of
  probe-Agrees be c h log e id = elim (Option-cases c.alerter) [
    | inl k ↦ absurd (cc (notify-none _ _ (record c { status = _ }) k, e))
    | inr (old, k) ↦
        let prev = before (lookup be.id c.status) in
        let o = net be (seconds_or 5 be.health.timeout_seconds) in
        let st = status_of be o in
        let c' = record c { status = insert be.id st c.status } in
        let told = recorded-Told st c.status old (h old k) (known_state o.response) id in
        subst (λ l. Told id (lookup id (notify st prev c').status) l)
          (some_eq (sym (notify-alerter st prev c' old k) ∙ e))
          (subst
            (λ m.
              Told id (lookup id m)
                (if is_change prev st.state then record { cur = st; prev = prev } ∷ old else old))
            (sym (notify-status st prev c')) told)
  ]

  visit-Agrees : (now : ℕ) (be : Backend) (c : Checker) → Agrees c → Agrees (visit net now c be)
  unfolding visit probe_if_due
  visit-Agrees now be c h = elim (Bool-cases (be.health.url == "")) [
    | inl skip ↦ rw skip h
    | inr url ↦ rw url (due (lookup be.id c.status) refl)
  ]
    where
      due : (o : Option Status) → lookup be.id c.status ≡ o → Agrees (probe_if_due net now be o c)
      due none e = subst (λ x. Agrees (probe net be (before x) c)) e (probe-Agrees be c h)
      due (some prev) e =
          elim (Bool-cases
            (ltb_ℤ (sub_ℕ now prev.last_check) (pos (seconds_or 30 be.health.interval_seconds)))) [
              | inl early ↦ rw early h
              | inr late ↦
                  rw late (subst (λ x. Agrees (probe net be (before x) c)) e (probe-Agrees be c h))
            ]

  tick-Agrees :
      (now : ℕ) (bes : List Backend) (c : Checker) → Agrees c → Agrees (tick net now bes c)
  unfolding tick
  tick-Agrees now [] c h = h
  tick-Agrees now (be ∷ bes) c h =
      tick-Agrees now bes (visit net now c be) (visit-Agrees now be c h)

-- A tick with what the network does in it.
pub record Round : Type 0 where
  pub net : Network
  pub now : ℕ
  pub backends : List Backend

unfoldable pub rounds : Checker → List Round → Checker
rounds c [] = c
rounds c (r ∷ rs) = rounds (tick r.net r.now r.backends c) rs

new_Agrees : Agrees (new_checker true)
unfolding new_checker lookup
new_Agrees log e id = subst (λ l. about id l ≡ []) (some_eq e) refl

rounds-Agrees_from : (c : Checker) (rs : List Round) → Agrees c → Agrees (rounds c rs)
unfolding rounds
rounds-Agrees_from c [] h = h
rounds-Agrees_from c (r ∷ rs) h =
    rounds-Agrees_from (tick r.net r.now r.backends c) rs (tick-Agrees r.net r.now r.backends c h)

-- Whatever the network does and however the set of backends changes, the alerts about a backend
-- tell its history: the newest one names the last observed state, each names as the old state the
-- one that the alert before it told of, and no alert tells of a change that is none. A backend that
-- was never probed has no alert.
pub rounds-Agrees : (rs : List Round) → Agrees (rounds (new_checker true) rs)
rounds-Agrees rs = rounds-Agrees_from (new_checker true) rs new_Agrees
