-- ===== src/Remote/Control/Laws.antt =====
-- remote/control.go: chats that are not allowed have no effect, an update is handled once, and help
-- lists what runs.
use xal_tor_ka.Base.{
  String, ◌≡◌, refl, sym, ap, ◌↔◌, inl, inr, false, ◌||◌, some, List, [], ◌∷◌, ◌++◌, map, arith,
  ◌==◌, eq_iff, Bool-cases, Option-cases, keep, In, keep-In, In-keep, false→ne, Dict, lookup, ℤ,
}
use xal_tor_ka.Remote.Control.{
  Controller, Update, Sent, is_allowed, help_names, run, dispatch, is_allowed_chat, next_id,
  reply_to, handle_updates,
}

-- the number after the last update
abbrev pub offset_after : ℤ → List Update → ℤ
offset_after offset [] = offset
offset_after offset (up ∷ ups) = offset_after (next_id up.update_id) ups

-- The replies to the updates of allowed chats, in their order.
abbrev pub replies : (String → String) → Controller → List String → List Update → List Sent
replies lower c allow [] = []
replies lower c allow (up ∷ ups) =
    reply_to up.chat_id (dispatch lower c up.text) ++ replies lower c allow ups

-- Every update is acknowledged, also one from a chat that is not allowed, and what is run and sent
-- back is what the updates of the allowed chats alone would give, in their order.
pub handle_updates_lem :
    (lower : String → String) (c : Controller) (allow : List String) (offset : ℤ)
    (ups : List Update)
    → ((handle_updates lower c allow offset ups).0 ≡ offset_after offset ups)
      × ((handle_updates lower c allow offset ups).1
          ≡ replies lower c allow (keep (λ up. is_allowed_chat allow up.chat_id) ups))
unfolding handle_updates
handle_updates_lem lower c allow offset [] = (refl, refl)
handle_updates_lem lower c allow offset (up ∷ ups) =
    let (ack, sent) = handle_updates_lem lower c allow (next_id up.update_id) ups in
    elim (Bool-cases (is_allowed_chat allow up.chat_id)) [
      | inl e ↦ (
        rw (e, handle_updates) ack,
        rw (e, handle_updates) (ap (λ l. reply_to up.chat_id (dispatch lower c up.text) ++ l) sent),
      )
      | inr e ↦ (rw (e, handle_updates) ack, rw (e, handle_updates) sent)
    ]

key-In :
    {A : Type 0} (k : String) (m : Dict A) (v : A) → lookup k m ≡ some v → In k (map (λ e. e.0) m)
unfolding lookup
key-In k [] v h = cc
key-In k ((j, w) ∷ m) v h = elim (Bool-cases (j == k)) [
  | inl e ↦ inl (sym ((eq_iff j k).0 e))
  | inr e ↦ inr (key-In k m v (rw (e, lookup) at h))
]

In-key :
    {A : Type 0} (k : String) (m : Dict A)
    → In k (map (λ e. e.0) m)
    → (v : A) × (lookup k m ≡ some v)
unfolding lookup
In-key k [] i = elim i [ ]
In-key k ((j, w) ∷ m) i = elim (Bool-cases (j == k)) [
  | inl e ↦ (w, rw e refl)
  | inr e ↦ elim i [
    | inl same ↦ absurd (false→ne j k e (sym same))
    | inr l ↦ let (v, q) = In-key k m l in (v, rw e q)
  ]
]

-- A command calls its handler exactly if help lists its name, apart from help itself and the empty
-- name: nothing runs that help does not show.
pub run_iff :
    (c : Controller) (cmd args : String)
    → (cmd == "help" || cmd == "") ≡ false
    → ((run c cmd args).0 ≡ some cmd) ↔ In cmd (help_names c)
unfolding run help_names
run_iff c cmd args other = (there, back)
  where
    there : (run c cmd args).0 ≡ some cmd → In cmd (help_names c)
    there h = elim (Bool-cases (is_allowed c.allow_commands cmd)) [
      | inr e ↦ absurd (cc (rw (other, e, run) at h))
      | inl e ↦ elim (Option-cases (lookup cmd c.commands)) [
        | inl k ↦ absurd (cc (rw (other, e, k, run) at h))
        | inr (f, k) ↦
            inr (In-keep (is_allowed c.allow_commands) cmd _ (key-In cmd c.commands f k) e)
      ]
    ]

    back : In cmd (help_names c) → (run c cmd args).0 ≡ some cmd
    back (inl e) = let named = (eq_iff cmd "help").1 e in absurd (ground arith)
    back (inr j) =
        let (key, allowed) = keep-In (is_allowed c.allow_commands) cmd _ j in
        let (f, k) = In-key cmd c.commands key in rw (other, allowed, k, run) refl
