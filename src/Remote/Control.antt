-- ===== src/Remote/Control.antt =====
-- remote/control.go: the commands that arrive by Telegram. Fetching the updates, sending the replies
-- and strings.ToLower are arguments; the log is not modelled.
pub mod Laws
use Prim.Native.String.{len, ◌++◌ as str_append}
use Prim.Native.String
use xal_tor_ka.Base.{
  ℕ, zero, suc, ◌+◌, ◌-◌, ◌*◌, ◌/◌, ◌%◌, ◌^◌, ◌≤◌, ◌<◌, String, Char, code, ◌≡◌, refl, sym, ap, ◌∙◌,
  ◌≢◌, ◌↔◌, ◌⊎◌, inl, inr, Bool, true, false, not, ◌&&◌, ◌||◌, Option, none, some, List, [], ◌∷◌,
  ◌++◌, map, arith, ◌==◌, eq_iff, eq_refl, ltb, leb, eqb, if◌then◌else◌, ltb→lt, lt→ltb, leb→le,
  ltb→le, eqb→eq, eqb_refl, Bool-cases, Option-cases, some_eq, is_some, and→both, both→and,
  or→either, length, take, drop, length-append, length-take, length-drop, take-append-drop, any,
  all, keep, In, All, All-append, All-map, All-at, All-of, In-append_left, In-append_right,
  In-append, any→In, In→any, any-eq-false, all→All, keep-In, In-keep, has_prefix, trim_right,
  trim_char, index_char, has_char, trim_space, ne→false, false→ne, last_index_char,
  has_prefix→append, has_prefix-append, trim_char-lacks, len-cons, len-nil, len-cons-pos,
  has_prefix_unique, has_prefix_refl, has_prefix_shorter, eq-nil_of_len, ne-nil_of_len, Dict,
  lookup, insert, delete, has_key, lookup-insert, lookup-insert_self, lookup-delete, dict_laws,
  is_space, sort_texts, ℤ, pos, negsuc, sub_ℕ, ltb_ℤ, is_pos, add_clamped,
}
use xal_tor_ka.Handlers.Admin.Upstream.{fields_func, decimal_digits}

-- The parts of a Controller that its functions read.
pub record Controller : Type 0 where
  pub allow_commands : List String
  pub commands : Dict (String → String)

-- tgUpdate
pub record Update : Type 0 where
  pub update_id : ℤ
  pub chat_id : ℤ
  pub text : String

-- contains
unfoldable pub contains : List String → String → Bool
contains ss s = any (λ x. x == s) ss

-- len(AllowCommands) == 0 || contains(AllowCommands, k)
unfoldable pub is_allowed : List String → String → Bool
is_allowed [] k = true
is_allowed (a ∷ allowed) k = contains (a ∷ allowed) k

-- names of helpText before the sort
unfoldable pub help_names : Controller → List String
help_names c = "help" ∷ keep (is_allowed c.allow_commands) (map (λ k. k.0) c.commands)

-- strings.Join
unfoldable pub join : String → List String → String
join sep [] = ""
join sep (s ∷ ss) = elim ss [ [] ↦ s | t ∷ ts ↦ str_append s (str_append sep (join sep ss)) ]

-- helpText
unfoldable pub help_text : Controller → String
help_text c = str_append "commands: " (join ", " (sort_texts (help_names c)))

-- run; the first component is the handler's name, where a handler has been called
unfoldable pub run : Controller → String → String → Option String × String
run c cmd args =
    let called : Option String × String = elim (lookup cmd c.commands) [
      | none ↦
          (none, str_append "unknown command: " (str_append cmd (str_append "\n" (help_text c))))
      | some handler ↦ (some cmd, handler args)
    ] in
    if cmd == "help" || cmd == ""
    then (none, help_text c)
    else if not (is_allowed c.allow_commands cmd)
    then (none, str_append "command not allowed: " cmd)
    else called

-- s[n:], s behind n of its bytes, for a cut between characters
unfoldable pub drop_prefix : String → String → String
drop_prefix s String.[] = s
drop_prefix String.[] (String.◌∷◌ c p) = ""
drop_prefix (String.◌∷◌ d s) (String.◌∷◌ c p) = drop_prefix s p

-- strings.TrimPrefix
unfoldable pub trim_prefix : String → String → String
trim_prefix s p = if has_prefix s p then drop_prefix s p else s

-- the name and the arguments of a text whose first field is given
unfoldable pub command_of : (String → String) → String → String → String × String
command_of lower text first = (lower (trim_prefix first "/"), trim_space (trim_prefix text first))

-- dispatch; none where nothing is sent back
unfoldable pub dispatch : (String → String) → Controller → String → Option (Option String × String)
dispatch lower c text = elim (fields_func is_space text) [
  | [] ↦ none
  | first ∷ others ↦ let (cmd, args) = command_of lower text first in some (run c cmd args)
]

-- strconv.FormatInt of an int64
unfoldable pub format_int : ℤ → String
format_int (pos n) = decimal_digits 19 n
format_int (negsuc n) = str_append "-" (decimal_digits 19 (suc n))

-- the map allow of telegramLoop
unfoldable pub is_allowed_chat : List String → ℤ → Bool
is_allowed_chat ids chat = any (λ id. trim_space id == format_int chat) ids

-- id + 1
unfoldable pub next_id : ℤ → ℤ
next_id (pos n) = pos (suc n)
next_id (negsuc zero) = pos 0
next_id (negsuc (suc n)) = negsuc n

-- A reply: the chat, the handler that has been called for it, and the text.
pub record Sent : Type 0 where
  pub chat_id : ℤ
  pub called : Option String
  pub text : String

unfoldable pub reply_to : ℤ → Option (Option String × String) → List Sent
reply_to chat none = []
reply_to chat (some (called, text)) = record { chat_id = chat; called = called; text = text } ∷ []

-- for _, up := range u.Result
unfoldable pub handle_updates :
    (String → String) → Controller → List String → ℤ → List Update → ℤ × List Sent
handle_updates lower c allow offset [] = (offset, [])
handle_updates lower c allow offset (up ∷ ups) =
    let (last, sent) = handle_updates lower c allow (next_id up.update_id) ups in
    let replies = reply_to up.chat_id (dispatch lower c up.text) in
    if is_allowed_chat allow up.chat_id then (last, replies ++ sent) else (last, sent)

-- pollTelegram; none is an answer that did not come or is not OK
unfoldable pub poll_telegram :
    (String → String) → Controller → List String → Option (List Update) → ℤ → ℤ × List Sent
poll_telegram lower c allow none offset = (offset, [])
poll_telegram lower c allow (some ups) offset = handle_updates lower c allow offset ups
