-- ===== src/Agent/Serve.antt =====
-- agent/agent.go, handle: one connection. The peer's credentials and the decoded request are what
-- the socket gives, none where there are none. The log and the deadline are not modelled.
pub mod Laws
use xal_tor_ka.Base.{
  ℕ, zero, suc, ◌+◌, ◌-◌, ◌*◌, ◌/◌, ◌%◌, ◌^◌, ◌≤◌, ◌<◌, String, Char, code, ◌≡◌, refl, sym, ap, ◌∙◌,
  ◌≢◌, ◌↔◌, ◌⊎◌, inl, inr, Bool, true, false, not, ◌&&◌, ◌||◌, Option, none, some, List, [], ◌∷◌,
  ◌++◌, map, arith, ◌==◌, eq_iff, eq_refl, ltb, leb, eqb, if◌then◌else◌, ltb→lt, lt→ltb, leb→le,
  ltb→le, eqb→eq, eqb_refl, Bool-cases, Option-cases, some_eq, is_some, and→both, both→and,
  or→either, length, take, drop, length-append, length-take, length-drop, take-append-drop, any,
  all, keep, In, All, All-append, All-map, All-at, All-of, In-append_left, In-append_right,
  In-append, any→In, In→any, any-eq-false, all→All, keep-In, In-keep, has_prefix, trim_right,
  trim_char, index_char, has_char, trim_space, ne→false, false→ne, last_index_char,
  has_prefix→append, has_prefix-append, trim_char-lacks, len-cons, len-nil, len-cons-pos,
  has_prefix_unique, has_prefix_refl, has_prefix_shorter, eq-nil_of_len, ne-nil_of_len, Dict,
  lookup, insert, delete, has_key, lookup-insert, lookup-insert_self, lookup-delete, dict_laws, ℤ,
  pos, negsuc, sub_ℕ, ltb_ℤ, is_pos, add_clamped,
}
use xal_tor_ka.Agent.Command.{Command, Run, RunResult, RunError, Host, run_script}

pub record AgentRequest : Type 0 where
  pub cmd : String
  pub params : Dict String

pub record Agent : Type 0 where
  pub trusted_uid : ℕ
  pub allow_uid : ℤ
  pub commands : Dict Command

-- The reply on the socket: an error text's kind, or the result with ok for exit code 0.
pub data AgentReply : Type 0 where
  unauthorized : AgentReply
  malformed : AgentReply
  unknown_command : AgentReply
  command_failed : RunError → AgentReply
  finished : Bool → RunResult → AgentReply

-- a.AllowUID >= 0 && (!haveCreds || int(uid) != a.AllowUID)
unfoldable pub is_denied : ℤ → Option ℕ → Bool
is_denied (negsuc n) creds = false
is_denied (pos n) none = true
is_denied (pos n) (some uid) = not (eqb uid n)

unfoldable pub is_zero : ℤ → Bool
is_zero (pos n) = eqb n 0
is_zero (negsuc n) = false

unfoldable pub reply_of : RunResult ⊎ RunError → AgentReply
reply_of (inr why) = command_failed why
reply_of (inl res) = finished (is_zero res.code) res

-- what a connection has started and its reply
abbrev pub Handled : Type 0
Handled = Option (String × List String) × AgentReply

unfoldable pub handle_command : Host → Agent → AgentRequest → Handled
handle_command h a req = elim (lookup req.cmd a.commands) [
  | none ↦ (none, unknown_command)
  | some c ↦
      let done = run_script h a.trusted_uid c req.params in (done.started, reply_of done.outcome)
]

-- handle
unfoldable pub handle : Host → Agent → Option ℕ → Option AgentRequest → Handled
handle h a creds req =
    let answered : Handled = elim req [
      | none ↦ (none, malformed)
      | some q ↦ handle_command h a q
    ] in
    if is_denied a.allow_uid creds then (none, unauthorized) else answered
