-- ===== src/Auth/Sessions.antt =====
-- auth/session.go. The mutex makes each method one step on the store. An instant is a number of
-- nanoseconds and the clock's reading an argument; so is the random id of a new session, none
-- where the source of randomness fails, and whether the write of the file succeeds. The file is
-- its decoded content: encoding and decoding are the JSON library's.
pub mod Laws
pub mod History
pub mod Trust
use xal_tor_ka.Base.{
  ℕ, zero, suc, ◌+◌, ◌-◌, ◌*◌, ◌/◌, ◌%◌, ◌^◌, ◌≤◌, ◌<◌, String, Char, code, ◌≡◌, refl, sym, ap, ◌∙◌,
  ◌≢◌, ◌↔◌, ◌⊎◌, inl, inr, Bool, true, false, not, ◌&&◌, ◌||◌, Option, none, some, List, [], ◌∷◌,
  ◌++◌, map, arith, ◌==◌, eq_iff, eq_refl, ltb, leb, eqb, if◌then◌else◌, ltb→lt, lt→ltb, leb→le,
  ltb→le, eqb→eq, eqb_refl, Bool-cases, Option-cases, is_some, and→both, both→and, or→either,
  length, take, drop, length-append, length-take, length-drop, take-append-drop, any, all, keep, In,
  All, All-append, All-map, All-at, All-of, In-append_left, In-append_right, In-append, any→In,
  In→any, any-eq-false, all→All, keep-In, In-keep, has_prefix, trim_right, trim_char, index_char,
  has_char, has_prefix→append, has_prefix-append, trim_char-lacks, len-cons, len-nil, len-cons-pos,
  has_prefix_unique, has_prefix_refl, has_prefix_shorter, eq-nil_of_len, ne-nil_of_len, Dict,
  lookup, insert, delete, has_key, lookup-insert, lookup-insert_self, lookup-delete, dict_laws, ℤ,
  pos, negsuc, sub_ℕ, ltb_ℤ, is_pos, add_clamped,
}
use xal_tor_ka.Models.Identity.{User, Users, Session, SetupToken, SetupState}

pub record MemoryStore : Type 0 where
  pub m : Dict Session
  pub ttl : ℤ
  pub idle : ℤ
  pub path : String
  pub file : Option (Dict Session)

unfoldable pub new_memory_store : ℤ → ℤ → MemoryStore
new_memory_store ttl idle = record { m = []; ttl = ttl; idle = idle; path = ""; file = none }

-- load: an unreadable file leaves the map as it is
unfoldable pub load : MemoryStore → MemoryStore
load s = if s.path == "" then s else elim s.file [ none ↦ s | some saved ↦ record s { m = saved } ]

unfoldable pub new_persistent_store : ℤ → ℤ → String → Option (Dict Session) → MemoryStore
new_persistent_store ttl idle path file =
    load (record { m = []; ttl = ttl; idle = idle; path = path; file = file })

-- persistLocked
unfoldable pub persist_locked : Bool → MemoryStore → MemoryStore
persist_locked written s =
    if s.path == "" then s else if written then record s { file = some s.m } else s

abbrev pub fresh_session : String → String → String → ℕ → Session
fresh_session id email provider now = record {
  id = id;
  email = email;
  provider = provider;
  two_fa_done = false;
  created_at = now;
  last_seen = now;
}

-- Create
unfoldable pub create :
    Option String → Bool → ℕ → String → String → MemoryStore → Option Session × MemoryStore
create none written now email provider s = (none, s)
create (some id) written now email provider s =
    let sess = fresh_session id email provider now in
    (some sess, persist_locked written (record s { m = insert id sess s.m }))

-- d > 0 && now.Sub(since) > d
unfoldable pub is_over : ℤ → ℕ → ℕ → Bool
is_over d since now = is_pos d && ltb_ℤ d (sub_ℕ now since)

unfoldable pub is_expired : MemoryStore → ℕ → Session → Bool
is_expired s now sess = is_over s.ttl sess.created_at now || is_over s.idle sess.last_seen now

-- the part of Get behind the lookup
unfoldable pub get_found : Bool → ℕ → String → Session → MemoryStore → Option Session × MemoryStore
get_found written now id sess s =
    if is_expired s now sess
    then (none, persist_locked written (record s { m = delete id s.m }))
    else let seen = record sess { last_seen = now } in
      (some seen, record s { m = insert id seen s.m })

-- Get
unfoldable pub get : Bool → ℕ → String → MemoryStore → Option Session × MemoryStore
get written now id s =
    if id == ""
    then (none, s)
    else elim (lookup id s.m) [ none ↦ (none, s) | some sess ↦ get_found written now id sess s ]

-- Complete2FA
unfoldable pub complete_2fa : Bool → String → MemoryStore → Bool × MemoryStore
complete_2fa written id s = elim (lookup id s.m) [
  | none ↦ (false, s)
  | some sess ↦ (
    true,
    persist_locked written (record s { m = insert id (record sess { two_fa_done = true }) s.m }),
  )
]

-- Delete
unfoldable pub remove : Bool → String → MemoryStore → MemoryStore
remove written id s = persist_locked written (record s { m = delete id s.m })
