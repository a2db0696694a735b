-- ===== src/Health/Checker.antt =====
-- health/checker.go. The network is an argument: what a probe of a backend observes within a time
-- limit, and when. A tick is one step; the alerter is the list of what it was told, newest first.
pub mod Laws
use xal_tor_ka.Base.{
  ℕ, zero, suc, ◌+◌, ◌-◌, ◌*◌, ◌/◌, ◌%◌, ◌^◌, ◌≤◌, ◌<◌, String, Char, code, ◌≡◌, refl, sym, ap, ◌∙◌,
  ◌≢◌, ◌↔◌, ◌⊎◌, inl, inr, Bool, true, false, not, ◌&&◌, ◌||◌, Option, none, some, List, [], ◌∷◌,
  ◌++◌, map, arith, ◌==◌, eq_iff, eq_refl, ltb, leb, eqb, if◌then◌else◌, ltb→lt, lt→ltb, leb→le,
  ltb→le, eqb→eq, eqb_refl, Bool-cases, Option-cases, some_eq, is_some, and→both, both→and,
  or→either, length, take, drop, length-append, length-take, length-drop, take-append-drop, any,
  all, keep, In, All, All-append, All-map, All-at, All-of, In-append_left, In-append_right,
  In-append, any→In, In→any, any-eq-false, all→All, keep-In, In-keep, has_prefix, trim_right,
  trim_char, index_char, has_char, trim_space, ne→false, false→ne, last_index_char,
  has_prefix→append, has_prefix-append, trim_char-lacks, len-cons, len-nil, len-cons-pos,
  has_prefix_unique, has_prefix_refl, has_prefix_shorter, eq-nil_of_len, ne-nil_of_len, Dict,
  lookup, insert, delete, has_key, lookup-insert, lookup-insert_self, lookup-delete, dict_laws, ℤ,
  pos, negsuc, sub_ℕ, ltb_ℤ, is_pos, add_clamped,
}
use xal_tor_ka.Models.Services.{
  ProviderCfg, Route, Health, WafCfg, HostingRef, NginxOpts, Backend, Link, Monitor, Services,
}

abbrev pub state_unknown : String
state_unknown = "unknown"

abbrev pub state_up : String
state_up = "up"

abbrev pub state_down : String
state_down = "down"

abbrev pub state_unreachable : String
state_unreachable = "unreachable"

-- The text of LastError: empty, the error of the network, or "HTTP " and the code.
pub data LastError : Type 0 where
  no_error : LastError
  net_error : String → LastError
  http_error : ℕ → LastError

pub record Status : Type 0 where
  pub backend_id : String
  pub host : String
  pub url : String
  pub state : String
  pub last_error : LastError
  pub last_check : ℕ

pub record Alert : Type 0 where
  pub cur : Status
  pub prev : String

pub record Checker : Type 0 where
  pub alerter : Option (List Alert)
  pub status : Dict Status

-- No response, or one with its code.
pub data Response : Type 0 where
  failed : String → Response
  responded : ℕ → Response

pub record Observed : Type 0 where
  pub start : ℕ
  pub response : Response

abbrev pub Network : Type 0
Network = Backend → ℕ → Observed

-- a number of seconds in nanoseconds, the default where it is not positive
unfoldable pub seconds_or : ℕ → ℤ → ℕ
seconds_or d (pos (suc n)) = suc n * 1000000000
seconds_or d n = d * 1000000000

unfoldable pub is_success : ℕ → Bool
is_success code = leb 200 code && ltb code 300

unfoldable pub state_of : Response → String
state_of (failed e) = state_unreachable
state_of (responded code) = if is_success code then state_up else state_down

unfoldable pub error_of : Response → LastError
error_of (failed e) = net_error e
error_of (responded code) = if is_success code then no_error else http_error code

unfoldable pub status_of : Backend → Observed → Status
status_of be o = record {
  backend_id = be.id;
  host = be.host;
  url = be.health.url;
  state = state_of o.response;
  last_error = error_of o.response;
  last_check = o.start;
}

unfoldable pub is_change : String → String → Bool
is_change prev cur = not (prev == "") && not (prev == state_unknown) && not (prev == cur)

-- the alert at the end of probe
unfoldable pub notify : Status → String → Checker → Checker
notify st prev c = elim c.alerter [
  | none ↦ c
  | some log ↦
      if is_change prev st.state
      then record c { alerter = some (record { cur = st; prev = prev } ∷ log) }
      else c
]

unfoldable pub probe : Network → Backend → String → Checker → Checker
probe net be prev c =
    let st = status_of be (net be (seconds_or 5 be.health.timeout_seconds)) in
    notify st prev (record c { status = insert be.id st c.status })

-- the part of the loop behind the lookup
unfoldable pub probe_if_due : Network → ℕ → Backend → Option Status → Checker → Checker
probe_if_due net now be none c = probe net be "" c
probe_if_due net now be (some prev) c =
    if ltb_ℤ (sub_ℕ now prev.last_check) (pos (seconds_or 30 be.health.interval_seconds))
    then c
    else probe net be prev.state c

unfoldable pub visit : Network → ℕ → Checker → Backend → Checker
visit net now c be =
    if be.health.url == "" then c else probe_if_due net now be (lookup be.id c.status) c

-- tick
unfoldable pub tick : Network → ℕ → List Backend → Checker → Checker
tick net now [] c = c
tick net now (be ∷ bes) c = tick net now bes (visit net now c be)

-- New
unfoldable pub new_checker : Bool → Checker
new_checker alerting = record { alerter = if alerting then some [] else none; status = [] }
