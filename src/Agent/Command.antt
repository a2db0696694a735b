-- ===== src/Agent/Command.antt =====
-- agent/command.go: the check of a command's parameters and of its script, and the run. Regular
-- expressions, strings.ToUpper, the file's metadata and the process itself are arguments.
pub mod Laws
use Prim.Native.String.{◌++◌ as str_append}
use xal_tor_ka.Base.{
  ℕ, zero, suc, ◌+◌, ◌-◌, ◌*◌, ◌/◌, ◌%◌, ◌^◌, ◌≤◌, ◌<◌, String, Char, code, ◌≡◌, refl, sym, ap, ◌∙◌,
  ◌≢◌, ◌↔◌, ◌⊎◌, inl, inr, Bool, true, false, not, ◌&&◌, ◌||◌, Option, none, some, List, [], ◌∷◌,
  ◌++◌, map, arith, ◌==◌, eq_iff, eq_refl, ltb, leb, eqb, if◌then◌else◌, ltb→lt, lt→ltb, leb→le,
  ltb→le, eqb→eq, eqb_refl, Bool-cases, Option-cases, some_eq, is_some, and→both, both→and,
  or→either, length, take, drop, length-append, length-take, length-drop, take-append-drop, any,
  all, keep, In, All, All-append, All-map, All-at, All-of, In-append_left, In-append_right,
  In-append, any→In, In→any, any-eq-false, all→All, keep-In, In-keep, has_prefix, trim_right,
  trim_char, index_char, has_char, trim_space, ne→false, false→ne, last_index_char,
  has_prefix→append, has_prefix-append, trim_char-lacks, len-cons, len-nil, len-cons-pos,
  has_prefix_unique, has_prefix_refl, has_prefix_shorter, eq-nil_of_len, ne-nil_of_len, Dict,
  lookup, insert, delete, has_key, lookup-insert, lookup-insert_self, lookup-delete, dict_laws,
  sort_texts, ℤ, pos, negsuc, sub_ℕ, ltb_ℤ, is_pos, add_clamped,
}

pub record ParamSpec : Type 0 where
  pub required : Bool
  pub pattern : String
  pub enum : List String

pub record Manifest : Type 0 where
  pub timeout_seconds : ℤ
  pub params : Dict ParamSpec

pub record Command : Type 0 where
  pub name : String
  pub script : String
  pub manifest : Manifest

-- the errors of validate, with the name that each prints
pub data ParamError : Type 0 where
  unknown_parameter : String → ParamError
  missing_parameter : String → ParamError
  not_in_set : String → ParamError
  no_match : String → ParamError

-- for k := range params, the first key that is not declared
unfoldable pub undeclared : Dict ParamSpec → Dict String → Option String
undeclared specs [] = none
undeclared specs ((k, v) ∷ params) =
    let rest = undeclared specs params in if has_key k specs then rest else some k

-- the checks of a value that is there. A spec has a regular expression exactly if its pattern is
-- not empty, and `full_match` is the match of the whole value.
unfoldable pub check_value :
    (String → String → Bool) → String → ParamSpec → String → Option ParamError
check_value full_match n spec v =
    if ltb 0 (length spec.enum) && not (any (λ e. v == e) spec.enum)
    then some (not_in_set n)
    else if not (spec.pattern == "") && not (full_match spec.pattern v)
    then some (no_match n)
    else none

-- one round of the second loop
unfoldable pub check_param :
    (String → String → Bool) → Dict String → String → ParamSpec → Option ParamError
check_param full_match params n spec = elim (lookup n params) [
  | none ↦ if spec.required then some (missing_parameter n) else none
  | some v ↦ check_value full_match n spec v
]

-- for _, n := range names, with the manifest's spec of each name
unfoldable pub check_names :
    (String → String → Bool) → Dict ParamSpec → Dict String → List String → Option ParamError
check_names full_match specs params [] = none
check_names full_match specs params (n ∷ ns) =
    let rest = check_names full_match specs params ns in
    let found : Option ParamError = elim (lookup n specs) [
      | none ↦ none
      | some spec ↦ check_param full_match params n spec
    ] in
    elim found [ some wrong ↦ some wrong | none ↦ rest ]

-- validate; none is no error
unfoldable pub validate_params :
    (String → String → Bool) → Command → Dict String → Option ParamError
validate_params full_match c params =
    let specs = c.manifest.params in
    elim (undeclared specs params) [
      | some k ↦ some (unknown_parameter k)
      | none ↦ check_names full_match specs params (sort_texts (map (λ k. k.0) specs))
    ]

-- what os.Stat says of a script: its permission bits as a number
pub record FileInfo : Type 0 where
  pub is_regular : Bool
  pub perm : ℕ
  pub uid : Option ℕ

-- perm & 0o022 != 0: the bits 1 and 4
unfoldable pub is_open_to_others : ℕ → Bool
is_open_to_others perm = eqb (perm / 2 % 2) 1 || eqb (perm / 16 % 2) 1

unfoldable pub is_owned_by_other : ℕ → Option ℕ → Bool
is_owned_by_other trusted none = false
is_owned_by_other trusted (some uid) = not (eqb uid trusted)

-- checkScriptTrust; true is no error, and none a file that cannot be asked for
unfoldable pub check_script_trust : ℕ → Option FileInfo → Bool
check_script_trust trusted none = false
check_script_trust trusted (some fi) =
    fi.is_regular && not (is_open_to_others fi.perm) && not (is_owned_by_other trusted fi.uid)

-- Result
pub record RunResult : Type 0 where
  pub code : ℤ
  pub stdout : String
  pub stderr : String

-- The process of a script with its environment; none is one that does not start. One that is killed
-- has the exit code -1.
abbrev pub Exec : Type 0
Exec = String → List String → Option RunResult

-- why run returns an error
pub data RunError : Type 0 where
  bad_parameter : ParamError → RunError
  untrusted : RunError
  not_run : RunError

unfoldable pub env_of : (String → String) → Dict String → List String
env_of to_upper [] = []
env_of to_upper ((k, v) ∷ params) =
    str_append "XTK_P_" (str_append (to_upper k) (str_append "=" v)) ∷ env_of to_upper params

unfoldable pub full_env : (String → String) → Dict String → List String
full_env to_upper params =
    "PATH=/usr/local/sbin:/usr/local/bin:/usr/sbin:/usr/bin:/sbin:/bin"
    ∷ "XTK_AGENT=1"
    ∷ env_of to_upper params

-- What run has started, a script with its environment, and what it returns.
pub record Run : Type 0 where
  pub started : Option (String × List String)
  pub outcome : RunResult ⊎ RunError

abbrev pub not_started : RunError → Run
not_started why = record { started = none; outcome = inr why }

-- what the run needs of the machine
pub record Host : Type 0 where
  pub full_match : String → String → Bool
  pub to_upper : String → String
  pub stat : String → Option FileInfo
  pub exec : Exec

-- the part of run behind the checks
unfoldable pub start : Host → Command → Dict String → Run
start h c params =
    let env = full_env h.to_upper params in
    record {
      started = some (c.script, env);
      outcome = elim (h.exec c.script env) [ none ↦ inr not_run | some res ↦ inl res ];
    }

-- run
unfoldable pub run_script : Host → ℕ → Command → Dict String → Run
run_script h trusted c params = elim (validate_params h.full_match c params) [
  | some wrong ↦ not_started (bad_parameter wrong)
  | none ↦
      if check_script_trust trusted (h.stat c.script)
      then start h c params
      else not_started untrusted
]
