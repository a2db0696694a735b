-- ===== src/Agent/Serve/Laws.antt =====
-- agent/agent.go and agent/command.go: what stands between the socket and a script.
use xal_tor_ka.Base.{
  ℕ, String, ◌≡◌, refl, sym, ap, inl, inr, true, false, Option, none, some, List, Bool-cases,
  Option-cases, some_eq, Dict, lookup,
}
use xal_tor_ka.Agent.Command.{
  Command, Host, full_env, validate_params, check_script_trust, start, run_script,
}
use xal_tor_ka.Agent.Command.Laws.{Accepted, validate_params-Accepted}
use xal_tor_ka.Agent.Serve.{
  AgentRequest, Agent, Handled, is_denied, handle_command, handle, malformed,
}

-- A script of the registry, trusted, with accepted parameters, asked for by a peer that may.
pub record Vetted (h : Host) (a : Agent) (creds : Option ℕ) (req : Option AgentRequest)
    (script : String) (env : List String) : Type 0 where
  pub asked : AgentRequest
  pub received : req ≡ some asked
  pub peer : is_denied a.allow_uid creds ≡ false
  pub command : Command
  pub registered : lookup asked.cmd a.commands ≡ some command
  pub script_its : script ≡ command.script
  pub trusted : check_script_trust a.trusted_uid (h.stat command.script) ≡ true
  pub accepted : Accepted h.full_match command.manifest.params asked.params
  pub env_its : env ≡ full_env h.to_upper asked.params

run_script-started :
    (h : Host) (trusted : ℕ) (c : Command) (params : Dict String) (script : String)
    (env : List String)
    → (run_script h trusted c params).started ≡ some (script, env)
    → (validate_params h.full_match c params ≡ none)
      × (check_script_trust trusted (h.stat c.script) ≡ true)
      × (script ≡ c.script)
      × (env ≡ full_env h.to_upper params)
unfolding run_script start
run_script-started h trusted c params script env q =
    elim (Option-cases (validate_params h.full_match c params)) [
      | inr (wrong, e) ↦ absurd (cc (rw (e, run_script) at q))
      | inl e ↦ elim (Bool-cases (check_script_trust trusted (h.stat c.script))) [
        | inr k ↦ absurd (cc (rw (e, k, run_script) at q))
        | inl k ↦
            let same : some (c.script, full_env h.to_upper params) ≡ some (script, env) =
              rw (e, k, run_script, start) at q in
            (e, k, sym (ap (λ x. x.0) (some_eq same)), sym (ap (λ x. x.1) (some_eq same)))
      ]
    ]

-- Whatever a connection sends, the agent starts at most one process, and only a script of its
-- registry that is a regular file, of the trusted owner if one is told, and writable by nobody else;
-- for a peer that is allowed; with parameters that are all declared and fit their specs, the required
-- ones among them; and they go to it only in the environment.
pub handle-Vetted :
    (h : Host) (a : Agent) (creds : Option ℕ) (req : Option AgentRequest) (script : String)
    (env : List String)
    → (handle h a creds req).0 ≡ some (script, env)
    → Vetted h a creds req script env
unfolding handle handle_command
handle-Vetted h a creds req script env q = elim (Bool-cases (is_denied a.allow_uid creds)) [
  | inl e ↦ absurd (cc (rw (e, handle) at q))
  | inr e ↦ by_request req refl (rw (e, handle) at q) e
]
  where
    answered : Option AgentRequest → Handled
    answered o = elim o [ none ↦ (none, malformed) | some x ↦ handle_command h a x ]

    by_request :
        (o : Option AgentRequest)
        → req ≡ o
        → (answered o).0 ≡ some (script, env)
        → is_denied a.allow_uid creds ≡ false
        → Vetted h a creds req script env
    by_request none k w peer = cc
    by_request (some x) k w peer = elim (Option-cases (lookup x.cmd a.commands)) [
      | inl u ↦ absurd (cc (rw (u, handle_command) at w))
      | inr (c, u) ↦
          let (valid, trust, s, v) =
            run_script-started h a.trusted_uid c x.params script env
              (rw (u, handle_command) at w) in
          record {
            asked = x;
            received = k;
            peer = peer;
            command = c;
            registered = u;
            script_its = s;
            trusted = trust;
            accepted = validate_params-Accepted h.full_match c x.params valid;
            env_its = v;
          }
    ]
