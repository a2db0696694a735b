-- ===== src/Tests/Commands.antt =====
-- The agent and the remote control.
use xal_tor_ka.Base.{
  ℕ, ◌≤◌, String, ◌≡◌, refl, ◌↔◌, true, Option, some, List, [], ◌∷◌, arith, ◌==◌, if◌then◌else◌,
  length, take, keep, In, lookup, sort_texts, insert_text, pos,
}
use xal_tor_ka.Agent.Command.{
  Command, Host, full_env, env_of, run_script, start, validate_params, undeclared, check_names,
  check_param, check_value, check_script_trust, is_open_to_others, is_owned_by_other,
}
use xal_tor_ka.Agent.Serve.{AgentRequest, Agent, is_denied, handle, handle_command}
use xal_tor_ka.Agent.Serve.Laws.{Vetted, handle-Vetted}
use xal_tor_ka.Agent.Buffer.{max_capture, write, write_all}
use xal_tor_ka.Agent.Buffer.Laws.{joined, write_all_lem}
use xal_tor_ka.Remote.Control.{Controller, Update, help_names, run, handle_updates, is_allowed_chat}
use xal_tor_ka.Remote.Control.Laws.{offset_after, replies, handle_updates_lem, run_iff}
use xal_tor_ka.Config.Expand.{expand, count}
use xal_tor_ka.Config.Expand.Laws.{expand_enough}

abbrev restart : Command
restart = record {
  name = "restart";
  script = "/cmd/restart.sh";
  manifest = record {
    timeout_seconds = pos 0;
    params = ("unit", record { required = true; pattern = ""; enum = "nginx" ∷ "php" ∷ [] }) ∷ [];
  };
}

abbrev host : Host
host = record {
  full_match = (λ pattern v. true);
  to_upper = (λ s. if s == "unit" then "UNIT" else s);
  stat = (λ path. some (record { is_regular = true; perm = 493; uid = some 0 }));
  exec = (λ script env. some (record { code = pos 0; stdout = "done"; stderr = "" }));
}

abbrev agent : Agent
agent = record { trusted_uid = 0; allow_uid = pos 1000; commands = ("restart", restart) ∷ [] }

abbrev asking : Option AgentRequest
asking = some (record { cmd = "restart"; params = ("unit", "nginx") ∷ [] })

abbrev environment : List String
environment =
    "PATH=/usr/local/sbin:/usr/local/bin:/usr/sbin:/usr/bin:/sbin:/bin" ∷ "XTK_AGENT=1"
    ∷ "XTK_P_UNIT=nginx" ∷ []

handle-Vetted_example : Vetted host agent (some 1000) asking "/cmd/restart.sh" environment
unfolding handle handle_command is_denied lookup run_script start validate_params undeclared
    check_names check_param check_value check_script_trust is_open_to_others is_owned_by_other
    full_env env_of sort_texts insert_text
handle-Vetted_example =
    handle-Vetted host agent (some 1000) asking "/cmd/restart.sh" environment refl

abbrev pieces : List (List ℕ)
pieces = (1 ∷ 2 ∷ []) ∷ [] ∷ (3 ∷ []) ∷ []

write_all_lem_example :
    (write_all pieces [] ≡ take max_capture (joined pieces))
    × (length (write_all pieces []) ≤ max_capture)
    × ((p b : List ℕ) → (write p b).1 ≡ length p)
write_all_lem_example = write_all_lem pieces

abbrev controller : Controller
controller = record {
  allow_commands = "status" ∷ [];
  commands = ("status", (λ args. "up")) ∷ ("reboot", (λ args. "no")) ∷ [];
}

abbrev updates : List Update
updates =
    record { update_id = pos 4; chat_id = pos 7; text = "/status" }
    ∷ record { update_id = pos 5; chat_id = pos 8; text = "/status" }
    ∷ []

handle_updates_lem_example :
    ((handle_updates (λ s. s) controller ("7" ∷ []) (pos 4) updates).0
      ≡ offset_after (pos 4) updates)
    × ((handle_updates (λ s. s) controller ("7" ∷ []) (pos 4) updates).1
        ≡ replies
            (λ s. s)
            controller
            ("7" ∷ [])
            (keep (λ up. is_allowed_chat ("7" ∷ []) up.chat_id) updates))
handle_updates_lem_example = handle_updates_lem (λ s. s) controller ("7" ∷ []) (pos 4) updates

run_iff_example :
    ((run controller "reboot" "").0 ≡ some "reboot") ↔ In "reboot" (help_names controller)
run_iff_example = run_iff controller "reboot" "" refl

expand_enough_example :
    expand 9 (λ name. some "/etc") "${DIR}/x" ≡ expand 100 (λ name. some "/etc") "${DIR}/x"
unfolding count
expand_enough_example =
    expand_enough (λ name. some "/etc") 9 100 "${DIR}/x" (omega arith) (omega arith)
