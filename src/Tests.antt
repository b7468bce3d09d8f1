-- ===== src/Tests.antt =====
-- Worlds, gates and an environment on which the theorems are applied.
pub mod Gates
pub mod Flows
pub mod Agents
pub mod Steps
pub mod Schema
pub mod Onboarded
pub mod Access
use loop_revops_agents.Base.{
  ℕ, String, Bool, true, false, Option, none, some, List, [], ◌∷◌, str_eq, if◌then◌else◌,
}
use loop_revops_agents.World.{World, Env, Error}
use loop_revops_agents.World.Values.{Fields, end, field, text, flag}
use loop_revops_agents.World.Rows.{Gate, Status, Decision, Rate}

abbrev pub env : Env
env = record {
  org = λ _ _. some end;
  slack = λ _ _. true;
  config = λ name. if str_eq name "SLACK_TEST_CHANNEL" then some "C0TEST" else none;
}

abbrev pub message : Error → String
message e = "failed"

-- An org that takes every deployment.
abbrev pub taking_env : Env
taking_env = record {
  org = λ _ _. some (
      field "id" (text "0Af1")
        (field "success" (flag true) (field "status" (text "Succeeded") end)));
  slack = λ _ _. true;
  config = λ _. some "sandbox";
}

abbrev pub world_of : List Gate → List Rate → World
world_of gates rates = record {
  gates = gates;
  audit = [];
  rates = rates;
  calls = [];
  sent = [];
  enrollments = [];
  bundles = [];
  runs = [];
  tasks = [];
}

abbrev pub empty_world : World
empty_world = world_of [] []

abbrev pub gate_row : ℕ → String → Status → List Decision → Fields → Gate
gate_row gate_id action_type status approvals payload = record {
  id = gate_id;
  agent_name = "cs";
  action_type = action_type;
  payload = payload;
  justification = some "asked for by the account's owner";
  requested_by = "hutch";
  approved_by = none;
  approvals = approvals;
  status = status;
  requested_at = 0;
  decided_at = none;
  expires_at = 1;
  cooldown_until = none;
  parent_gate_id = none;
}

abbrev pub vote : String → Decision
vote name = record { approver = name; approved = true; decided_at = 5 }
