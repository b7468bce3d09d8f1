-- ===== src/System.antt =====
-- The program as a system of steps: every operation of the components that writes to the world, in
-- any order, by any agent or person and at any time. A write of the pending changes, of the runs or
-- of the tasks may leave anything there.
pub mod Lawful
pub mod Settled
pub mod Handlers
pub mod Flows
pub mod Batches
pub mod Changes
pub mod Deployments
pub mod Rollbacks
pub mod Access
pub mod Won
pub mod Gated
pub mod Polls
pub mod Leaving
pub mod Every
use loop_revops_agents.Base.{ℕ, String, Bool, Option, List, []}
use loop_revops_agents.World.{World, SfCall, deploy_call, retrieve_call, delete_call, Env}
use loop_revops_agents.World.Values.{Json, Fields}
use loop_revops_agents.World.Bundles.{Bundle}
use loop_revops_agents.World.Runs.{Run, Task}
use loop_revops_agents.World.Rows.{EnrollmentStatus}
use loop_revops_agents.Governance.Gates.{
  Entry, Request, write_audit, create_approval_gate, decide_approval_gate, auto_approve_gate,
}
use loop_revops_agents.Governance.Limits.{check_rate_limit}
use loop_revops_agents.Salesforce.{sf, create_record, update_record, merge_records}
use loop_revops_agents.Dispatcher.{send, handle_gate_decision}
use loop_revops_agents.Cooldown.{set_parent}
use loop_revops_agents.Enroller.{Batch, record_enrollment}
use loop_revops_agents.Bulk.{Ports, http_patch}

abbrev pub initial : World
initial = record {
  gates = [];
  audit = [];
  rates = [];
  calls = [];
  sent = [];
  enrollments = [];
  bundles = [];
  runs = [];
  tasks = [];
}

pub data Step (env : Env) : World → World → Type 0 where
  opened : (now : ℕ) (r : Request) (w : World) → Step env w (create_approval_gate now r w).1
  voted :
      (now k : ℕ) (yes_vote : Bool) (approver : String) (w : World)
      → Step env w (decide_approval_gate now k yes_vote approver w).1
  auto_approved :
      (now k : ℕ) (approver : String) (w : World)
      → Step env w (auto_approve_gate now k approver w).1
  pressed :
      (now k : ℕ) (yes_vote : Bool) (approver : String) (w : World)
      → Step env w (handle_gate_decision now k yes_vote approver w).1
  linked : (child parent : ℕ) (w : World) → Step env w (set_parent child parent w).1
  audited : (e : Entry) (w : World) → Step env w (write_audit e w).1
  limited :
      (now : ℕ) (bucket : String) (seconds : ℕ) (mode : Option String) (w : World)
      → Step env w (check_rate_limit now bucket seconds mode w).1
  created :
      (sobject : String) (d : Fields) (agent : String) (gate_id : Option ℕ) (w : World)
      → Step env w (create_record env sobject d agent gate_id w).1
  updated :
      (sobject : String) (k : Json) (d : Fields) (agent : String) (gate_id : Option ℕ) (w : World)
      → Step env w (update_record env sobject k d agent gate_id w).1
  merged :
      (sobject master : String) (dups : List String) (agent : String) (gate_id : Option ℕ)
      (w : World)
      → Step env w (merge_records env sobject master dups agent gate_id w).1
  patched :
      (p : Ports) (token : String) (call : SfCall) (w : World)
      → Step env w (http_patch p token call w).1
  sent :
      (channel : Json) (gate_id : Option ℕ) (w : World) → Step env w (send env channel gate_id w).1
  recorded :
      (b : Batch) (now : ℕ) (lead : String) (sf_id : Json) (status : EnrollmentStatus) (w : World)
      → Step env w (record_enrollment b now lead sf_id status w).1
  deployed :
      (alias : String) (args : List String) (w : World)
      → Step env w (sf env (deploy_call alias args) w).1
  retrieved :
      (alias : String) (args : List String) (w : World)
      → Step env w (sf env (retrieve_call alias args) w).1
  deleted :
      (sobject : String) (k : Json) (w : World) → Step env w (sf env (delete_call sobject k) w).1
  filed : (bundles : List Bundle) (w : World) → Step env w (record w { bundles = bundles })
  ran : (runs : List Run) (w : World) → Step env w (record w { runs = runs })
  tasked : (tasks : List Task) (w : World) → Step env w (record w { tasks = tasks })

-- The worlds that some steps lead to.
pub data Reach (env : Env) (w : World) : World → Type 0 where
  here : Reach env w w
  next : {u v : World} → Reach env w u → Step env u v → Reach env w v
