-- ===== src/Onboarding.antt =====
-- agents/onboarding/csm_enforcer.py: onboardings without an owner.
pub mod Sweep
pub mod Creator
pub mod ClosedWon
pub mod Created
pub mod Polled
pub mod Stalls
use loop_revops_agents.Base.{
  ℕ, ◌+◌, String, Bool, true, false, Option, none, some, List, [], ◌∷◌, ◌++◌, not, length,
  if◌then◌else◌,
}
use loop_revops_agents.World.{
  World, Env, Result, ok, err, M, pure, raise, or_raise, raise_if, ◌>>=◌, ◌>>◌, missing_key,
  bad_value,
}
use loop_revops_agents.World.Values.{Json, Fields, null, text, end, field, get, truthy, find_field}
use loop_revops_agents.World.Rows.{record_target}
use loop_revops_agents.Governance.Gates.{
  Request, gate_entry, write_audit, create_approval_gate, require_approved_gate,
}
use loop_revops_agents.Salesforce.{update_record}
use loop_revops_agents.Dispatcher.{send, config_with}
use loop_revops_agents.Cs.{item_of}

abbrev pub onboarding_channel : Env → Json
onboarding_channel env =
    text (config_with env.config "ONBOARDING_JACKIE_CHANNEL" "#agent-onboarding-log")

abbrev pub csm_request : Fields → Request
csm_request payload = record {
  agent_name = "onboarding";
  action_type = "csm_reassignment";
  payload = payload;
  justification = none;
  requested_by = "system:onboarding";
  ttl_hours = 24;
}

abbrev pub unassigned_request : String → Fields → Json → Request
unassigned_request onboarding_id opp opp_id = csm_request (
    field "onboarding_id" (text onboarding_id) (
      field "opportunity_id" opp_id (
        field "account_id" (get "AccountId" opp) (
          field "current_owner_id" null
            (field "proposed_owner_id" null (field "trigger" (text "unassigned_on_create") end))))))

abbrev pub escalate : Env → ℕ → Fields → String → Json → M (Option ℕ)
escalate env now opp onboarding_id opp_id = do
  gate_id ← create_approval_gate now (unassigned_request onboarding_id opp opp_id)
  send env (onboarding_channel env) (some gate_id)
  pure (some gate_id)

-- `none` where the opportunity has an owner, else the key of the gate.
unfoldable pub handle_created : Env → ℕ → Fields → String → M (Option ℕ)
handle_created env now opp onboarding_id =
    if truthy (get "OwnerId" opp)
    then pure none
    else do opp_id ← item_of "Id" opp; escalate env now opp onboarding_id opp_id

-- One row of the query for onboardings with no owner.
unfoldable pub sweep_row : Env → ℕ → Fields → M (Unit {0})
sweep_row env now row = do
  row_id ← item_of "Id" row
  gate_id ← create_approval_gate now (
      csm_request (
        field "onboarding_id" row_id (
          field "opportunity_id" (get "Opportunity__c" row)
            (field "trigger" (text "sweep_found_null_owner") end))))
  send env (onboarding_channel env) (some gate_id)

-- The rows are the answer of the query. The result is the number posted.
unfoldable pub sweep : Env → ℕ → List Fields → M ℕ
unfolding sweep_row
sweep env now [] = pure 0
sweep env now (row ∷ rows) = do
  sweep_row env now row
  posted ← sweep env now rows
  pure (posted + 1)

unfoldable pub apply_reassignment : Env → ℕ → String → String → M Fields
apply_reassignment env gate_id new_owner_id approver = do
  gate ← require_approved_gate (some gate_id) "csm_reassignment"
  let onboarding_id = get "onboarding_id" gate.payload
  raise_if (not (truthy onboarding_id)) bad_value
  result ←
      update_record env "Onboarding__c" onboarding_id (field "OwnerId" (text new_owner_id) end)
        "onboarding" (some gate_id)
  write_audit (
      gate_entry "onboarding" "csm_reassigned" (record_target "Onboarding__c" onboarding_id)
        (some (field "owner_id" null end))
        (some (field "owner_id" (text new_owner_id) (field "approved_by" (text approver) end)))
        (some gate_id))
  pure result
