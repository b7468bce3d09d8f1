-- ===== src/Cs.antt =====
-- agents/cs/handlers/slack_actions.py: the approval flows of the customer-success agent.
pub mod Churned
pub mod Refused
use loop_revops_agents.Base.{
  ℕ, ◌+◌, String, Bool, true, false, Option, none, some, List, [], ◌∷◌, ◌++◌, ◌&&◌, ◌||◌, not, ◌==◌,
  str_eq, if◌then◌else◌,
}
use loop_revops_agents.Base.Table.{find_id, update_id}
use loop_revops_agents.World.{
  World, Env, Result, ok, err, M, pure, raise, or_raise, raise_if, ◌>>=◌, ◌>>◌, approval_required,
  unknown_gate, wrong_status, wrong_action, not_a_primary, no_parent, account_mismatch, missing_key,
  bad_value,
}
use loop_revops_agents.World.Values.{
  Json, Fields, null, flag, number, text, array, object, end, field, get, find_field, truthy,
  or_else, of_text, of_id, json_eq,
}
use loop_revops_agents.World.Rows.{Gate, Status, pending, approved, record_target, slack_target}
use loop_revops_agents.Governance.Gates.{
  Request, gate_entry, write_audit, create_approval_gate, require_approved_gate, get_approval_gate,
  is_approved,
}
use loop_revops_agents.Salesforce.{update_record}
use loop_revops_agents.Dispatcher.{send, config_with}
use loop_revops_agents.Cooldown.{set_parent}

-- `payload[key]`, which raises `KeyError`.
abbrev pub item_of : String → Fields → M Json
item_of key payload = or_raise (find_field key payload) missing_key

abbrev pub jackie_channel : Env → Json
jackie_channel env = text (config_with env.config "CS_JACKIE_CHANNEL" "#agent-cs-log")

-- `if slack_sender is not None: slack_sender.send(…)`, with the buttons of a gate.
abbrev pub send_if : Env → Bool → Json → Option ℕ → M (Unit {0})
send_if env given channel gate_id = if given then send env channel gate_id else pure tt

-- The `update_record` of the Salesforce module that is passed in, or of the default one.
abbrev pub Writer : Type 0
Writer = String → Json → Fields → String → Option ℕ → M Fields

abbrev request : String → Fields → String → Request
request action_type payload reason = record {
  agent_name = "cs";
  action_type = action_type;
  payload = payload;
  justification = some reason;
  requested_by = "system:cs";
  ttl_hours = 24;
}

unfoldable pub request_csm_reassignment :
    Env → ℕ → Bool → String → Option String → String → String → M ℕ
request_csm_reassignment env now slack account_id old_owner_id new_owner_id reason = do
  gate_id ← create_approval_gate now (
      request "csm_reassignment"
        (field "account_id" (text account_id) (
          field "old_owner_id" (of_text old_owner_id)
            (field "new_owner_id" (text new_owner_id) (field "reason" (text reason) end))))
        reason)
  send_if env slack (jackie_channel env) (some gate_id)
  pure gate_id

unfoldable pub finalize_csm_reassignment : Writer → ℕ → String → M Fields
finalize_csm_reassignment write gate_id approver = do
  gate ← require_approved_gate (some gate_id) "csm_reassignment"
  account_id ← item_of "account_id" gate.payload
  new_owner ← item_of "new_owner_id" gate.payload
  result ← write "Account" account_id (field "OwnerId" new_owner end) "cs" (some gate_id)
  write_audit (
      gate_entry "cs" "csm_reassigned" (record_target "Account" account_id)
        (some (field "owner_id" (get "old_owner_id" gate.payload) end))
        (some (field "owner_id" new_owner (field "approved_by" (text approver) end)))
        (some gate_id))
  pure result

unfoldable pub request_churn_outreach : Env → ℕ → Bool → String → String → String → String → M ℕ
request_churn_outreach env now slack account_id csm_slack_id draft_markdown reason = do
  gate_id ← create_approval_gate now (
      request "cs_churn_outreach"
        (field "account_id" (text account_id) (
          field "csm_slack_id" (text csm_slack_id)
            (field "draft" (text draft_markdown) (field "reason" (text reason) end))))
        reason)
  send_if env slack (jackie_channel env) (some gate_id)
  pure gate_id

-- The reply of Slack is not kept: the result is whom the draft was posted to. The payload's
-- `account_id` is read by the message, if there is one, and again by the audit row.
unfoldable pub finalize_churn_outreach : Env → Bool → ℕ → String → M Json
finalize_churn_outreach env slack gate_id approver = do
  gate ← require_approved_gate (some gate_id) "cs_churn_outreach"
  csm ← item_of "csm_slack_id" gate.payload
  draft ← item_of "draft" gate.payload
  (if slack then (item_of "account_id" gate.payload >> send env csm none) else pure tt)
  account_id ← item_of "account_id" gate.payload
  write_audit (
      gate_entry "cs" "churn_outreach_posted" (slack_target csm) none
        (some (field "account_id" account_id (field "approved_by" (text approver) end)))
        (some gate_id))
  pure csm

unfoldable pub request_mark_churned : Env → ℕ → Bool → String → String → M ℕ
request_mark_churned env now slack account_id justification = do
  gate_id ← create_approval_gate now (
      request "mark_churned_request"
        (field "account_id" (text account_id) (field "justification" (text justification) end))
        justification)
  send_if env slack (jackie_channel env) (some gate_id)
  pure gate_id

-- `status IN ('pending', 'approved')`
abbrev pub is_live : Status → Bool
is_live pending = true
is_live approved = true
is_live _ = false

abbrev pub is_confirm : ℕ → Gate → Bool
is_confirm parent g =
    elim g.parent_gate_id [ none ↦ false | some p ↦ p == parent ]
    && str_eq g.action_type "mark_churned_confirm"
    && is_live g.status

-- The first live confirmation gate of a parent.
unfoldable pub find_confirm : ℕ → List Gate → Option ℕ
find_confirm parent [] = none
find_confirm parent (g ∷ gs) = if is_confirm parent g then some g.id else find_confirm parent gs

-- The justification of the confirmation gate. `Request` holds a text, and a payload of the code
-- holds one too; the gate's own column is the second choice.
abbrev pub justification_of : Gate → Json
justification_of gate =
    or_else (or_else (get "justification" gate.payload) (of_text gate.justification)) (text "")

abbrev pub as_text : Json → Option String
as_text (text s) = some s
as_text _ = none

abbrev pub open_confirm : Env → ℕ → Bool → ℕ → Gate → M ℕ
open_confirm env now slack primary gate_a = do
  account_id ← item_of "account_id" gate_a.payload
  b_id ← create_approval_gate now (record {
    agent_name = "cs";
    action_type = "mark_churned_confirm";
    payload = field "account_id" account_id (
        field "justification" (justification_of gate_a)
          (field "parent_gate_id" (number primary) end));
    justification = as_text (justification_of gate_a);
    requested_by = "system:cs";
    ttl_hours = 24;
  })
  set_parent b_id primary
  send_if env slack (jackie_channel env) (some b_id)
  pure b_id

-- A live confirmation gate is used again.
abbrev pub reuse_or_open : Env → ℕ → Bool → ℕ → Gate → M ℕ
reuse_or_open env now slack primary gate_a w = elim (find_confirm primary w.gates) [
  | some b_id ↦ (ok b_id, w)
  | none ↦ open_confirm env now slack primary gate_a w
]

unfoldable pub on_mark_churned_primary_approved : Env → ℕ → Bool → ℕ → M ℕ
unfolding set_parent
on_mark_churned_primary_approved env now slack primary = do
  found ← get_approval_gate primary
  gate_a ← or_raise found (approval_required not_a_primary)
  raise_if (not (str_eq gate_a.action_type "mark_churned_request"))
      (approval_required not_a_primary)
  raise_if (not (is_approved gate_a.status)) (approval_required wrong_status)
  reuse_or_open env now slack primary gate_a

-- `int(parent_id)` of a number or a truth value; a payload of the code holds a number here.
abbrev pub to_int : Json → Option ℕ
to_int (number n) = some n
to_int (flag true) = some 1
to_int (flag false) = some 0
to_int _ = none

-- What the checks of `finalize_mark_churned` hand on.
pub record Checked : Type 0 where
  pub confirm : Gate
  pub parent_id : ℕ
  pub account_id : Json

abbrev check_request : Gate → ℕ → Gate → M Checked
check_request gate_b parent_id gate_a = do
  raise_if (not (str_eq gate_a.action_type "mark_churned_request")) (approval_required wrong_action)
  raise_if (not (is_approved gate_a.status)) (approval_required wrong_status)
  raise_if (not (json_eq (get "account_id" gate_a.payload) (get "account_id" gate_b.payload)))
      (approval_required account_mismatch)
  account_id ← item_of "account_id" gate_b.payload
  pure (record { confirm = gate_b; parent_id = parent_id; account_id = account_id })

abbrev pub parent_named : Gate → Json
parent_named gate_b = or_else (get "parent_gate_id" gate_b.payload) (of_id gate_b.parent_gate_id)

unfoldable pub check_churned : ℕ → M Checked
check_churned confirm_gate_id = do
  gate_b ← require_approved_gate (some confirm_gate_id) "mark_churned_confirm"
  raise_if (not (truthy (parent_named gate_b))) (approval_required no_parent)
  parent_id ← or_raise (to_int (parent_named gate_b)) bad_value
  found ← get_approval_gate parent_id
  gate_a ← or_raise found (approval_required unknown_gate)
  check_request gate_b parent_id gate_a

abbrev pub write_churned : Writer → ℕ → String → Checked → M Fields
write_churned write confirm_gate_id approver c = do
  result ←
      write "Account" c.account_id (field "Churn_Status__c" (text "Churned") end) "cs"
        (some confirm_gate_id)
  write_audit (
      gate_entry "cs" "marked_churned" (record_target "Account" c.account_id) none
        (some (
          field "primary_gate_id" (number c.parent_id) (
            field "confirm_gate_id" (number confirm_gate_id) (
              field "approved_by" (text approver)
                (field "justification" (get "justification" c.confirm.payload) end)))))
        (some confirm_gate_id))
  pure result

unfoldable pub finalize_mark_churned : Writer → ℕ → String → M Fields
unfolding check_churned
finalize_mark_churned write confirm_gate_id approver = do
  c ← check_churned confirm_gate_id
  write_churned write confirm_gate_id approver c
