-- ===== src/Governance/Gates.antt =====
-- shared/governance.py: the approval gates and the audit log. `now` is the clock at the call.
use loop_revops_agents.Base.{
  ℕ, ◌+◌, ◌*◌, String, Bool, true, false, Option, none, some, List, [], ◌∷◌, ◌++◌, leb, ◌==◌, ◌&&◌,
  ◌||◌, not, str_eq, if◌then◌else◌,
}
use loop_revops_agents.Base.Table.{next_id, find_id, update_id}
use loop_revops_agents.World.{
  no_justification, no_gate_id, unknown_gate, wrong_status, wrong_action, not_auto_approve,
  approval_required, ok, M, pure, raise, or_raise, raise_if, ◌>>=◌, ◌>>◌,
}
use loop_revops_agents.World.Values.{Fields, text, flag, end, field, or_null}
use loop_revops_agents.World.Rows.{
  Audit, hour, Status, pending, approved, approved_primary, rejected, Decision, Gate, Target,
  gate_target,
}
use loop_revops_agents.Governance.Tiers.{
  Tier, tier_of, is_dual, cooldown_of, demands_justification, is_auto_approve,
}

-- `write_audit`: a dictionary that is empty is stored as null. The id of the row is returned.
pub record Entry : Type 0 where
  pub agent_name : String
  pub action : String
  pub target : Option Target
  pub before : Option Fields
  pub after : Option Fields
  pub approval_gate_id : Option ℕ
  pub rate_limit_bucket : Option String
  pub run_id : Option ℕ

abbrev pub audit_row : ℕ → Entry → Audit
audit_row audit_id e = record {
  id = audit_id;
  agent_name = e.agent_name;
  action = e.action;
  target = e.target;
  before_value = or_null e.before;
  after_value = or_null e.after;
  approval_gate_id = e.approval_gate_id;
  rate_limit_bucket = e.rate_limit_bucket;
  run_id = e.run_id;
}

unfoldable pub write_audit : Entry → M ℕ
write_audit e w =
    let audit_id = next_id (λ a. a.id) w.audit in
    (ok audit_id, record w { audit = w.audit ++ audit_row audit_id e ∷ [] })

-- An audit row for a gate, as most callers write it.
abbrev pub gate_entry : String → String → Target → Option Fields → Option Fields → Option ℕ → Entry
gate_entry agent_name action target before after gate_id = record {
  agent_name = agent_name;
  action = action;
  target = some target;
  before = before;
  after = after;
  approval_gate_id = gate_id;
  rate_limit_bucket = none;
  run_id = none;
}

-- `not justification`
abbrev pub is_blank : Option String → Bool
is_blank none = true
is_blank (some s) = str_eq s ""

-- The arguments of `create_approval_gate`.
pub record Request : Type 0 where
  pub agent_name : String
  pub action_type : String
  pub payload : Fields
  pub justification : Option String
  pub requested_by : String
  pub ttl_hours : ℕ

-- The row that is inserted.
abbrev pub new_gate : ℕ → Request → ℕ → Gate
new_gate now r gate_id = record {
  id = gate_id;
  agent_name = r.agent_name;
  action_type = r.action_type;
  payload = r.payload;
  justification = r.justification;
  requested_by = r.requested_by;
  approved_by = none;
  approvals = [];
  status = pending;
  requested_at = now;
  decided_at = none;
  expires_at = now + r.ttl_hours * hour;
  cooldown_until = none;
  parent_gate_id = none;
}

abbrev pub insert_gate : ℕ → Request → M ℕ
insert_gate now r w =
    let gate_id = next_id (λ g. g.id) w.gates in
    (ok gate_id, record w { gates = w.gates ++ new_gate now r gate_id ∷ [] })

unfoldable pub create_approval_gate : ℕ → Request → M ℕ
create_approval_gate now r =
    if demands_justification (tier_of r.action_type) && is_blank r.justification
    then raise (approval_required no_justification)
    else insert_gate now r

abbrev pub get_approval_gate : ℕ → M (Option Gate)
get_approval_gate gate_id w = (ok (find_id (λ g. g.id) gate_id w.gates), w)

-- `any(not a["approved"] for a in existing)`
unfoldable pub any_reject : List Decision → Bool
any_reject [] = false
any_reject (d ∷ ds) = not d.approved || any_reject ds

-- Whether `name` is among those who approved.
unfoldable pub has_yes : String → List Decision → Bool
has_yes name [] = false
has_yes name (d ∷ ds) = (d.approved && str_eq d.approver name) || has_yes name ds

-- `len({a["approver"] for a in existing if a["approved"]})`
unfoldable pub distinct_yes : List Decision → ℕ
unfolding has_yes
distinct_yes [] = 0
distinct_yes (d ∷ ds) =
    let rest = distinct_yes ds in
    if d.approved && not (has_yes d.approver ds) then rest + 1 else rest

-- What a decision makes of a pending gate: a new status with its cooldown, or the wait for one
-- more approver.
pub data Ruling : Type 0 where
  settle : Status → Option ℕ → Ruling
  wait_more : Ruling

-- `elif cooldown_hours: … else: …`, where a cooldown of 0 hours counts as none.
abbrev pub after_cooldown : ℕ → Option ℕ → Ruling
after_cooldown now none = settle approved none
after_cooldown now (some hours) =
    if hours == 0 then settle approved none else settle approved_primary (some (now + hours * hour))

-- `decisions` holds the new one.
unfoldable pub ruling : Option Tier → ℕ → Bool → List Decision → Ruling
unfolding any_reject distinct_yes
ruling tier now yes_vote decisions =
    if not yes_vote
    then settle rejected none
    else if is_dual tier
    then if any_reject decisions
      then settle rejected none
      else if leb 2 (distinct_yes decisions)
      then settle approved none
      else wait_more
    else after_cooldown now (cooldown_of tier)

abbrev pub status_text : Status → String
status_text pending = "pending"
status_text approved = "approved"
status_text approved_primary = "approved_primary"
status_text rejected = "rejected"

abbrev pub is_pending : Status → Bool
is_pending pending = true
is_pending _ = false

-- The two UPDATE statements, on a row whose status is still pending.
abbrev pub rule_row : ℕ → String → List Decision → Ruling → Gate → Gate
rule_row now approver decisions (settle s cooldown) g = record g {
  approved_by = some approver;
  approvals = decisions;
  status = s;
  decided_at = some now;
  cooldown_until = cooldown;
}
rule_row now approver decisions wait_more g = record g {
  approvals = decisions;
  decided_at = some now;
}

-- `AND status = 'pending'`
abbrev pub where_pending : (Gate → Gate) → Gate → Gate
where_pending f g = if is_pending g.status then f g else g

-- The audit row `gate_decided`.
abbrev pub decision_entry : ℕ → Bool → String → Ruling → Entry
decision_entry gate_id yes_vote approver r = record {
  agent_name = "governance";
  action = "gate_decided";
  target = some (gate_target gate_id);
  before = none;
  after = some (
      field "approved" (flag yes_vote) (
        field "approver" (text approver) (elim r [
          | settle s _ ↦ field "final_status" (text (status_text s)) end
          | wait_more ↦
              field "needs_more_approvers" (flag true)
                (field "final_status" (text (status_text pending)) end)
        ])));
  approval_gate_id = none;
  rate_limit_bucket = none;
  run_id = none;
}

abbrev decide_row : ℕ → ℕ → Bool → String → Gate → M (Unit {0})
decide_row now gate_id yes_vote approver g w =
    let decisions =
      g.approvals ++ record { approver = approver; approved = yes_vote; decided_at = now } ∷ [] in
    let r = ruling (tier_of g.action_type) now yes_vote decisions in
    let (_, w') = write_audit (decision_entry gate_id yes_vote approver r) (record w {
      gates =
          update_id (λ x. x.id) gate_id (where_pending (rule_row now approver decisions r)) w.gates;
    }) in
    (ok tt, w')

abbrev decide_found : ℕ → ℕ → Bool → String → Option Gate → M (Unit {0})
decide_found now gate_id yes_vote approver none = pure tt
decide_found now gate_id yes_vote approver (some g) =
    if is_pending g.status then decide_row now gate_id yes_vote approver g else pure tt

unfoldable pub decide_approval_gate : ℕ → ℕ → Bool → String → M (Unit {0})
decide_approval_gate now gate_id yes_vote approver w =
    decide_found now gate_id yes_vote approver (find_id (λ g. g.id) gate_id w.gates) w

unfoldable pub auto_approve_gate : ℕ → ℕ → String → M (Unit {0})
unfolding decide_approval_gate
auto_approve_gate now gate_id approver = do
  found ← get_approval_gate gate_id
  gate ← or_raise found (approval_required unknown_gate)
  raise_if (not (is_auto_approve (tier_of gate.action_type))) (approval_required not_auto_approve)
  decide_approval_gate now gate_id true approver

abbrev pub is_approved : Status → Bool
is_approved approved = true
is_approved _ = false

unfoldable pub require_approved_gate : Option ℕ → String → M Gate
require_approved_gate gate_id action_type = do
  key ← or_raise gate_id (approval_required no_gate_id)
  found ← get_approval_gate key
  gate ← or_raise found (approval_required unknown_gate)
  raise_if (not (is_approved gate.status)) (approval_required wrong_status)
  raise_if (not (str_eq gate.action_type action_type)) (approval_required wrong_action)
  pure gate
