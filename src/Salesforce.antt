-- ===== src/Salesforce.antt =====
-- shared/mcp/salesforce_mcp.py: the choice of the org and the writes, which governance gates. The
-- command line itself is the parameter `env.org`.
pub mod Gated
use loop_revops_agents.Base.{
  ℕ, ◌+◌, ◌<◌, String, Bool, true, false, Option, none, some, List, [], ◌∷◌, ◌++◌, ◌&&◌, leb, ltb,
  ◌==◌, str_eq, is_empty, length, if◌then◌else◌,
}
use loop_revops_agents.World.{
  World, SfCall, create_call, update_call, merge_call, Env, Result, ok, err, M, pure, raise,
  or_raise, raise_if, ◌>>=◌, ◌>>◌, salesforce_error, bad_value, approval_required, no_gate_id,
}
use loop_revops_agents.World.Values.{
  Json, Fields, Items, text, number, flag, object, array, end, field, nil, item, array_of,
}
use loop_revops_agents.World.Rows.{record_target, sobject_target}
use loop_revops_agents.Governance.Tiers.{classify_bulk_update}
use loop_revops_agents.Governance.Gates.{Entry, gate_entry, write_audit, require_approved_gate}

pub data Intent : Type 0 where
  read write sandbox : Intent

-- `get_config(name) or rest`
abbrev config_or : (String → Option String) → String → String → String
config_or config name rest = elim (config name) [
  | none ↦ rest
  | some v ↦ if str_eq v "" then rest else v
]

unfoldable pub resolve_org_alias : (String → Option String) → Intent → Result String
resolve_org_alias config read =
    ok (config_or config "SF_ORG_ALIAS" (config_or config "SF_SERVICE_USER" ""))
resolve_org_alias config write = ok (
    config_or config "SF_WRITE_ORG_ALIAS"
      (config_or config "SF_ORG_ALIAS" (config_or config "SF_SERVICE_USER" "")))
resolve_org_alias config sandbox =
    let alias = config_or config "SF_SANDBOX_ORG_ALIAS" "" in
    if str_eq alias "" then err salesforce_error else ok alias

-- `_sf`: a call of the command line, which answers or raises `SalesforceError`.
unfoldable pub sf : Env → SfCall → M Fields
sf env call w =
    or_raise (env.org w.calls call) salesforce_error (record w { calls = w.calls ++ call ∷ [] })

unfoldable pub create_record : Env → String → Fields → String → Option ℕ → M Fields
unfolding sf write_audit
create_record env sobject fields agent_name gate_id = do
  require_approved_gate gate_id "single_record_update"
  result ← sf env (create_call sobject fields)
  write_audit
      (gate_entry agent_name "sf_create" (sobject_target sobject) none (some fields) gate_id)
  pure result

unfoldable pub update_record : Env → String → Json → Fields → String → Option ℕ → M Fields
unfolding sf write_audit
update_record env sobject record_id fields agent_name gate_id = do
  require_approved_gate gate_id "single_record_update"
  result ← sf env (update_call sobject record_id fields)
  write_audit (
      gate_entry agent_name "sf_update" (record_target sobject record_id) none (some fields)
        gate_id)
  pure result

abbrev texts : List String → List Json
texts [] = []
texts (s ∷ ss) = text s ∷ texts ss

abbrev pub merge_entry : String → String → List String → String → Option ℕ → Fields → Entry
merge_entry sobject master_id duplicate_ids agent_name gate_id result =
    gate_entry agent_name "sf_merge" (record_target sobject (text master_id))
      (some (field "duplicates" (array (array_of (texts duplicate_ids))) end)) (some result) gate_id

unfoldable pub merge_records : Env → String → String → List String → String → Option ℕ → M Fields
unfolding sf write_audit
merge_records env sobject master_id duplicate_ids agent_name gate_id = do
  key ← or_raise gate_id (approval_required no_gate_id)
  raise_if (is_empty duplicate_ids) bad_value
  raise_if (ltb 2 (length duplicate_ids)) bad_value
  require_approved_gate (some key)
      (if str_eq sobject "Account" then "account_merge" else "contact_merge")
  result ← sf env (merge_call sobject master_id duplicate_ids)
  write_audit (merge_entry sobject master_id duplicate_ids agent_name gate_id result)
  pure result

abbrev first_three : List Fields → List Json
first_three (a ∷ b ∷ c ∷ _) = object a ∷ object b ∷ object c ∷ []
first_three (a ∷ b ∷ []) = object a ∷ object b ∷ []
first_three (a ∷ []) = object a ∷ []
first_three [] = []

-- The simulated `bulk_update` of Phase 0, which makes no call.
unfoldable pub bulk_update : String → List Fields → String → Option ℕ → M Fields
unfolding write_audit
bulk_update sobject updates agent_name gate_id = do
  let count = length updates
  raise_if (leb 100 count && elim gate_id [ none ↦ true | some _ ↦ false ])
      (approval_required no_gate_id)
  require_approved_gate gate_id (classify_bulk_update count)
  write_audit (
      gate_entry agent_name "sf_bulk_update" (sobject_target sobject) none
        (some (
          field "count" (number count)
            (field "sample" (array (array_of (first_three updates))) end)))
        gate_id)
  pure (
      field "simulated" (flag true)
        (field "count" (number count) (field "sobject" (text sobject) end)))
