-- ===== src/Tests/Access.antt =====
-- The theorems on permissions and provisioning, at concrete inputs.
use loop_revops_agents.Base.{◌≡◌, ◌≢◌, refl, ap, true, false, none, some, [], ◌∷◌, ◌++◌, is_empty}
use loop_revops_agents.Base.Table.{find_id}
use loop_revops_agents.World.{World, create_call, Refusal, err, approval_required}
use loop_revops_agents.World.Values.{text, end, get, find_field}
use loop_revops_agents.World.Rows.{approved}
use loop_revops_agents.Governance.Gates.{require_approved_gate, write_audit}
use loop_revops_agents.Salesforce.{create_record, sf}
use loop_revops_agents.Salesforce.Gated.{Permits}
use loop_revops_agents.Permissions.{
  Soql, find_existing_assignment, grant_permission_set, revoke_permission_set,
}
use loop_revops_agents.Permissions.Granted.{grant_or_revoke}
use loop_revops_agents.Permissions.Provision.{
  ProvisionRequest, ProvisionResult, user_field_payload, lacks, required_user_fields, provision,
  update_fields, attach_all,
}
use loop_revops_agents.Permissions.Provisioned.{Attached, provision_lem}
use loop_revops_agents.Tests.{taking_env, gate_row, world_of, vote}

abbrev single_world : World
single_world = world_of (gate_row 1 "single_record_update" approved (vote "o" ∷ []) end ∷ []) []

abbrev none_there : Soql
none_there _ _ = some (record { records = []; total_size = some 0 })

grant_writes :
    (grant_permission_set taking_env none_there
      (text "005a")
      "0PSa"
      "revops_support"
      (some 1)
      single_world).1
    ≢ single_world
unfolding grant_permission_set find_existing_assignment create_record require_approved_gate find_id
    sf write_audit get find_field
grant_writes same = let no : false ≡ true = ap (λ (x : World). is_empty x.calls) same in absurd (cc)

grant_or_revoke_example :
    (why : Refusal) × (revoke_permission_set taking_env none_there
        (text "005a")
        "0PSa"
        "revops_support"
        (some 1)
        single_world
      ≡ (err (approval_required why), single_world))
grant_or_revoke_example =
    grant_or_revoke taking_env none_there (text "005a") "0PSa" "revops_support" (some 1)
      single_world (record { records = []; total_size = some 0 }) refl refl grant_writes

abbrev request : ProvisionRequest
request = record {
  first_name = "Ada";
  last_name = "Low";
  email = "ada@example.com";
  username = "ada@example.com";
  alias = "ada";
  profile_id = "00ea";
  role_id = none;
  permission_set_ids = "0PSa" ∷ [];
  group_ids = "00Ga" ∷ [];
  extra_fields = end;
}

abbrev provisioned : ProvisionResult
provisioned = record {
  user_id = text "0Af1";
  permission_set_assignments = text "0Af1" ∷ [];
  group_memberships = text "0Af1" ∷ [];
}

provision_lem_example :
    let v = (provision taking_env request "revops_support" (some 1) single_world).1 in
    (lacks (user_field_payload request) required_user_fields ≡ false)
    × Permits single_world (some 1) "single_record_update"
    × Attached request ([] ++ create_call "User" (user_field_payload request) ∷ []) provisioned v
unfolding provision lacks get find_field user_field_payload update_fields create_record
    require_approved_gate find_id attach_all sf write_audit
provision_lem_example =
    provision_lem taking_env request "revops_support" (some 1) single_world
      (provision taking_env request "revops_support" (some 1) single_world).1 provisioned refl
