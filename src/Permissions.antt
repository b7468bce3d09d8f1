-- ===== src/Permissions.antt =====
-- agents/revops_support/permissions/access_grant.py: permission sets and public groups. The answers
-- of the queries of this folder are parameters.
pub mod Provision
pub mod Offboard
pub mod Granted
pub mod Provisioned
use loop_revops_agents.Base.{
  ℕ, String, Bool, true, false, Option, none, some, List, [], ◌∷◌, if◌then◌else◌,
}
use loop_revops_agents.World.{
  World, SfCall, delete_call, Env, Result, ok, err, M, pure, or_raise, ◌>>=◌, ◌>>◌,
  salesforce_error,
}
use loop_revops_agents.World.Values.{Json, null, text, Fields, end, field, get, truthy, or_else}
use loop_revops_agents.World.Rows.{record_target}
use loop_revops_agents.Governance.Gates.{gate_entry, write_audit, require_approved_gate}
use loop_revops_agents.Salesforce.{sf, create_record}

pub data Query : Type 0 where
  assignment_of : Json → String → Query
  membership_of : Json → String → Query
  rows_owned_by : String → String → Query
  count_owned_by : String → String → Query

pub record Answer : Type 0 where
  pub records : List Fields
  pub total_size : Option ℕ

-- `soql_query`, whose answer may depend on what was written before; `none` is an exception.
abbrev pub Soql : Type 0
Soql = List SfCall → Query → Option Answer

abbrev pub ask : Soql → Query → M Answer
ask soql q w = or_raise (soql w.calls q) salesforce_error w

pub record GrantResult : Type 0 where
  pub assignment_id : Json
  pub was_existing : Bool

-- `records[0].get("Id") if records else None`
abbrev pub first_id : List Fields → Json
first_id [] = null
first_id (r ∷ _) = get "Id" r

-- `created.get("id") or created.get("Id")`
abbrev pub id_of : Fields → Json
id_of created = or_else (get "id" created) (get "Id" created)

unfoldable pub find_existing_assignment : Soql → Json → String → M Json
find_existing_assignment soql user_id permission_set_id = do
  answer ← ask soql (assignment_of user_id permission_set_id)
  pure (first_id answer.records)

abbrev pub assignment_fields : Json → String → Fields
assignment_fields user_id permission_set_id =
    field "AssigneeId" user_id (field "PermissionSetId" (text permission_set_id) end)

abbrev pub create_assignment : Env → Json → String → String → Option ℕ → M GrantResult
create_assignment env user_id permission_set_id agent_name gate_id = do
  created ←
      create_record env "PermissionSetAssignment" (assignment_fields user_id permission_set_id)
        agent_name gate_id
  pure (record { assignment_id = or_else (id_of created) (text ""); was_existing = false })

unfoldable pub grant_permission_set : Env → Soql → Json → String → String → Option ℕ → M GrantResult
grant_permission_set env soql user_id permission_set_id agent_name gate_id = do
  existing ← find_existing_assignment soql user_id permission_set_id
  (if truthy existing
      then pure (record { assignment_id = existing; was_existing = true })
      else create_assignment env user_id permission_set_id agent_name gate_id)

-- `_delete_record` with its own call of the command line.
unfoldable pub delete_record : Env → String → Json → M Fields
delete_record env sobject record_id = sf env (delete_call sobject record_id)

abbrev pub delete_assignment : Env → Json → Json → String → String → Option ℕ → M (Option Json)
delete_assignment env existing user_id permission_set_id agent_name gate_id = do
  delete_record env "PermissionSetAssignment" existing
  write_audit (
      gate_entry agent_name "sf_delete" (record_target "PermissionSetAssignment" existing)
        (some (assignment_fields user_id permission_set_id)) none gate_id)
  pure (some existing)

-- `none` where there is no assignment, else the key of the deleted one.
unfoldable pub revoke_permission_set :
    Env → Soql → Json → String → String → Option ℕ → M (Option Json)
revoke_permission_set env soql user_id permission_set_id agent_name gate_id = do
  require_approved_gate gate_id "permission_grant"
  existing ← find_existing_assignment soql user_id permission_set_id
  (if truthy existing
      then delete_assignment env existing user_id permission_set_id agent_name gate_id
      else pure none)

abbrev pub member_fields : Json → String → Fields
member_fields user_id group_id = field "GroupId" (text group_id) (field "UserOrGroupId" user_id end)

abbrev pub create_member : Env → Json → String → String → Option ℕ → M GrantResult
create_member env user_id group_id agent_name gate_id = do
  created ← create_record env "GroupMember" (member_fields user_id group_id) agent_name gate_id
  pure (record { assignment_id = or_else (id_of created) (text ""); was_existing = false })

abbrev pub join_unless : Env → Json → String → String → Option ℕ → List Fields → M GrantResult
join_unless env user_id group_id agent_name gate_id [] =
    create_member env user_id group_id agent_name gate_id
join_unless env user_id group_id agent_name gate_id (r ∷ _) =
    pure (record { assignment_id = get "Id" r; was_existing = true })

unfoldable pub add_to_group : Env → Soql → Json → String → String → Option ℕ → M GrantResult
add_to_group env soql user_id group_id agent_name gate_id = do
  answer ← ask soql (membership_of user_id group_id)
  join_unless env user_id group_id agent_name gate_id answer.records
