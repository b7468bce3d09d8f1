-- ===== src/Permissions/Provision.antt =====
-- agents/revops_support/permissions/user_provisioner.py
use loop_revops_agents.Base.{
  ℕ, String, Bool, false, Option, none, some, List, [], ◌∷◌, ◌||◌, not, str_eq, if◌then◌else◌,
}
use loop_revops_agents.World.{Env, M, pure, raise_if, ◌>>=◌, ◌>>◌, bad_value, runtime_error}
use loop_revops_agents.World.Values.{Json, text, Fields, end, field, get, put, truthy, or_else}
use loop_revops_agents.Salesforce.{create_record}
use loop_revops_agents.Permissions.{id_of, assignment_fields, member_fields}

abbrev pub required_user_fields : List String
required_user_fields =
    "FirstName" ∷ "LastName" ∷ "Email" ∷ "Username" ∷ "Alias" ∷ "ProfileId" ∷ "TimeZoneSidKey"
    ∷ "LocaleSidKey" ∷ "EmailEncodingKey" ∷ "LanguageLocaleKey" ∷ []

pub record ProvisionRequest : Type 0 where
  pub first_name : String
  pub last_name : String
  pub email : String
  pub username : String
  pub alias : String
  pub profile_id : String
  pub role_id : Option String
  pub permission_set_ids : List String
  pub group_ids : List String
  pub extra_fields : Fields

-- `payload.update(extra)`
unfoldable pub update_fields : Fields → Fields → Fields
update_fields d end = d
update_fields d (field k v rest) = update_fields (put k v d) rest

abbrev pub with_role : Option String → Fields → Fields
with_role none d = d
with_role (some role) d = if str_eq role "" then d else put "UserRoleId" (text role) d

unfoldable pub user_field_payload : ProvisionRequest → Fields
user_field_payload req =
    let payload = field "FirstName" (text req.first_name) (
      field "LastName" (text req.last_name) (
        field "Email" (text req.email) (
          field "Username" (text req.username) (
            field "Alias" (text req.alias) (
              field "ProfileId" (text req.profile_id) (
                field "TimeZoneSidKey" (text "America/New_York") (
                  field "LocaleSidKey" (text "en_US") (
                    field "EmailEncodingKey" (text "UTF-8")
                      (field "LanguageLocaleKey" (text "en_US") end))))))))) in
    update_fields (with_role req.role_id payload) req.extra_fields

-- `missing`, as whether there is a required field without a value.
unfoldable pub lacks : Fields → List String → Bool
lacks payload [] = false
lacks payload (name ∷ names) = not (truthy (get name payload)) || lacks payload names

pub record ProvisionResult : Type 0 where
  pub user_id : Json
  pub permission_set_assignments : List Json
  pub group_memberships : List Json

unfoldable pub attach_all :
    Env → (String → Fields) → String → String → Option ℕ → List String → M (List Json)
attach_all env fields_of sobject agent_name gate_id [] = pure []
attach_all env fields_of sobject agent_name gate_id (target ∷ targets) = do
  rec ← create_record env sobject (fields_of target) agent_name gate_id
  ids ← attach_all env fields_of sobject agent_name gate_id targets
  pure (or_else (id_of rec) (text "") ∷ ids)

-- The two loops of `provision`.
abbrev pub attach_user : Env → ProvisionRequest → String → Option ℕ → Json → M ProvisionResult
attach_user env req agent_name gate_id user_id = do
  assignments ←
      attach_all env (assignment_fields user_id) "PermissionSetAssignment" agent_name gate_id
        req.permission_set_ids
  memberships ←
      attach_all env (member_fields user_id) "GroupMember" agent_name gate_id req.group_ids
  pure (record {
    user_id = user_id;
    permission_set_assignments = assignments;
    group_memberships = memberships;
  })

unfoldable pub provision : Env → ProvisionRequest → String → Option ℕ → M ProvisionResult
provision env req agent_name gate_id = do
  raise_if (lacks (user_field_payload req) required_user_fields) bad_value
  created ← create_record env "User" (user_field_payload req) agent_name gate_id
  raise_if (not (truthy (id_of created))) runtime_error
  attach_user env req agent_name gate_id (id_of created)
