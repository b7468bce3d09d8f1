-- ===== src/System/Access.antt =====
-- The permissions as sequences of steps of the system.
use loop_revops_agents.Base.{
  ℕ, String, Bool, true, false, Option, none, some, List, [], ◌∷◌, not, if◌then◌else◌,
}
use loop_revops_agents.World.{
  Env, pure, raise_if, ◌>>=◌, ◌>>◌, salesforce_error, bad_value, runtime_error,
}
use loop_revops_agents.World.Values.{Json, Fields, truthy, or_else, text}
use loop_revops_agents.World.Rows.{record_target}
use loop_revops_agents.Governance.Gates.{gate_entry, write_audit, require_approved_gate}
use loop_revops_agents.Salesforce.{create_record}
use loop_revops_agents.Permissions.{
  Soql, GrantResult, ask, assignment_of, membership_of, first_id, id_of, assignment_fields,
  member_fields, find_existing_assignment, create_assignment, grant_permission_set, delete_record,
  delete_assignment, revoke_permission_set, join_unless, add_to_group,
}
use loop_revops_agents.Permissions.Provision.{
  ProvisionRequest, ProvisionResult, user_field_payload, lacks, required_user_fields, attach_all,
  provision,
}
use loop_revops_agents.System.{created, deleted, here}
use loop_revops_agents.System.Handlers.{Runs, Runs-bind}
use loop_revops_agents.System.Flows.{step-Runs, or_raise-Runs, require-Runs, audit-Runs}

pub create_record-Runs :
    (env : Env) (s : String) (d : Fields) (agent : String) (k : Option ℕ)
    → Runs env (create_record env s d agent k)
create_record-Runs env s d agent k w = step-Runs env (created s d agent k w)

find-Runs :
    (env : Env) (soql : Soql) (user : Json) (ps : String)
    → Runs env (find_existing_assignment soql user ps)
unfolding find_existing_assignment
find-Runs env soql user ps =
    Runs-bind {B = Json} env (ask soql (assignment_of user ps)) (λ a. pure (first_id a.records))
      (λ w. or_raise-Runs env (soql w.calls (assignment_of user ps)) salesforce_error w) λ _ w. here

pub grant-Runs :
    (env : Env) (soql : Soql) (user : Json) (ps agent : String) (k : Option ℕ)
    → Runs env (grant_permission_set env soql user ps agent k)
unfolding grant_permission_set
grant-Runs env soql user ps agent k =
    Runs-bind {B = GrantResult} env (find_existing_assignment soql user ps) _
      (find-Runs env soql user ps) λ there. by_existing there (truthy there)
  where
    by_existing :
        (there : Json) (b : Bool)
        → Runs env (
            if b
            then pure (record { assignment_id = there; was_existing = true })
            else create_assignment env user ps agent k)
    by_existing there true = λ w. here
    by_existing there false =
        Runs-bind env
          (create_record env "PermissionSetAssignment" (assignment_fields user ps) agent k)
          (λ c. pure (record { assignment_id = or_else (id_of c) (text ""); was_existing = false }))
          (create_record-Runs env "PermissionSetAssignment" (assignment_fields user ps) agent k)
          λ _ w. here

pub revoke-Runs :
    (env : Env) (soql : Soql) (user : Json) (ps agent : String) (k : Option ℕ)
    → Runs env (revoke_permission_set env soql user ps agent k)
unfolding revoke_permission_set
revoke-Runs env soql user ps agent k =
    Runs-bind {B = Option Json} env (require_approved_gate k "permission_grant") _
      (require-Runs env k "permission_grant")
      λ _.
        Runs-bind {B = Option Json} env (find_existing_assignment soql user ps) _
          (find-Runs env soql user ps) λ there. by_existing there (truthy there)
  where
    by_existing :
        (there : Json) (b : Bool)
        → Runs env (if b then delete_assignment env there user ps agent k else pure none)
    by_existing there true =
        let entry =
          gate_entry agent "sf_delete" (record_target "PermissionSetAssignment" there)
            (some (assignment_fields user ps)) none k in
        Runs-bind {B = Option Json} env (delete_record env "PermissionSetAssignment" there)
          (λ _. write_audit entry >> pure (some there))
          (λ w. unfold delete_record in step-Runs env (deleted "PermissionSetAssignment" there w))
          λ _.
            Runs-bind {B = Option Json} env (write_audit entry) (λ _. pure (some there))
              (audit-Runs env entry) λ _ w. here
    by_existing there false = λ w. here

join-Runs :
    (env : Env) (user : Json) (group agent : String) (k : Option ℕ) (records : List Fields)
    → Runs env (join_unless env user group agent k records)
join-Runs env user group agent k [] =
    Runs-bind env (create_record env "GroupMember" (member_fields user group) agent k)
      (λ c. pure (record { assignment_id = or_else (id_of c) (text ""); was_existing = false }))
      (create_record-Runs env "GroupMember" (member_fields user group) agent k) λ _ w. here
join-Runs env user group agent k (r ∷ _) = λ w. here

pub add_to_group-Runs :
    (env : Env) (soql : Soql) (user : Json) (group agent : String) (k : Option ℕ)
    → Runs env (add_to_group env soql user group agent k)
unfolding add_to_group
add_to_group-Runs env soql user group agent k =
    Runs-bind env (ask soql (membership_of user group))
      (λ a. join_unless env user group agent k a.records)
      (λ w. or_raise-Runs env (soql w.calls (membership_of user group)) salesforce_error w)
      λ a. join-Runs env user group agent k a.records

attach_all-Runs :
    (env : Env) (fields_of : String → Fields) (s agent : String) (k : Option ℕ)
    (targets : List String)
    → Runs env (attach_all env fields_of s agent k targets)
unfolding attach_all
attach_all-Runs env fields_of s agent k [] w = here
attach_all-Runs env fields_of s agent k (t ∷ ts) w =
    let rest = attach_all env fields_of s agent k ts in
    Runs-bind env (create_record env s (fields_of t) agent k)
      (λ a. rest >>= λ ids. pure (or_else (id_of a) (text "") ∷ ids))
      (create_record-Runs env s (fields_of t) agent k)
      (λ a.
        Runs-bind env rest (λ ids. pure (or_else (id_of a) (text "") ∷ ids))
          (attach_all-Runs env fields_of s agent k ts) λ _ v. here)
      w

pub provision-Runs :
    (env : Env) (req : ProvisionRequest) (agent : String) (k : Option ℕ)
    → Runs env (provision env req agent k)
unfolding provision
provision-Runs env req agent k =
    let payload = user_field_payload req in
    Runs-bind {B = ProvisionResult} env (raise_if (lacks payload required_user_fields) bad_value) _
      (λ w. here)
      λ _.
        Runs-bind {B = ProvisionResult} env (create_record env "User" payload agent k) _
          (create_record-Runs env "User" payload agent k)
          λ a.
            Runs-bind {B = ProvisionResult} env (raise_if (not (truthy (id_of a))) runtime_error) _
              (λ w. here)
              λ _.
                Runs-bind {B = ProvisionResult} env
                  (attach_all env (assignment_fields (id_of a)) "PermissionSetAssignment" agent k
                    req.permission_set_ids)
                  _
                  (attach_all-Runs env (assignment_fields (id_of a)) "PermissionSetAssignment" agent
                    k req.permission_set_ids)
                  λ xs.
                    Runs-bind {B = ProvisionResult} env
                      (attach_all env (member_fields (id_of a)) "GroupMember" agent k req.group_ids)
                      _
                      (attach_all-Runs env (member_fields (id_of a)) "GroupMember" agent k
                        req.group_ids)
                      λ ys w. here
