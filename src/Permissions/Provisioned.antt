-- ===== src/Permissions/Provisioned.antt =====
-- The writes of a user's provisioning.
use loop_revops_agents.Base.{
  ℕ, suc, ◌≡◌, sym, ap, subst, ◌∙◌, String, false, Option, List, [], ◌∷◌, ◌++◌, not, length,
  Bool-cases, inl, inr,
}
use mathlib.Core.List.{append-nil, append_assoc}
use loop_revops_agents.World.{
  World, SfCall, create_call, Env, Result, ok, err, M, pure, raise_if, ◌>>=◌, ◌>>◌, >>=-eq-ok,
  bad_value, runtime_error, approval_required,
}
use loop_revops_agents.World.Values.{Json, text, Fields, truthy, or_else}
use loop_revops_agents.Salesforce.{create_record}
use loop_revops_agents.Salesforce.Gated.{Permits, create_record_gated}
use loop_revops_agents.Permissions.{id_of, assignment_fields, member_fields}
use loop_revops_agents.Permissions.Provision.{
  ProvisionRequest, ProvisionResult, user_field_payload, lacks, required_user_fields, attach_all,
  attach_user, provision,
}

-- The calls that create one row for each target.
abbrev pub creations : (String → Fields) → String → List String → List SfCall
creations fields_of sobject [] = []
creations fields_of sobject (t ∷ ts) =
    create_call sobject (fields_of t) ∷ creations fields_of sobject ts

-- A record that was created was created by one call, under an approved gate for a single record.
created_once :
    (env : Env) (sobject : String) (d : Fields) (agent : String) (gate_id : Option ℕ) (w v : World)
    (a : Fields)
    → create_record env sobject d agent gate_id w ≡ (ok a, v)
    → Permits w gate_id "single_record_update" × (v.calls ≡ w.calls ++ create_call sobject d ∷ [])
created_once env sobject d agent gate_id w v a h =
    elim (create_record_gated env sobject d agent gate_id w) [
      | inl (why, refused) ↦
          let no : ◌≡◌ {A = Result Fields × World} (err (approval_required why), w) (ok a, v) =
            sym refused ∙ h in
          absurd (cc)
      | inr (permit, wrote) ↦
          (permit, sym (ap (λ (x : Result Fields × World). x.1.calls) h) ∙ wrote)
    ]

attach_all_lem :
    (env : Env) (fields_of : String → Fields) (sobject agent : String) (gate_id : Option ℕ)
    (targets : List String) (w v : World) (ids : List Json)
    → attach_all env fields_of sobject agent gate_id targets w ≡ (ok ids, v)
    → (v.calls ≡ w.calls ++ creations fields_of sobject targets) × (length ids ≡ length targets)
unfolding attach_all
attach_all_lem env fields_of sobject agent gate_id [] w v ids h =
    let same : w ≡ v = ap (λ (x : Result (List Json) × World). x.1) h in
    let none_made : ◌≡◌ {A = Result (List Json)} (ok []) (ok ids) =
      ap (λ (x : Result (List Json) × World). x.0) h in
    let empty : [] ≡ ids = cc in (rw (sym same) (sym (append-nil w.calls)), ap length (sym empty))
attach_all_lem env fields_of sobject agent gate_id (t ∷ ts) w v ids h =
    let (a, w1, first, h1) =
      >>=-eq-ok (create_record env sobject (fields_of t) agent gate_id)
        (λ rec. attach_all env fields_of sobject agent gate_id ts >>= λ rest.
          pure (or_else (id_of rec) (text "") ∷ rest))
        w h in
    let (rest, w2, second, h2) =
      >>=-eq-ok (attach_all env fields_of sobject agent gate_id ts)
        (λ rest. pure (or_else (id_of a) (text "") ∷ rest)) w1 h1 in
    let (_, one) = created_once env sobject (fields_of t) agent gate_id w w1 a first in
    let (more, len) = attach_all_lem env fields_of sobject agent gate_id ts w1 w2 rest second in
    let last : w2 ≡ v = ap (λ (x : Result (List Json) × World). x.1) h2 in
    let all : ◌≡◌ {A = Result (List Json)} (ok (or_else (id_of a) (text "") ∷ rest)) (ok ids) =
      ap (λ (x : Result (List Json) × World). x.0) h2 in
    let whole : or_else (id_of a) (text "") ∷ rest ≡ ids = cc in
    (
      ap (λ (x : World). x.calls) (sym last)
          ∙ more
          ∙ ap (λ (cs : List SfCall). cs ++ creations fields_of sobject ts) one
          ∙ append_assoc w.calls (create_call sobject (fields_of t) ∷ [])
              (creations fields_of sobject ts),
      ap length (sym whole) ∙ ap suc len,
    )

abbrev result_for : Json → List Json → List Json → ProvisionResult
result_for i xs ys = record { user_id = i; permission_set_assignments = xs; group_memberships = ys }

-- The rows that are written for a user, from the calls made before on.
abbrev pub Attached : ProvisionRequest → List SfCall → ProvisionResult → World → Type 0
Attached req before r v =
    (v.calls
      ≡ (before
          ++ creations (assignment_fields r.user_id) "PermissionSetAssignment"
              req.permission_set_ids)
        ++ creations (member_fields r.user_id) "GroupMember" req.group_ids)
    × (length r.permission_set_assignments ≡ length req.permission_set_ids)
    × (length r.group_memberships ≡ length req.group_ids)

attach_user_lem :
    (env : Env) (req : ProvisionRequest) (agent : String) (gate_id : Option ℕ) (i : Json)
    (w v : World) (r : ProvisionResult)
    → attach_user env req agent gate_id i w ≡ (ok r, v)
    → Attached req w.calls r v
attach_user_lem env req agent gate_id i w v r h =
    let assign =
      attach_all env (assignment_fields i) "PermissionSetAssignment" agent gate_id
        req.permission_set_ids in
    let join = attach_all env (member_fields i) "GroupMember" agent gate_id req.group_ids in
    let (xs, w1, first, h1) =
      >>=-eq-ok assign (λ xs. join >>= λ ys. pure (result_for i xs ys)) w h in
    let (ys, w2, second, h2) = >>=-eq-ok join (λ ys. pure (result_for i xs ys)) w1 h1 in
    let (calls1, len1) =
      attach_all_lem env (assignment_fields i) "PermissionSetAssignment" agent gate_id
        req.permission_set_ids w w1 xs first in
    let (calls2, len2) =
      attach_all_lem env (member_fields i) "GroupMember" agent gate_id req.group_ids w1 w2 ys
        second in
    let members = creations (member_fields i) "GroupMember" req.group_ids in
    let done : ◌≡◌ {A = Result ProvisionResult × World} (ok (result_for i xs ys), w2) (ok r, v) =
      h2 in
    subst (λ (x : Result ProvisionResult × World). attached x) done
      (calls2 ∙ ap (λ (cs : List SfCall). cs ++ members) calls1, len1, len2)
  where
    attached : Result ProvisionResult × World → Type 0
    attached (ok q, u) = Attached req w.calls q u
    attached (err e, u) = Unit {0}

pub provision_lem :
    (env : Env) (req : ProvisionRequest) (agent : String) (gate_id : Option ℕ) (w v : World)
    (r : ProvisionResult)
    → provision env req agent gate_id w ≡ (ok r, v)
    → (lacks (user_field_payload req) required_user_fields ≡ false)
      × Permits w gate_id "single_record_update"
      × Attached req (w.calls ++ create_call "User" (user_field_payload req) ∷ []) r v
unfolding provision
provision_lem env req agent gate_id w v r h =
    let payload = user_field_payload req in
    elim (Bool-cases (lacks payload required_user_fields)) [
      | inl missing ↦
          let no : ◌≡◌ {A = Result ProvisionResult × World} (err bad_value, w) (ok r, v) =
            sym (rw missing) ∙ h in
          absurd (cc)
      | inr full ↦
          let rest : Fields → M ProvisionResult = λ a.
            raise_if (not (truthy (id_of a))) runtime_error
            >> attach_user env req agent gate_id (id_of a) in
          let (a, w1, first, h1) =
            >>=-eq-ok (create_record env "User" payload agent gate_id) rest w (sym (rw full) ∙ h) in
          let (permit, one) = created_once env "User" payload agent gate_id w w1 a first in
          elim (Bool-cases (truthy (id_of a))) [
            | inr nameless ↦
                let no : ◌≡◌ {A = Result ProvisionResult × World} (err runtime_error, w1)
                    (ok r, v) =
                  sym (rw nameless) ∙ h1 in
                absurd (cc)
            | inl named ↦
                let (more, len1, len2) =
                  attach_user_lem env req agent gate_id (id_of a) w1 v r (sym (rw named) ∙ h1) in
                let after : List SfCall → List SfCall = λ cs.
                  (cs
                    ++ creations (assignment_fields r.user_id) "PermissionSetAssignment"
                        req.permission_set_ids)
                  ++ creations (member_fields r.user_id) "GroupMember" req.group_ids in
                (full, permit, (more ∙ ap after one, len1, len2))
          ]
    ]
