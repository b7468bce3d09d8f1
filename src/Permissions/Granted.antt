-- ===== src/Permissions/Granted.antt =====
-- Which gate a grant and a revocation ask for.
use loop_revops_agents.Base.{
  ℕ, ◌≡◌, ◌≢◌, refl, sym, ap, ◌∙◌, ◌⊎◌, String, true, false, Option, none, some, [], ◌∷◌, ◌++◌,
  Bool-cases, inl, inr, str_ne,
}
use loop_revops_agents.World.{World, Refusal, create_call, Env, Result, ok, err, approval_required}
use loop_revops_agents.World.Values.{Json, text, or_else, Fields, truthy}
use loop_revops_agents.World.Keeps.{map-world}
use loop_revops_agents.Salesforce.{create_record}
use loop_revops_agents.Salesforce.Gated.{Permits, require_cases, create_record_gated}
use loop_revops_agents.Permissions.{
  Soql, Answer, assignment_of, first_id, id_of, GrantResult, assignment_fields,
  find_existing_assignment, grant_permission_set, revoke_permission_set,
}

-- grant_permission_set returns the assignment that is there, with no gate and no write; and where
-- there is none it refuses with ApprovalRequired and changes nothing, or it makes the one call that
-- creates it, under an approved gate for a single record.
pub grant_lem :
    (env : Env) (soql : Soql) (user : Json) (ps agent : String) (gate_id : Option ℕ) (w : World)
    (answer : Answer)
    → soql w.calls (assignment_of user ps) ≡ some answer
    → let there = first_id answer.records in
      ((truthy there ≡ true)
        × (grant_permission_set env soql user ps agent gate_id w
            ≡ (ok (record { assignment_id = there; was_existing = true }), w)))
      ⊎ ((truthy there ≡ false)
          × (((why : Refusal) × (grant_permission_set env soql user ps agent gate_id w
                  ≡ (err (approval_required why), w)))
              ⊎ (Permits w gate_id "single_record_update"
                  × ((grant_permission_set env soql user ps agent gate_id w).1.calls
                      ≡ w.calls
                        ++ create_call "PermissionSetAssignment" (assignment_fields user ps)
                          ∷ []))))
unfolding grant_permission_set find_existing_assignment
grant_lem env soql user ps agent gate_id w answer asked =
    let there = first_id answer.records in
    let d = assignment_fields user ps in
    elim (Bool-cases (truthy there)) [
      | inl present ↦ inl (present, rw (asked, present))
      | inr absent ↦ inr (
        absent,
        elim (create_record_gated env "PermissionSetAssignment" d agent gate_id w) [
          | inl (why, refused) ↦ inl (why, rw (asked, absent, refused))
          | inr (permit, wrote) ↦
              let created = create_record env "PermissionSetAssignment" d agent gate_id in
              let result : Fields → GrantResult =
                λ a. record { assignment_id = or_else (id_of a) (text ""); was_existing = false } in
              inr (
                permit,
                rw (asked, absent)
                    (ap (λ (x : World). x.calls) (map-world created result w) ∙ wrote),
              )
        ],
      )
    ]

-- No gate serves both for a new grant and for a revocation: under a gate with which
-- grant_permission_set creates an assignment, revoke_permission_set always refuses with
-- ApprovalRequired and changes nothing.
pub grant_or_revoke :
    (env : Env) (soql : Soql) (user : Json) (ps agent : String) (gate_id : Option ℕ) (w : World)
    (answer : Answer)
    → soql w.calls (assignment_of user ps) ≡ some answer
    → truthy (first_id answer.records) ≡ false
    → (grant_permission_set env soql user ps agent gate_id w).1 ≢ w
    → (why : Refusal) × (revoke_permission_set env soql user ps agent gate_id w
        ≡ (err (approval_required why), w))
unfolding revoke_permission_set
grant_or_revoke env soql user ps agent gate_id w answer asked absent changed =
    elim (grant_lem env soql user ps agent gate_id w answer asked) [
      | inl (present, _) ↦ absurd (cc)
      | inr (_, inl (why, refused)) ↦
          absurd (changed (ap (λ (x : Result GrantResult × World). x.1) refused))
      | inr (_, inr (permit, _)) ↦ elim (require_cases gate_id "permission_grant" w) [
        | inl (why, refused) ↦ (why, rw refused)
        | inr (other, _) ↦ absurd (clash gate_id permit other)
      ]
    ]
  where
    clash : (k : Option ℕ) → Permits w k "single_record_update" → Permits w k "permission_grant" → ⊥
    clash none never other = never
    clash (some k) (g, found, _, action) (h, found', _, action') =
        let same : some g ≡ some h = sym found ∙ found' in
        str_ne "single_record_update" "permission_grant" refl (cc)
