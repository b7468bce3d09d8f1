-- ===== src/Tests/Schema.antt =====
-- The theorems on the schema changes, at concrete inputs.
use loop_revops_agents.Base.{
  ◌≡◌, ◌⊎◌, ◌↔◌, refl, String, true, false, none, some, List, [], ◌∷◌, ◌++◌, ◌<>◌,
}
use loop_revops_agents.Base.Table.{find_id}
use loop_revops_agents.Base.Texts.{lower}
use loop_revops_agents.World.{World, deploy_call, Error, ok, err}
use loop_revops_agents.World.Values.{
  Json, null, number, text, array, nil, object, Fields, end, field, find_field, get, put,
}
use loop_revops_agents.World.Rows.{Gate, approved, gate_target}
use loop_revops_agents.World.Bundles.{Bundle, find_bundle, update_bundle, package_xml}
use loop_revops_agents.Governance.Lawful.{AllLawful}
use loop_revops_agents.Governance.Gates.{require_approved_gate, write_audit, gate_entry}
use loop_revops_agents.Salesforce.{write, resolve_org_alias, sf}
use loop_revops_agents.Salesforce.Gated.{Permits}
use loop_revops_agents.Schema.{
  Moment, bundle_dir, deploy_args, load_manifest, save_manifest, deploy_metadata, is_settled,
  as_key,
}
use loop_revops_agents.Schema.Proposer.{
  ProposedChange, propose_change, validate_intent, is_field_name, field_rest,
}
use loop_revops_agents.Schema.Proposed.{Untouched, Filed, propose_change_lem}
use loop_revops_agents.Schema.Sandbox.{
  SandboxTestResult, test_change, has_source, update_manifest, summarize_deploy,
}
use loop_revops_agents.Schema.Tested.{test_change_lem}
use loop_revops_agents.Schema.Deployer.{deploy, is_text}
use loop_revops_agents.Schema.Stored.{Holds}
use loop_revops_agents.Schema.Cleared.{Cleared, SandboxPassed}
use loop_revops_agents.Schema.Deployed.{deployments, deploy_lem}
use loop_revops_agents.Schema.Rollback.{
  RollbackResult, execute, check_rollback, has_revert, already_rolled_back, rollback_action_type,
}
use loop_revops_agents.Schema.Reverted.{creation_stays, execute_once, execute_lem}
use loop_revops_agents.Tests.{message, taking_env, empty_world, world_of, gate_row, vote}

abbrev moment : Moment
moment = record {
  now = 1000000;
  stamp = "20260417-080000";
  iso = "2026-04-17T08:00:00+00:00";
  pending_dir = "/srv/pending_changes";
}

abbrev tier_field : Fields
tier_field =
    field "name" (text "Tier__c") (field "type" (text "Text") (field "label" (text "Tier") end))

abbrev intent : Fields
intent =
    field "action" (text "create")
      (field "object" (text "Account") (field "field" (object tier_field) end))

field_name_test : is_field_name "Tier__c" ≡ true
unfolding is_field_name field_rest
field_name_test = refl

bad_field_name_test : is_field_name "Tier" ≡ false
unfolding is_field_name field_rest
bad_field_name_test = refl

propose_change_lem_example :
    ((e : Error) × (v : World) × (propose_change moment intent "for the tiers" "hutch" empty_world
        ≡ (err e, v))
      × Untouched empty_world v)
    ⊎ ((p : ProposedChange) × (v : World) × (propose_change moment intent "for the tiers" "hutch"
            empty_world
          ≡ (ok p, v))
        × (validate_intent intent empty_world ≡ (ok p.change, empty_world))
        × Filed moment "for the tiers" "hutch" empty_world p v)
propose_change_lem_example = propose_change_lem moment intent "for the tiers" "hutch" empty_world

abbrev bundle_of : Fields → Bundle
bundle_of manifest = record {
  slug = "b1";
  manifest = manifest;
  force_app = ("force-app/main/default/package.xml", package_xml) ∷ [];
  revert = some [];
}

abbrev manifest_with : String → String → Fields → Fields
manifest_with action action_type rest = field "action" (text action) (
    field "action_type" (text action_type) (
      field "object" (text "Account")
        (field "field" (object tier_field) (field "approval_gate_id" (number 1) rest))))

abbrev world_with : List Gate → Fields → World
world_with gates manifest = record (world_of gates []) { bundles = bundle_of manifest ∷ [] }

abbrev tested_manifest : Fields
tested_manifest =
    manifest_with "create" "sf_schema_create"
      (field "sandbox_test" (object (field "status" (text "passed") end)) end)

abbrev ready_world : World
ready_world =
    world_with (gate_row 1 "sf_schema_create" approved (vote "o" ∷ []) end ∷ []) tested_manifest

deploy_lem_example :
    let v = (deploy taking_env message moment "b1" ready_world).1 in
    (deployments v ≡ deployments ready_world)
    ⊎ ((m : Fields) × (alias : String) × Holds "b1" m ready_world
        × Cleared m ready_world
        × SandboxPassed m
        × (resolve_org_alias taking_env.config write ≡ ok alias)
        × (deployments v
            ≡ deployments ready_world
              ++ deploy_call alias (deploy_args (bundle_dir moment "b1" <> "/force-app") none)
                ∷ []))
deploy_lem_example = deploy_lem taking_env message moment "b1" ready_world

abbrev created_manifest : Fields
created_manifest =
    manifest_with "create" "sf_schema_create" (field "rollback_gate_id" (number 1) end)

no_gates-AllLawful : AllLawful (world_with [] created_manifest)
unfolding find_id
no_gates-AllLawful k g h = absurd (cc)

creation_stays_example :
    (e : Error) × (execute taking_env message moment "b1" (world_with [] created_manifest)
      ≡ (err e, world_with [] created_manifest))
unfolding load_manifest find_bundle find_field get
creation_stays_example =
    creation_stays taking_env message moment "b1" (world_with [] created_manifest) created_manifest
      no_gates-AllLawful refl refl refl

abbrev modified_manifest : Fields
modified_manifest =
    manifest_with "modify" "sf_schema_modify" (field "rollback_gate_id" (number 1) end)

abbrev modified_world : World
modified_world =
    world_with (gate_row 1 "sf_schema_modify" approved (vote "o" ∷ []) end ∷ []) modified_manifest

abbrev rollback_done : RollbackResult
rollback_done = record { gate_id = number 1; deploy_id = text "0Af1"; success = true }

abbrev reverted_world : World
reverted_world = (execute taking_env message moment "b1" modified_world).1

execute_lem_example :
    (deployments reverted_world ≡ deployments modified_world)
    ⊎ ((m : Fields) × (alias : String) × (a : Json) × Holds "b1" m modified_world
        × (already_rolled_back m ≡ false)
        × (find_field "action" m ≡ some a)
        × (is_text "delete" a ≡ false)
        × Permits modified_world (as_key (get "rollback_gate_id" m)) (rollback_action_type a)
        × (resolve_org_alias taking_env.config write ≡ ok alias)
        × (deployments reverted_world
            ≡ deployments modified_world
              ++ deploy_call alias (deploy_args (bundle_dir moment "b1" <> "/revert") none) ∷ []))
execute_lem_example = execute_lem taking_env message moment "b1" modified_world

-- Another audit row was written since.
abbrev noted_world : World
noted_world = (write_audit (gate_entry "o" "note" (gate_target 1) none none none) reverted_world).1

execute_once_example :
    execute taking_env message moment "b1" noted_world ≡ (ok rollback_done, noted_world)
unfolding execute load_manifest find_bundle get find_field require_approved_gate check_rollback
    find_id has_revert deploy_metadata resolve_org_alias sf write_audit save_manifest is_settled
execute_once_example =
    execute_once taking_env message moment moment "b1" modified_world reverted_world noted_world
      rollback_done refl refl refl

abbrev passed_test : SandboxTestResult
passed_test = record {
  status = "passed";
  deploy_id = text "0Af1";
  component_failures = array nil;
  test_failures = array nil;
  error_message = null;
  tested_at = "2026-04-17T08:00:00+00:00";
}

test_change_lem_example :
    let v = (test_change taking_env message moment "b1" "RunLocalTests" ready_world).1 in
    (m : Fields) × Holds "b1" m v
    × (SandboxPassed m ↔ (passed_test.status ≡ "passed"))
    × (v.gates ≡ ready_world.gates)
unfolding test_change has_source find_bundle deploy_metadata resolve_org_alias sf summarize_deploy
    get find_field put is_settled lower update_manifest load_manifest save_manifest update_bundle
test_change_lem_example =
    test_change_lem taking_env message moment "b1" "RunLocalTests" ready_world
      (test_change taking_env message moment "b1" "RunLocalTests" ready_world).1 passed_test refl
