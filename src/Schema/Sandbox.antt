-- ===== src/Schema/Sandbox.antt =====
-- agents/revops_support/schema/sandbox_tester.py
use loop_revops_agents.Base.{
  String, Bool, true, false, none, some, ◌<>◌, ◌&&◌, str_eq, is_empty, if◌then◌else◌,
}
use loop_revops_agents.World.{
  World, Env, Error, Result, ok, err, M, pure, ◌>>=◌, ◌>>◌, file_not_found,
}
use loop_revops_agents.World.Values.{
  Json, null, text, array, object, Fields, nil, item, end, field, get, put, truthy, or_else,
}
use loop_revops_agents.World.Bundles.{find_bundle}
use loop_revops_agents.Salesforce.{sandbox}
use loop_revops_agents.Schema.{
  Moment, bundle_dir, dict_of, load_manifest, save_manifest, deploy_metadata, deploy_id_of,
  is_settled,
}

pub record SandboxTestResult : Type 0 where
  pub status : String
  pub deploy_id : Json
  pub component_failures : Json
  pub test_failures : Json
  pub error_message : Json
  pub tested_at : String

-- `to_manifest_entry`
abbrev pub to_manifest_entry : SandboxTestResult → Fields
to_manifest_entry r = field "status" (text r.status) (
    field "deploy_id" r.deploy_id (
      field "component_failures" r.component_failures (
        field "test_failures" r.test_failures
          (field "error_message" r.error_message (field "tested_at" (text r.tested_at) end)))))

-- `value or {}`, and `value or []` of which a dictionary is made a list.
abbrev pub or_empty : Json → Json
or_empty v = or_else v (object end)

abbrev pub listed : Json → Json
listed (object (field k v rest)) = array (item (object (field k v rest)) nil)
listed v = or_else v (array nil)

abbrev pub verdict : Fields → String
verdict raw =
    if truthy (get "success" raw) && is_settled (get "status" raw) then "passed" else "failed"

unfoldable pub summarize_deploy : Fields → M (String × Json × Json)
summarize_deploy raw = do
  details ← dict_of (or_empty (or_else (get "details" raw) (get "deployDetails" raw)))
  runs ← dict_of (or_empty (get "runTestResult" details))
  pure (verdict raw, listed (get "componentFailures" details), listed (get "failures" runs))

unfoldable pub update_manifest : String → SandboxTestResult → M (Unit {0})
update_manifest slug r = do
  manifest ← load_manifest slug
  let tested = put "sandbox_test" (object (to_manifest_entry r)) manifest
  let status = if str_eq r.status "passed" then "sandbox_passed" else "sandbox_failed"
  save_manifest slug (put "status" (text status) tested)

-- `source.exists()`
unfoldable pub has_source : String → World → Bool
has_source slug w = elim (find_bundle slug w.bundles) [
  | none ↦ false
  | some b ↦ elim (is_empty b.force_app) [ true ↦ false | false ↦ true ]
]

-- `SandboxTestResult(slug=slug, status="error", …)`
abbrev pub fresh_test : Moment → SandboxTestResult
fresh_test moment = record {
  status = "error";
  deploy_id = null;
  component_failures = array nil;
  test_failures = array nil;
  error_message = null;
  tested_at = moment.iso;
}

-- What follows the call of `deploy_fn`, which raised, or answered `raw`. The text of the exception
-- is the parameter `message`.
abbrev pub after_deploy : (Error → String) → Moment → String → Result Fields → M SandboxTestResult
after_deploy message moment slug (err e) = do
  let r = record (fresh_test moment) { error_message = text (message e) }
  update_manifest slug r
  pure r
after_deploy message moment slug (ok raw) = do
  (status, comp_failures, test_failures) ← summarize_deploy raw
  let r = record (fresh_test moment) {
    deploy_id = deploy_id_of raw;
    status = status;
    component_failures = comp_failures;
    test_failures = test_failures;
  }
  update_manifest slug r
  pure r

-- `test`
unfoldable pub test_change : Env → (Error → String) → Moment → String → String → M SandboxTestResult
test_change env message moment slug test_level w =
    let source = bundle_dir moment slug <> "/force-app" in
    let tested = deploy_metadata env sandbox source (some test_level) w in
    if has_source slug w
    then after_deploy message moment slug tested.0 tested.1
    else (err file_not_found, w)
