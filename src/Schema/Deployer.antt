-- ===== src/Schema/Deployer.antt =====
-- agents/revops_support/schema/metadata_deployer.py
use loop_revops_agents.Base.{
  ℕ, String, Bool, true, false, Option, none, some, List, [], ◌∷◌, ◌<>◌, ◌&&◌, ◌||◌, ◌==◌, not, ltb,
  str_eq, if◌then◌else◌,
}
use loop_revops_agents.World.{
  Env, Error, Result, ok, err, M, pure, raise, or_raise, raise_if, ◌>>=◌, ◌>>◌, wrong_status,
  no_parent, approval_required, deploy_precondition_error,
}
use loop_revops_agents.World.Values.{
  Json, null, flag, text, object, Fields, end, field, find_field, get, put, truthy, or_else,
}
use loop_revops_agents.World.Rows.{Status, approved, approved_primary, Gate, plain_target}
use loop_revops_agents.World.Bundles.{Bundle, update_bundle, Files, member_xml, empty_package_xml}
use loop_revops_agents.Governance.Gates.{
  Entry, write_audit, is_approved, require_approved_gate, get_approval_gate,
}
use loop_revops_agents.Governance.Limits.{check_rate_limit}
use loop_revops_agents.Salesforce.{write}
use loop_revops_agents.Schema.{
  Moment, bundle_dir, key_of, item_of, dict_of, text_of, as_key, load_manifest, save_manifest,
  deploy_metadata, retrieve_metadata, deploy_id_of, is_settled,
}

-- `WHERE parent_gate_id = :p AND action_type = 'sf_schema_delete_confirm'`
abbrev is_confirmation : ℕ → Gate → Bool
is_confirmation primary g =
    elim g.parent_gate_id [ none ↦ false | some p ↦ p == primary ]
    && str_eq g.action_type "sf_schema_delete_confirm"

-- `ORDER BY id DESC LIMIT 1`
abbrev newer : Gate → Option Gate → Gate
newer g none = g
newer g (some h) = if ltb g.id h.id then h else g

unfoldable pub delete_confirm_gate : ℕ → List Gate → Option Gate
delete_confirm_gate primary [] = none
delete_confirm_gate primary (g ∷ gs) =
    let rest = delete_confirm_gate primary gs in
    if is_confirmation primary g then some (newer g rest) else rest

abbrev pub primary_done : Status → Bool
primary_done approved_primary = true
primary_done approved = true
primary_done _ = false

-- `_verify_gate`, from the gate's key on, by the action.
abbrev pub verify_delete : Option ℕ → M (Unit {0})
verify_delete none = raise deploy_precondition_error
verify_delete (some k) = do
  found ← get_approval_gate k
  gate ← or_raise found deploy_precondition_error
  raise_if (not (primary_done gate.status)) (approval_required wrong_status)
  λ w. elim (delete_confirm_gate k w.gates) [
    | none ↦ (err (approval_required no_parent), w)
    | some child ↦
        if is_approved child.status then (ok tt, w) else (err (approval_required wrong_status), w)
  ]

abbrev pub verify_direct : Option ℕ → Json → M (Unit {0})
verify_direct k action_type = do
  action_type ← text_of action_type
  require_approved_gate k action_type
  pure tt

abbrev pub is_direct : Json → Bool
is_direct (text s) = str_eq s "sf_schema_create" || str_eq s "sf_schema_modify"
is_direct _ = false

unfoldable pub verify_gate : Fields → M (Unit {0})
verify_gate manifest = do
  raise_if (not (truthy (get "approval_gate_id" manifest))) deploy_precondition_error
  action_type ← key_of "action_type" manifest
  let k = as_key (get "approval_gate_id" manifest)
  (if is_direct action_type then verify_direct k action_type else verify_delete k)

-- `sandbox.get("status") != "passed"`
abbrev pub not_passed : Json → Bool
not_passed (text s) = not (str_eq s "passed")
not_passed _ = true

-- `_verify_sandbox_passed`
unfoldable pub verify_sandbox_passed : Fields → M (Unit {0})
verify_sandbox_passed manifest = do
  tested ← dict_of (or_else (get "sandbox_test" manifest) (object end))
  raise_if (not_passed (get "status" tested)) deploy_precondition_error

abbrev pub is_text : String → Json → Bool
is_text s (text t) = str_eq t s
is_text s _ = false

-- The object and the name of the field that the manifest is about.
abbrev pub changed_field : Fields → M (String × String)
changed_field manifest = do
  sobject ← key_of "object" manifest
  sobject ← text_of sobject
  fld ← key_of "field" manifest
  name ← item_of "name" fld
  name ← text_of name
  pure (sobject, name)

-- `mkdir`, which leaves an existing directory as it is.
abbrev pub with_revert : Bundle → Bundle
with_revert b = record b { revert = elim b.revert [ none ↦ some [] | some files ↦ some files ] }

abbrev pub make_revert : String → M (Unit {0})
make_revert slug w = (ok tt, record w { bundles = update_bundle slug with_revert w.bundles })

-- `_retrieve_pre_snapshot`, for a change that is no creation.
abbrev pub retrieve_field : Env → Moment → String → String × String → M (Unit {0})
retrieve_field env moment slug (sobject, name) = do
  retrieve_metadata env write ("CustomField:" <> sobject <> "." <> name)
      (bundle_dir moment slug <> "/revert/force-app")
  pure tt

abbrev pub snapshot : Env → Moment → String → Fields → M (Unit {0})
snapshot env moment slug manifest = do
  make_revert slug
  names ← changed_field manifest
  retrieve_field env moment slug names

unfoldable pub retrieve_pre_snapshot : Env → Moment → String → Fields → M (Unit {0})
retrieve_pre_snapshot env moment slug manifest = do
  action ← key_of "action" manifest
  (if is_text "create" action then pure tt else snapshot env moment slug manifest)

-- The files of `_build_revert_package`.
abbrev pub revert_files : Json → String → String → Files
revert_files action sobject name =
    if is_text "create" action
    then ("destructiveChanges.xml", member_xml sobject name)
      ∷ ("package.xml", empty_package_xml)
      ∷ []
    else ("package.xml", member_xml sobject name) ∷ []

abbrev pub put_revert : Files → Bundle → Bundle
put_revert files b = record b { revert = some files }

abbrev pub write_revert : String → Files → M (Unit {0})
write_revert slug files w =
    (ok tt, record w { bundles = update_bundle slug (put_revert files) w.bundles })

unfoldable pub build_revert_package : String → Fields → M (Unit {0})
build_revert_package slug manifest = do
  make_revert slug
  action ← key_of "action" manifest
  names ← changed_field manifest
  write_revert slug (revert_files action names.0 names.1)

pub record DeployResult : Type 0 where
  pub deploy_id : Json
  pub success : Bool
  pub audit_id : Option ℕ

-- `raw.get("status", "")`
abbrev pub raw_status : Fields → Json
raw_status raw = elim (find_field "status" raw) [ none ↦ text "" | some v ↦ v ]

abbrev pub succeeded : Fields → Bool
succeeded raw = truthy (get "success" raw) && is_settled (raw_status raw)

abbrev deployed_status : Bool → String
deployed_status success = if success then "deployed" else "deploy_failed"

abbrev pub deploy_entry : String → Fields → Fields → String × String → Entry
deploy_entry slug manifest raw (sobject, name) = record {
  agent_name = "revops_support";
  action = "sf_schema_deploy";
  target = some (plain_target ("sf:" <> sobject <> "." <> name));
  before = some (field "slug" (text slug) (field "pre_deploy_manifest" (object manifest) end));
  after = some (
      field "deploy_id" (deploy_id_of raw)
        (field "success" (flag (succeeded raw)) (field "raw_status" (get "status" raw) end)));
  approval_gate_id = as_key (get "approval_gate_id" manifest);
  rate_limit_bucket = some "revops_metadata_deploy_daily";
  run_id = none;
}

-- The manifest after a deployment that was answered.
abbrev pub deployed_manifest : Moment → Fields → Fields → Fields
deployed_manifest moment manifest raw =
    let status = put "status" (text (deployed_status (succeeded raw))) manifest in
    put "deployed_at" (text moment.iso) (put "deploy_id" (deploy_id_of raw) status)

-- What follows the call of `deploy_fn`, which raised, or answered `raw`. The text of the exception
-- is the parameter `message`.
abbrev pub after_deploy :
    (Error → String) → Moment → String → Fields → Result Fields → M DeployResult
after_deploy message moment slug manifest (err e) = do
  save_manifest slug
      (put "deploy_error" (text (message e)) (put "status" (text "deploy_failed") manifest))
  pure (record { deploy_id = null; success = false; audit_id = none })
after_deploy message moment slug manifest (ok raw) = do
  names ← changed_field manifest
  audit_id ← write_audit (deploy_entry slug manifest raw names)
  save_manifest slug (deployed_manifest moment manifest raw)
  pure (record { deploy_id = deploy_id_of raw; success = succeeded raw; audit_id = some audit_id })

-- What `deploy` does before it calls `deploy_fn`.
unfoldable pub prepare_deploy : Env → Moment → String → Fields → M (Unit {0})
prepare_deploy env moment slug manifest = do
  verify_gate manifest
  verify_sandbox_passed manifest
  check_rate_limit moment.now "revops_metadata_deploy_daily" 86400 none
  retrieve_pre_snapshot env moment slug manifest
  build_revert_package slug manifest

unfoldable pub deploy : Env → (Error → String) → Moment → String → M DeployResult
deploy env message moment slug = do
  manifest ← load_manifest slug
  prepare_deploy env moment slug manifest
  λ w.
      let (answer, w') =
        deploy_metadata env write (bundle_dir moment slug <> "/force-app") none w in
      after_deploy message moment slug manifest answer w'
