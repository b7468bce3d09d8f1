-- ===== src/Schema/Rollback.antt =====
-- agents/revops_support/schema/rollback.py
use loop_revops_agents.Base.{
  ℕ, String, Bool, true, false, none, some, ◌<>◌, not, str_eq, if◌then◌else◌,
}
use loop_revops_agents.Base.Texts.{strip}
use loop_revops_agents.World.{
  World, Env, Error, Result, ok, err, M, pure, raise_if, ◌>>=◌, ◌>>◌, no_justification,
  approval_required, rollback_error,
}
use loop_revops_agents.World.Values.{
  Json, null, flag, number, text, Fields, end, field, get, put, truthy,
}
use loop_revops_agents.World.Rows.{plain_target}
use loop_revops_agents.World.Bundles.{find_bundle}
use loop_revops_agents.Governance.Gates.{
  Entry, Request, gate_entry, write_audit, create_approval_gate, require_approved_gate,
}
use loop_revops_agents.Salesforce.{write}
use loop_revops_agents.Schema.{
  Moment, bundle_dir, key_of, item_of, as_key, load_manifest, save_manifest, deploy_metadata,
  deploy_id_of,
}
use loop_revops_agents.Schema.Deployer.{changed_field, is_text, succeeded}

-- `_rollback_action_type`
abbrev pub rollback_action_type : Json → String
rollback_action_type action =
    if is_text "create" action then "sf_schema_delete" else "sf_schema_modify"

-- `revert_dir.exists()`
unfoldable pub has_revert : String → World → Bool
has_revert slug w = elim (find_bundle slug w.bundles) [
  | none ↦ false
  | some b ↦ elim b.revert [ none ↦ false | some _ ↦ true ]
]

abbrev pub raise_unless_revert : String → M (Unit {0})
raise_unless_revert slug w = (if has_revert slug w then ok tt else err rollback_error, w)

-- The gate that is asked for.
abbrev pub rollback_request :
    Moment → String → Fields → Json → Json → Json → String → String → Request
rollback_request moment slug manifest action sobject name justification requested_by = record {
  agent_name = "revops_support";
  action_type = rollback_action_type action;
  payload = field "slug" (text slug) (
      field "original_action" action (
        field "original_deploy_id" (get "deploy_id" manifest) (
          field "revert_dir" (text (bundle_dir moment slug <> "/revert")) (
            field "object" sobject
              (field "field" name (field "origin" (text "revops_support_rollback") end))))));
  justification = some justification;
  requested_by = requested_by;
  ttl_hours = 24;
}

unfoldable pub prepare : Moment → String → String → String → M ℕ
prepare moment slug justification requested_by = do
  raise_if (str_eq (strip justification) "") (approval_required no_justification)
  manifest ← load_manifest slug
  raise_unless_revert slug
  action ← key_of "action" manifest
  sobject ← key_of "object" manifest
  fld ← key_of "field" manifest
  name ← item_of "name" fld
  gate_id ←
      create_approval_gate moment.now
        (rollback_request moment slug manifest action sobject name justification requested_by)
  let named = put "rollback_gate_id" (number gate_id) manifest
  save_manifest slug (put "rollback_status" (text "pending") named)
  pure gate_id

-- `_already_rolled_back`
abbrev pub already_rolled_back : Fields → Bool
already_rolled_back manifest = is_text "deployed" (get "rollback_status" manifest)

pub record RollbackResult : Type 0 where
  pub gate_id : Json
  pub deploy_id : Json
  pub success : Bool

-- The manifest after a deployment of the revert bundle that was answered.
abbrev pub rolled_back : Moment → Bool → Json → Fields → Fields
rolled_back moment success deploy_id manifest =
    let status = if success then "deployed" else "failed" in
    let dated =
      put "rolled_back_at" (text moment.iso)
        (put "rollback_deploy_id" deploy_id (put "rollback_status" (text status) manifest)) in
    if success then put "status" (text "rolled_back") dated else dated

abbrev pub rollback_entry : String → Fields → Json → Fields → String × String → Entry
rollback_entry slug manifest gate_id raw (sobject, name) =
    gate_entry "revops_support" "sf_schema_rollback"
      (plain_target ("sf:" <> sobject <> "." <> name))
      (some (field "slug" (text slug) (field "original_deploy_id" (get "deploy_id" manifest) end)))
      (some (
        field "deploy_id" (deploy_id_of raw)
          (field "success" (flag (succeeded raw)) (field "raw_status" (get "status" raw) end))))
      (as_key gate_id)

-- What follows the call of `deploy_fn`, which raised, or answered `raw`. The text of the exception
-- is the parameter `message`.
abbrev pub after_rollback :
    (Error → String) → Moment → String → Fields → Json → Result Fields → M RollbackResult
after_rollback message moment slug manifest gate_id (err e) = do
  save_manifest slug
      (put "rollback_error" (text (message e)) (put "rollback_status" (text "failed") manifest))
  pure (record { gate_id = gate_id; deploy_id = null; success = false })
after_rollback message moment slug manifest gate_id (ok raw) = do
  names ← changed_field manifest
  write_audit (rollback_entry slug manifest gate_id raw names)
  save_manifest slug (rolled_back moment (succeeded raw) (deploy_id_of raw) manifest)
  pure (record { gate_id = gate_id; deploy_id = deploy_id_of raw; success = succeeded raw })

-- The checks of `execute` before it calls `deploy_fn`, for a change that is not yet rolled back.
unfoldable pub check_rollback : String → Fields → M (Unit {0})
check_rollback slug manifest = do
  let gate_id = get "rollback_gate_id" manifest
  raise_if (not (truthy gate_id)) rollback_error
  action ← key_of "action" manifest
  raise_if (is_text "delete" action) rollback_error
  require_approved_gate (as_key gate_id) (rollback_action_type action)
  raise_unless_revert slug

abbrev pub run_rollback : Env → (Error → String) → Moment → String → Fields → M RollbackResult
run_rollback env message moment slug manifest = do
  check_rollback slug manifest
  λ w.
      let (answer, w') = deploy_metadata env write (bundle_dir moment slug <> "/revert") none w in
      after_rollback message moment slug manifest (get "rollback_gate_id" manifest) answer w'

abbrev pub earlier_rollback : Fields → RollbackResult
earlier_rollback manifest = record {
  gate_id = get "rollback_gate_id" manifest;
  deploy_id = get "rollback_deploy_id" manifest;
  success = true;
}

unfoldable pub execute : Env → (Error → String) → Moment → String → M RollbackResult
execute env message moment slug = do
  manifest ← load_manifest slug
  (if already_rolled_back manifest
      then pure (earlier_rollback manifest)
      else run_rollback env message moment slug manifest)
