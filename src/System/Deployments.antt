-- ===== src/System/Deployments.antt =====
-- The deployments and their rollbacks as sequences of steps of the system.
use loop_revops_agents.Base.{
  ℕ, ◌<>◌, String, Bool, true, false, none, some, inl, inr, if◌then◌else◌,
}
use loop_revops_agents.World.{Env, Error, Result, ok, err, M, pure, ◌>>=◌, ◌>>◌}
use loop_revops_agents.World.Values.{Json, Fields, put, text, null}
use loop_revops_agents.Governance.Gates.{write_audit}
use loop_revops_agents.Governance.Limits.{check_rate_limit}
use loop_revops_agents.Salesforce.{write, resolve_org_alias}
use loop_revops_agents.Schema.{
  Moment, bundle_dir, key_of, load_manifest, save_manifest, deploy_metadata, retrieve_metadata,
  deploy_id_of,
}
use loop_revops_agents.Schema.Stored.{key_of-Reads}
use loop_revops_agents.Schema.Deployer.{
  changed_field, retrieve_field, make_revert, snapshot, is_text, retrieve_pre_snapshot,
  write_revert, revert_files, build_revert_package, verify_gate, verify_sandbox_passed,
  prepare_deploy, after_deploy, deploy_entry, deployed_manifest, succeeded, deploy, DeployResult,
}
use loop_revops_agents.Schema.Cleared.{verify_gate_cases, verify_sandbox_cases}
use loop_revops_agents.Schema.Deployed.{changed_field-Reads}
use loop_revops_agents.System.Changes.{save-Runs, load-Runs, limit-Runs, deploy_metadata-Runs}
use loop_revops_agents.System.{retrieved, filed, here, next}
use loop_revops_agents.System.Handlers.{Runs, Runs-bind, Reads-Runs, Reach-trans}
use loop_revops_agents.System.Flows.{audit-Runs}

pub changed_field-Runs :
    {A : Type 0} (env : Env) (m : Fields) (f : String × String → M A)
    → ((names : String × String) → Runs env (f names))
    → Runs env (changed_field m >>= f)
changed_field-Runs env m f =
    Runs-bind env (changed_field m) f (Reads-Runs env (changed_field m) (changed_field-Reads m))

make_revert-Runs : (env : Env) (slug : String) → Runs env (make_revert slug)
make_revert-Runs env slug w = next here (filed _ w)

retrieve_field-Runs :
    (env : Env) (moment : Moment) (slug : String) (names : String × String)
    → Runs env (retrieve_field env moment slug names)
unfolding retrieve_metadata resolve_org_alias
retrieve_field-Runs env moment slug (sobject, name) =
    let item = "CustomField:" <> sobject <> "." <> name in
    let dir = bundle_dir moment slug <> "/revert/force-app" in
    Runs-bind {B = Unit {0}} env (retrieve_metadata env write item dir) (λ _. pure tt)
      (λ w. next here (retrieved _ _ w)) λ _ w. here

pre_snapshot-Runs :
    (env : Env) (moment : Moment) (slug : String) (m : Fields)
    → Runs env (retrieve_pre_snapshot env moment slug m)
unfolding retrieve_pre_snapshot
pre_snapshot-Runs env moment slug m =
    Runs-bind {B = Unit {0}} env (key_of "action" m) _
      (Reads-Runs env (key_of "action" m) (key_of-Reads "action" m))
      λ action. by_action (is_text "create" action)
  where
    by_action : (b : Bool) → Runs env (if b then pure tt else snapshot env moment slug m)
    by_action true = λ w. here
    by_action false =
        Runs-bind {B = Unit {0}} env (make_revert slug)
          (λ _. changed_field m >>= retrieve_field env moment slug) (make_revert-Runs env slug)
          λ _.
            changed_field-Runs env m (retrieve_field env moment slug)
              (retrieve_field-Runs env moment slug)

build_revert-Runs :
    (env : Env) (slug : String) (m : Fields) → Runs env (build_revert_package slug m)
unfolding build_revert_package
build_revert-Runs env slug m =
    let write : Json → String × String → M (Unit {0}) =
      λ action names. write_revert slug (revert_files action names.0 names.1) in
    let rest : Json → M (Unit {0}) = λ action. changed_field m >>= write action in
    Runs-bind {B = Unit {0}} env (make_revert slug) (λ _. key_of "action" m >>= rest)
      (make_revert-Runs env slug)
      λ _.
        Runs-bind {B = Unit {0}} env (key_of "action" m) rest
          (Reads-Runs env (key_of "action" m) (key_of-Reads "action" m))
          λ action. changed_field-Runs env m (write action) λ names w. next here (filed _ w)

verify_gate-Runs : (env : Env) (m : Fields) → Runs env (verify_gate m)
verify_gate-Runs env m w = elim (verify_gate_cases m w) [
  | inl (e, refused) ↦ rw refused here
  | inr (passed, _) ↦ rw passed here
]

verify_sandbox-Runs : (env : Env) (m : Fields) → Runs env (verify_sandbox_passed m)
verify_sandbox-Runs env m w = elim (verify_sandbox_cases m w) [
  | inl (e, refused) ↦ rw refused here
  | inr (passed, _) ↦ rw passed here
]

prepare_deploy-Runs :
    (env : Env) (moment : Moment) (slug : String) (m : Fields)
    → Runs env (prepare_deploy env moment slug m)
unfolding prepare_deploy
prepare_deploy-Runs env moment slug m =
    Runs-bind {B = Unit {0}} env (verify_gate m) _ (verify_gate-Runs env m) λ _.
      Runs-bind {B = Unit {0}} env (verify_sandbox_passed m) _ (verify_sandbox-Runs env m) λ _.
        Runs-bind {B = Unit {0}} env
          (check_rate_limit moment.now "revops_metadata_deploy_daily" 86400 none) _
          (limit-Runs env moment.now "revops_metadata_deploy_daily" 86400 none)
          λ _.
            Runs-bind {B = Unit {0}} env (retrieve_pre_snapshot env moment slug m)
              (λ _. build_revert_package slug m) (pre_snapshot-Runs env moment slug m)
              λ _. build_revert-Runs env slug m

after_deploy-Runs :
    (env : Env) (message : Error → String) (moment : Moment) (slug : String) (m : Fields)
    (r : Result Fields)
    → Runs env (after_deploy message moment slug m r)
after_deploy-Runs env message moment slug m (err e) =
    let noted = put "deploy_error" (text (message e)) (put "status" (text "deploy_failed") m) in
    Runs-bind {B = DeployResult} env (save_manifest slug noted)
      (λ _. pure (record { deploy_id = null; success = false; audit_id = none }))
      (save-Runs env slug noted) λ _ w. here
after_deploy-Runs env message moment slug m (ok raw) =
    let result : ℕ → DeployResult = λ audit_id. record {
      deploy_id = deploy_id_of raw;
      success = succeeded raw;
      audit_id = some audit_id;
    } in
    let saved = deployed_manifest moment m raw in
    let rest : ℕ → M DeployResult = λ a. save_manifest slug saved >> pure (result a) in
    changed_field-Runs env m (λ names. write_audit (deploy_entry slug m raw names) >>= rest)
      λ names.
        Runs-bind env (write_audit (deploy_entry slug m raw names)) rest
          (audit-Runs env (deploy_entry slug m raw names))
          λ a.
            Runs-bind env (save_manifest slug saved) (λ _. pure (result a))
              (save-Runs env slug saved) λ _ w. here

-- A deployment that is started, and what follows its answer.
pub then_deploy :
    {A : Type 0} (env : Env) (source : String) (f : Result Fields → M A)
    → ((r : Result Fields) → Runs env (f r))
    → Runs env (λ w. let (r, v) = deploy_metadata env write source none w in f r v)
then_deploy env source f later w =
    let (r, v) = deploy_metadata env write source none w in
    Reach-trans env (deploy_metadata-Runs env write source none w) (later r v)

pub deploy-Runs :
    (env : Env) (message : Error → String) (moment : Moment) (slug : String)
    → Runs env (deploy env message moment slug)
unfolding deploy
deploy-Runs env message moment slug =
    let source = bundle_dir moment slug <> "/force-app" in
    Runs-bind {B = DeployResult} env (load_manifest slug) _ (load-Runs env slug) λ m.
      Runs-bind env (prepare_deploy env moment slug m)
        (λ _ w.
          let (r, v) = deploy_metadata env write source none w in
          after_deploy message moment slug m r v)
        (prepare_deploy-Runs env moment slug m)
        λ _.
          then_deploy env source (after_deploy message moment slug m)
            (after_deploy-Runs env message moment slug m)
