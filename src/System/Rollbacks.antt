-- ===== src/System/Rollbacks.antt =====
-- The rollbacks as sequences of steps of the system.
use loop_revops_agents.Base.{
  ℕ, ◌<>◌, String, Bool, true, false, none, str_eq, inl, inr, if◌then◌else◌,
}
use loop_revops_agents.Base.Texts.{strip}
use loop_revops_agents.World.{
  Env, Error, Result, ok, err, M, pure, raise_if, ◌>>◌, approval_required, no_justification,
}
use loop_revops_agents.World.Values.{Json, Fields, get, put, text, number, null}
use loop_revops_agents.Governance.Gates.{write_audit, create_approval_gate}
use loop_revops_agents.Salesforce.{write}
use loop_revops_agents.Schema.{
  Moment, bundle_dir, key_of, item_of, load_manifest, save_manifest, deploy_metadata, deploy_id_of,
}
use loop_revops_agents.Schema.Stored.{key_of-Reads, item_of-Reads}
use loop_revops_agents.Schema.Deployer.{succeeded}
use loop_revops_agents.Schema.Rollback.{
  raise_unless_revert, rollback_request, prepare, already_rolled_back, earlier_rollback,
  rollback_entry, rolled_back, after_rollback, check_rollback, run_rollback, execute,
  RollbackResult,
}
use loop_revops_agents.Schema.Reverted.{check_rollback_cases}
use loop_revops_agents.System.{here}
use loop_revops_agents.System.Handlers.{Runs, Runs-bind, Reads-Runs}
use loop_revops_agents.System.Flows.{create-Runs, audit-Runs}
use loop_revops_agents.System.Changes.{save-Runs, load-Runs}
use loop_revops_agents.System.Deployments.{changed_field-Runs, then_deploy}

-- What a rollback's gate is asked for, once the manifest was read.
pub prepare-Runs :
    (env : Env) (moment : Moment) (slug justification by : String)
    → Runs env (prepare moment slug justification by)
unfolding prepare
prepare-Runs env moment slug justification by =
    Runs-bind {B = ℕ} env
      (raise_if (str_eq (strip justification) "") (approval_required no_justification)) _
      (λ w. here)
      λ _. Runs-bind {B = ℕ} env (load_manifest slug) _ (load-Runs env slug) λ m.
        Runs-bind {B = ℕ} env (raise_unless_revert slug) _ (λ w. here)
          λ _.
            Runs-bind {B = ℕ} env (key_of "action" m) _
              (Reads-Runs env (key_of "action" m) (key_of-Reads "action" m))
              λ a.
                Runs-bind {B = ℕ} env (key_of "object" m) _
                  (Reads-Runs env (key_of "object" m) (key_of-Reads "object" m))
                  λ o.
                    Runs-bind {B = ℕ} env (key_of "field" m) _
                      (Reads-Runs env (key_of "field" m) (key_of-Reads "field" m))
                      λ f.
                        Runs-bind {B = ℕ} env (item_of "name" f) _
                          (Reads-Runs env (item_of "name" f) (item_of-Reads "name" f))
                          λ n.
                            let r = rollback_request moment slug m a o n justification by in
                            Runs-bind {B = ℕ} env (create_approval_gate moment.now r) _
                              (create-Runs env moment.now r)
                              λ k.
                                let named = put "rollback_gate_id" (number k) m in
                                let noted = put "rollback_status" (text "pending") named in
                                Runs-bind {B = ℕ} env (save_manifest slug noted) (λ _. pure k)
                                  (save-Runs env slug noted) λ _ w. here

after_rollback-Runs :
    (env : Env) (message : Error → String) (moment : Moment) (slug : String) (m : Fields)
    (gate_id : Json) (r : Result Fields)
    → Runs env (after_rollback message moment slug m gate_id r)
after_rollback-Runs env message moment slug m gate_id (err e) =
    let noted = put "rollback_error" (text (message e)) (put "rollback_status" (text "failed") m) in
    Runs-bind {B = RollbackResult} env (save_manifest slug noted)
      (λ _. pure (record { gate_id = gate_id; deploy_id = null; success = false }))
      (save-Runs env slug noted) λ _ w. here
after_rollback-Runs env message moment slug m gate_id (ok raw) =
    let result : RollbackResult = record {
      gate_id = gate_id;
      deploy_id = deploy_id_of raw;
      success = succeeded raw;
    } in
    let saved = rolled_back moment (succeeded raw) (deploy_id_of raw) m in
    let rest : M RollbackResult = save_manifest slug saved >> pure result in
    changed_field-Runs env m
      (λ names. write_audit (rollback_entry slug m gate_id raw names) >> rest)
      λ names.
        Runs-bind env (write_audit (rollback_entry slug m gate_id raw names)) (λ _. rest)
          (audit-Runs env (rollback_entry slug m gate_id raw names))
          λ _.
            Runs-bind env (save_manifest slug saved) (λ _. pure result) (save-Runs env slug saved)
              λ _ w. here

check_rollback-Runs : (env : Env) (slug : String) (m : Fields) → Runs env (check_rollback slug m)
check_rollback-Runs env slug m w = elim (check_rollback_cases slug m w) [
  | inl (e, refused) ↦ rw refused here
  | inr (passed, _) ↦ rw passed here
]

run_rollback-Runs :
    (env : Env) (message : Error → String) (moment : Moment) (slug : String) (m : Fields)
    → Runs env (run_rollback env message moment slug m)
run_rollback-Runs env message moment slug m =
    let source = bundle_dir moment slug <> "/revert" in
    let k = get "rollback_gate_id" m in
    Runs-bind env (check_rollback slug m)
      (λ _ w.
        let (r, v) = deploy_metadata env write source none w in
        after_rollback message moment slug m k r v)
      (check_rollback-Runs env slug m)
      λ _.
        then_deploy env source (after_rollback message moment slug m k)
          (after_rollback-Runs env message moment slug m k)

pub execute-Runs :
    (env : Env) (message : Error → String) (moment : Moment) (slug : String)
    → Runs env (execute env message moment slug)
unfolding execute
execute-Runs env message moment slug =
    Runs-bind {B = RollbackResult} env (load_manifest slug) _ (load-Runs env slug)
      λ m. by_manifest m (already_rolled_back m)
  where
    by_manifest :
        (m : Fields) (b : Bool)
        → Runs env (if b then pure (earlier_rollback m) else run_rollback env message moment slug m)
    by_manifest m true = λ w. here
    by_manifest m false = run_rollback-Runs env message moment slug m
