-- ===== src/System/Every.antt =====
-- The calls of the handlers, and the worlds that they leave behind.
use loop_revops_agents.Base.{ℕ, String, Bool, Option, none, List}
use loop_revops_agents.World.{World, Env, Error}
use loop_revops_agents.World.Values.{Json, Fields}
use loop_revops_agents.Governance.Lawful.{AllLawful}
use loop_revops_agents.Salesforce.{update_record}
use loop_revops_agents.Cs.{
  request_csm_reassignment, finalize_csm_reassignment, request_churn_outreach,
  finalize_churn_outreach, request_mark_churned, on_mark_churned_primary_approved,
  finalize_mark_churned,
}
use loop_revops_agents.Onboarding.{sweep, apply_reassignment}
use loop_revops_agents.Cooldown.{poll}
use loop_revops_agents.Enroller.{enroll_batch, approve_queue}
use loop_revops_agents.Bulk.{Ports, run_batch}
use loop_revops_agents.Schema.{Moment}
use loop_revops_agents.Schema.Proposer.{propose_change}
use loop_revops_agents.Schema.Sandbox.{test_change}
use loop_revops_agents.Schema.Deployer.{deploy}
use loop_revops_agents.Schema.Rollback.{prepare, execute}
use loop_revops_agents.Permissions.{Soql, grant_permission_set, revoke_permission_set, add_to_group}
use loop_revops_agents.Permissions.Provision.{ProvisionRequest, provision}
use loop_revops_agents.System.Changes.{propose_change-Runs, test_change-Runs}
use loop_revops_agents.System.Deployments.{deploy-Runs}
use loop_revops_agents.System.Rollbacks.{prepare-Runs, execute-Runs}
use loop_revops_agents.System.Access.{grant-Runs, revoke-Runs, add_to_group-Runs, provision-Runs}
use loop_revops_agents.Permissions.Offboard.{OffboardRequest, offboard}
use loop_revops_agents.Onboarding.ClosedWon
use loop_revops_agents.Onboarding.ClosedWon.{poll_closed_won}
use loop_revops_agents.System.Leaving.{offboard-Runs}
use loop_revops_agents.System.Polls.{poll_closed_won-Runs}
use loop_revops_agents.System.{Reach}
use loop_revops_agents.System.Lawful.{Reach-AllLawful}
use loop_revops_agents.System.Handlers.{poll-Runs}
use loop_revops_agents.System.Flows.{
  request_csm_reassignment-Runs, finalize_csm_reassignment-Runs, request_churn_outreach-Runs,
  finalize_churn_outreach-Runs, request_mark_churned-Runs, on_mark_churned_primary_approved-Runs,
  finalize_mark_churned-Runs, sweep-Runs, apply_reassignment-Runs,
}
use loop_revops_agents.System.Batches.{enroll_batch-Runs, approve_queue-Runs, run_batch-Runs}

-- A call of one of the handlers, with its arguments.
pub data Flow : Type 0 where
  ask_reassignment :
      (now : ℕ) (slack : Bool) (account : String) (old : Option String) (new reason : String) → Flow
  do_reassignment : (k : ℕ) (approver : String) → Flow
  ask_outreach : (now : ℕ) (slack : Bool) (account csm draft reason : String) → Flow
  do_outreach : (slack : Bool) (k : ℕ) (approver : String) → Flow
  ask_churn : (now : ℕ) (slack : Bool) (account why : String) → Flow
  confirm_churn : (now : ℕ) (slack : Bool) (primary : ℕ) → Flow
  do_churn : (k : ℕ) (approver : String) → Flow
  sweep_owners : (now : ℕ) (rows : List Fields) → Flow
  set_owner : (k : ℕ) (owner approver : String) → Flow
  poll_cooldowns : (now : ℕ) → Flow
  enroll : (leads : List (ℕ × String)) (sequence_id : String) (k : ℕ) → Flow
  press_queue : (now k : ℕ) (approver : String) → Flow
  write_batch :
      (p : Ports) (now : ℕ) (agent sobject : String) (updates : List Fields) (k : ℕ)
      (dry_run : Bool)
      → Flow
  propose : (moment : Moment) (intent : Fields) (justification by : String) → Flow
  try_change : (message : Error → String) (moment : Moment) (slug level : String) → Flow
  deploy_change : (message : Error → String) (moment : Moment) (slug : String) → Flow
  prepare_rollback : (moment : Moment) (slug justification by : String) → Flow
  roll_back : (message : Error → String) (moment : Moment) (slug : String) → Flow
  grant : (soql : Soql) (user : Json) (ps agent : String) (k : Option ℕ) → Flow
  revoke : (soql : Soql) (user : Json) (ps agent : String) (k : Option ℕ) → Flow
  join_group : (soql : Soql) (user : Json) (group agent : String) (k : Option ℕ) → Flow
  provision_user : (req : ProvisionRequest) (agent : String) (k : Option ℕ) → Flow
  off_board :
      (soql : Soql) (p : Ports) (now : ℕ) (agent : String) (k : Option ℕ) (req : OffboardRequest)
      → Flow
  poll_won : (soql : ClosedWon.Soql) (message : Error → String) (now : ℕ) → Flow

-- The world that the call leaves behind, whether it returns or raises.
abbrev pub after : Env → Flow → World → World
after env (ask_reassignment now slack a old new reason) w =
    (request_csm_reassignment env now slack a old new reason w).1
after env (do_reassignment k approver) w =
    (finalize_csm_reassignment (update_record env) k approver w).1
after env (ask_outreach now slack a csm draft reason) w =
    (request_churn_outreach env now slack a csm draft reason w).1
after env (do_outreach slack k approver) w = (finalize_churn_outreach env slack k approver w).1
after env (ask_churn now slack a why) w = (request_mark_churned env now slack a why w).1
after env (confirm_churn now slack primary) w =
    (on_mark_churned_primary_approved env now slack primary w).1
after env (do_churn k approver) w = (finalize_mark_churned (update_record env) k approver w).1
after env (sweep_owners now rows) w = (sweep env now rows w).1
after env (set_owner k owner approver) w = (apply_reassignment env k owner approver w).1
after env (poll_cooldowns now) w = (poll env now w).1
after env (enroll leads sequence_id k) w = (enroll_batch env leads sequence_id k none w).1
after env (press_queue now k approver) w = (approve_queue now k approver w).1
after env (write_batch p now agent sobject updates k dry_run) w =
    (run_batch env p now agent sobject updates k dry_run w).1
after env (propose moment intent justification by) w =
    (propose_change moment intent justification by w).1
after env (try_change message moment slug level) w = (test_change env message moment slug level w).1
after env (deploy_change message moment slug) w = (deploy env message moment slug w).1
after env (prepare_rollback moment slug justification by) w =
    (prepare moment slug justification by w).1
after env (roll_back message moment slug) w = (execute env message moment slug w).1
after env (grant soql user ps agent k) w = (grant_permission_set env soql user ps agent k w).1
after env (revoke soql user ps agent k) w = (revoke_permission_set env soql user ps agent k w).1
after env (join_group soql user group agent k) w = (add_to_group env soql user group agent k w).1
after env (provision_user req agent k) w = (provision env req agent k w).1
after env (off_board soql p now agent k req) w = (offboard env soql p now agent k req w).1
after env (poll_won soql message now) w = (poll_closed_won env soql message now w).1

-- A call of a handler of Cs, of the sweep or the reassignment of Onboarding, of the cooldown poller,
-- of the enrolment, of the batch update, of a schema change, of a grant, of a provisioning or an
-- offboarding, or of the closed-won poller is a sequence of steps of the system, whether it returns
-- or raises, so it keeps all gates lawful.
pub flow_steps :
    (env : Env) (f : Flow) (w : World)
    → Reach env w (after env f w) × (AllLawful w → AllLawful (after env f w))
flow_steps env f w = let path = steps f in (path, Reach-AllLawful env path)
  where
    steps : (g : Flow) → Reach env w (after env g w)
    steps (ask_reassignment now slack a old new reason) =
        request_csm_reassignment-Runs env now slack a old new reason w
    steps (do_reassignment k approver) = finalize_csm_reassignment-Runs env k approver w
    steps (ask_outreach now slack a csm draft reason) =
        request_churn_outreach-Runs env now slack a csm draft reason w
    steps (do_outreach slack k approver) = finalize_churn_outreach-Runs env slack k approver w
    steps (ask_churn now slack a why) = request_mark_churned-Runs env now slack a why w
    steps (confirm_churn now slack primary) =
        on_mark_churned_primary_approved-Runs env now slack primary w
    steps (do_churn k approver) = finalize_mark_churned-Runs env k approver w
    steps (sweep_owners now rows) = sweep-Runs env now rows w
    steps (set_owner k owner approver) = apply_reassignment-Runs env k owner approver w
    steps (poll_cooldowns now) = poll-Runs env now w
    steps (enroll leads sequence_id k) = enroll_batch-Runs env leads sequence_id k w
    steps (press_queue now k approver) = approve_queue-Runs env now k approver w
    steps (write_batch p now agent sobject updates k dry_run) =
        run_batch-Runs env p now agent sobject updates k dry_run w
    steps (propose moment intent justification by) =
        propose_change-Runs env moment intent justification by w
    steps (try_change message moment slug level) = test_change-Runs env message moment slug level w
    steps (deploy_change message moment slug) = deploy-Runs env message moment slug w
    steps (prepare_rollback moment slug justification by) =
        prepare-Runs env moment slug justification by w
    steps (roll_back message moment slug) = execute-Runs env message moment slug w
    steps (grant soql user ps agent k) = grant-Runs env soql user ps agent k w
    steps (revoke soql user ps agent k) = revoke-Runs env soql user ps agent k w
    steps (join_group soql user group agent k) = add_to_group-Runs env soql user group agent k w
    steps (provision_user req agent k) = provision-Runs env req agent k w
    steps (off_board soql p now agent k req) = offboard-Runs env soql p now agent k req w
    steps (poll_won soql message now) = poll_closed_won-Runs env soql message now w
