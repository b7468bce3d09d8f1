-- ===== src/System/Changes.antt =====
-- The schema changes as sequences of steps of the system.
use loop_revops_agents.Base.{
  ℕ, ◌<>◌, String, true, false, Option, none, some, inl, inr, Option-cases, Bool-cases, str_eq,
}
use loop_revops_agents.Base.Texts.{strip}
use loop_revops_agents.World.{
  Env, Error, Result, ok, err, pure, raise_if, approval_required, no_justification, proposal_error,
}
use loop_revops_agents.World.Values.{Fields, text}
use loop_revops_agents.World.Bundles.{find_bundle}
use loop_revops_agents.Governance.Tiers.{tier_of}
use loop_revops_agents.Governance.Gates.{create_approval_gate}
use loop_revops_agents.Governance.Limits.{check_rate_limit}
use loop_revops_agents.Salesforce.{Intent, sandbox, resolve_org_alias}
use loop_revops_agents.Schema.{
  Moment, bundle_dir, load_manifest, save_manifest, deploy_metadata, deploy_id_of,
}
use loop_revops_agents.Schema.Proposer.{
  Change, ProposedChange, validate_intent, write_bundle, slugify, change_request, manifest_of,
  write_proposal, propose_change,
}
use loop_revops_agents.Schema.Proposed.{validate-Reads}
use loop_revops_agents.Schema.Stored.{load-Reads}
use loop_revops_agents.Schema.Sandbox
use loop_revops_agents.Schema.Sandbox.{
  SandboxTestResult, fresh_test, summarize_deploy, update_manifest, test_change, has_source,
}
use loop_revops_agents.Schema.Tested.{tested, alias_cases, summarize-Reads}
use loop_revops_agents.System.{limited, deployed, filed, here, next}
use loop_revops_agents.System.Handlers.{Runs, Runs-bind, Reads-Runs, Reach-trans}
use loop_revops_agents.System.Flows.{create-Runs}

pub save-Runs : (env : Env) (slug : String) (m : Fields) → Runs env (save_manifest slug m)
unfolding save_manifest
save-Runs env slug m w = next here (filed _ w)

pub load-Runs : (env : Env) (slug : String) → Runs env (load_manifest slug)
load-Runs env slug = Reads-Runs env (load_manifest slug) (load-Reads slug)

pub limit-Runs :
    (env : Env) (now : ℕ) (bucket : String) (s : ℕ) (mode : Option String)
    → Runs env (check_rate_limit now bucket s mode)
limit-Runs env now bucket s mode w = next here (limited now bucket s mode w)

pub deploy_metadata-Runs :
    (env : Env) (intent : Intent) (source : String) (level : Option String)
    → Runs env (deploy_metadata env intent source level)
unfolding deploy_metadata
deploy_metadata-Runs env intent source level w =
    elim (alias_cases (resolve_org_alias env.config intent)) [
      | inl (e, unset) ↦ rw (deploy_metadata, unset) here
      | inr (alias, set) ↦ rw (deploy_metadata, set) (next here (deployed alias _ w))
    ]

write_bundle-Runs : (env : Env) (slug : String) (c : Change) → Runs env (write_bundle slug c)
unfolding write_bundle
write_bundle-Runs env slug c w = elim (Option-cases (find_bundle slug w.bundles)) [
  | inl fresh ↦ rw (write_bundle, fresh) (next here (filed _ w))
  | inr (b, there) ↦ rw (write_bundle, there) here
]

write_proposal-Runs :
    (env : Env) (moment : Moment) (slug : String) (c : Change) (justification by : String)
    → Runs env (write_proposal moment slug c justification by)
unfolding write_proposal
write_proposal-Runs env moment slug c justification by =
    Runs-bind {B = ProposedChange} env (write_bundle slug c) _ (write_bundle-Runs env slug c)
      λ files.
        let r = change_request moment slug c justification by in
        Runs-bind {B = ProposedChange} env (create_approval_gate moment.now r) _
          (create-Runs env moment.now r)
          λ k.
            let m = manifest_of moment slug c k justification by files in
            Runs-bind {B = ProposedChange} env (save_manifest slug m) _ (save-Runs env slug m)
              λ _ w. here

pub propose_change-Runs :
    (env : Env) (moment : Moment) (intent : Fields) (justification by : String)
    → Runs env (propose_change moment intent justification by)
unfolding propose_change
propose_change-Runs env moment intent justification by =
    Runs-bind {B = ProposedChange} env (validate_intent intent) _
      (Reads-Runs env (validate_intent intent) (validate-Reads intent))
      λ c.
        Runs-bind {B = ProposedChange} env
          (raise_if (str_eq (strip justification) "") (approval_required no_justification)) _
          (λ w. here)
          λ _.
            Runs-bind {B = ProposedChange} env
              (raise_if (elim (tier_of c.action_type) [ none ↦ true | some _ ↦ false ])
                proposal_error)
              _ (λ w. here)
              λ _.
                Runs-bind {B = ProposedChange} env
                  (check_rate_limit moment.now "revops_schema_changes_weekly" 604800 none) _
                  (limit-Runs env moment.now "revops_schema_changes_weekly" 604800 none)
                  λ _. write_proposal-Runs env moment (slugify moment c) c justification by

update_manifest-Runs :
    (env : Env) (slug : String) (r : SandboxTestResult) → Runs env (update_manifest slug r)
unfolding update_manifest
update_manifest-Runs env slug r =
    Runs-bind {B = Unit {0}} env (load_manifest slug) _ (load-Runs env slug)
      λ m. save-Runs env slug (tested r m)

tested-Runs :
    (env : Env) (message : Error → String) (moment : Moment) (slug : String) (r : Result Fields)
    → Runs env (Sandbox.after_deploy message moment slug r)
tested-Runs env message moment slug (err e) =
    let r = record (fresh_test moment) { error_message = text (message e) } in
    Runs-bind {B = SandboxTestResult} env (update_manifest slug r) (λ _. pure r)
      (update_manifest-Runs env slug r) λ _ w. here
tested-Runs env message moment slug (ok raw) =
    Runs-bind {B = SandboxTestResult} env (summarize_deploy raw) _
      (Reads-Runs env (summarize_deploy raw) (summarize-Reads raw))
      λ (status, comp_failures, test_failures).
        let r = record (fresh_test moment) {
          deploy_id = deploy_id_of raw;
          status = status;
          component_failures = comp_failures;
          test_failures = test_failures;
        } in
        Runs-bind {B = SandboxTestResult} env (update_manifest slug r) (λ _. pure r)
          (update_manifest-Runs env slug r) λ _ w. here

pub test_change-Runs :
    (env : Env) (message : Error → String) (moment : Moment) (slug level : String)
    → Runs env (test_change env message moment slug level)
unfolding test_change
test_change-Runs env message moment slug level w =
    let source = bundle_dir moment slug <> "/force-app" in
    let answered = deploy_metadata env sandbox source (some level) w in
    elim (Bool-cases (has_source slug w)) [
      | inr gone ↦ rw gone here
      | inl there ↦ rw there (
          Reach-trans env (deploy_metadata-Runs env sandbox source (some level) w)
            (tested-Runs env message moment slug answered.0 answered.1))
    ]
