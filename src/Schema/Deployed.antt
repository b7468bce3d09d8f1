-- ===== src/Schema/Deployed.antt =====
-- What a deployment does, and that nothing is deployed without its checks.
use mathlib.Core.List.{append-nil}
use loop_revops_agents.Base.{
  ◌≡◌, refl, ap, ◌∙◌, ◌⊎◌, String, Bool, true, false, none, some, List, [], ◌∷◌, ◌++◌, ◌<>◌,
  if◌then◌else◌, Option-cases, inl, inr, select, select-append,
}
use loop_revops_agents.World.{
  World, SfCall, deploy_call, retrieve_call, Env, Error, Result, ok, err, M, pure, ◌>>=◌, ◌>>◌,
}
use loop_revops_agents.World.Values.{Json, Fields}
use loop_revops_agents.World.Keeps.{
  Keeps, Reads, Keeps-bind, if-Keeps, Reads-Keeps, kept, run_cases,
}
use loop_revops_agents.Governance.Gates.{write_audit}
use loop_revops_agents.Governance.Limits.{check_rate_limit}
use loop_revops_agents.Governance.Limits.Kept.{limit-Keeps}
use loop_revops_agents.Salesforce.{write, sf, resolve_org_alias}
use loop_revops_agents.Schema.{
  Moment, bundle_dir, key_of, item_of, text_of, save_manifest, deploy_id_of, deploy_metadata,
  retrieve_metadata, deploy_args,
}
use loop_revops_agents.Schema.Deployer.{
  changed_field, snapshot, make_revert, is_text, retrieve_field, write_revert, revert_files,
  deploy_entry, deployed_manifest, succeeded, retrieve_pre_snapshot, build_revert_package,
  after_deploy, prepare_deploy, deploy,
}
use loop_revops_agents.Schema.Stored.{Holds, load_cases, text_of-Reads, key_of-Reads, item_of-Reads}
use loop_revops_agents.Schema.Cleared.{
  Cleared, SandboxPassed, verify_gate_cases, verify_sandbox_cases,
}

abbrev pub is_deploy : SfCall → Bool
is_deploy (deploy_call _ _) = true
is_deploy _ = false

-- The deployments that were started, in their order.
abbrev pub deployments : World → List SfCall
deployments w = select is_deploy w.calls

pub changed_field-Reads : (m : Fields) → Reads (changed_field m)
changed_field-Reads m =
    let whole : World → World = λ w. w in
    Keeps-bind whole (key_of "object" m) _ (key_of-Reads "object" m) λ o.
      Keeps-bind whole (text_of o) _ (text_of-Reads o) λ sobject.
        Keeps-bind whole (key_of "field" m) _ (key_of-Reads "field" m) λ fld.
          Keeps-bind whole (item_of "name" fld) _ (item_of-Reads "name" fld) λ n.
            Keeps-bind whole {B = String × String} (text_of n) (λ name. pure (sobject, name))
              (text_of-Reads n) λ name w. refl

deployments-snoc :
    (w : World) (call : SfCall)
    → deployments (record w { calls = w.calls ++ call ∷ [] })
      ≡ deployments w ++ (if is_deploy call then call ∷ [] else [])
unfolding select
deployments-snoc w call = select-append is_deploy w.calls (call ∷ [])

pub sf-retrieve :
    (env : Env) (alias : String) (args : List String)
    → Keeps deployments (sf env (retrieve_call alias args))
unfolding sf
sf-retrieve env alias args w = elim (Option-cases (env.org w.calls (retrieve_call alias args))) [
  | inl down ↦ rw down (deployments-snoc w (retrieve_call alias args) ∙ append-nil (deployments w))
  | inr (d, up) ↦ rw up (deployments-snoc w (retrieve_call alias args) ∙ append-nil (deployments w))
]

pub sf-deploy :
    (env : Env) (alias : String) (args : List String) (w : World)
    → deployments (sf env (deploy_call alias args) w).1
      ≡ deployments w ++ deploy_call alias args ∷ []
unfolding sf
sf-deploy env alias args w = elim (Option-cases (env.org w.calls (deploy_call alias args))) [
  | inl down ↦ rw down (deployments-snoc w (deploy_call alias args))
  | inr (d, up) ↦ rw up (deployments-snoc w (deploy_call alias args))
]

retrieve-Keeps :
    (env : Env) (item dir : String) → Keeps deployments (retrieve_metadata env write item dir)
unfolding retrieve_metadata resolve_org_alias
retrieve-Keeps env item dir = sf-retrieve env _ _

retrieve_field-Keeps :
    (env : Env) (moment : Moment) (slug : String) (names : String × String)
    → Keeps deployments (retrieve_field env moment slug names)
retrieve_field-Keeps env moment slug (sobject, name) =
    let item = "CustomField:" <> sobject <> "." <> name in
    let dir = bundle_dir moment slug <> "/revert/force-app" in
    Keeps-bind deployments {B = Unit {0}} (retrieve_metadata env write item dir) (λ _. pure tt)
      (retrieve-Keeps env item dir) λ _ w. refl

pub names-Keeps :
    {B : Type 0} (m : Fields) (f : String × String → M B)
    → ((names : String × String) → Keeps deployments (f names))
    → Keeps deployments (changed_field m >>= f)
names-Keeps m f =
    Keeps-bind deployments (changed_field m) f
      (Reads-Keeps deployments (changed_field m) (changed_field-Reads m))

snapshot-Keeps :
    (env : Env) (moment : Moment) (slug : String) (m : Fields)
    → Keeps deployments (snapshot env moment slug m)
snapshot-Keeps env moment slug m =
    let rest = changed_field m >>= retrieve_field env moment slug in
    Keeps-bind deployments {B = Unit {0}} (make_revert slug) (λ _. rest) (λ w. refl)
      λ _. names-Keeps m (retrieve_field env moment slug) (retrieve_field-Keeps env moment slug)

pre_snapshot-Keeps :
    (env : Env) (moment : Moment) (slug : String) (m : Fields)
    → Keeps deployments (retrieve_pre_snapshot env moment slug m)
unfolding retrieve_pre_snapshot
pre_snapshot-Keeps env moment slug m =
    let rest : Json → M (Unit {0}) =
      λ action. if is_text "create" action then pure tt else snapshot env moment slug m in
    Keeps-bind deployments {B = Unit {0}} (key_of "action" m) rest
      (Reads-Keeps deployments (key_of "action" m) (key_of-Reads "action" m))
      λ action.
        if-Keeps deployments (is_text "create" action) (pure tt) (snapshot env moment slug m)
          (λ w. refl) (snapshot-Keeps env moment slug m)

revert-Keeps : (slug : String) (m : Fields) → Keeps deployments (build_revert_package slug m)
unfolding build_revert_package
revert-Keeps slug m =
    let write : Json → String × String → M (Unit {0}) =
      λ action names. write_revert slug (revert_files action names.0 names.1) in
    let rest : Json → M (Unit {0}) = λ action. changed_field m >>= write action in
    Keeps-bind deployments {B = Unit {0}} (make_revert slug) (λ _. key_of "action" m >>= rest)
      (λ w. refl)
      λ _.
        Keeps-bind deployments {B = Unit {0}} (key_of "action" m) rest
          (Reads-Keeps deployments (key_of "action" m) (key_of-Reads "action" m))
          λ action. names-Keeps m (write action) λ names w. refl

after_deploy-Keeps :
    (message : Error → String) (moment : Moment) (slug : String) (m : Fields) (r : Result Fields)
    → Keeps deployments (after_deploy message moment slug m r)
unfolding save_manifest write_audit
after_deploy-Keeps message moment slug m (err e) w = refl
after_deploy-Keeps message moment slug m (ok raw) w =
    names-Keeps m
      (λ names. write_audit (deploy_entry slug m raw names) >>= λ audit_id.
        save_manifest slug (deployed_manifest moment m raw)
        >> pure (record {
          deploy_id = deploy_id_of raw;
          success = succeeded raw;
          audit_id = some audit_id;
        }))
      (λ names v. refl) w

-- The steps between the two checks and the deployment.
abbrev make_ready : Env → Moment → String → Fields → M (Unit {0})
make_ready env moment slug m = do
  check_rate_limit moment.now "revops_metadata_deploy_daily" 86400 none
  retrieve_pre_snapshot env moment slug m
  build_revert_package slug m

make_ready-Keeps :
    (env : Env) (moment : Moment) (slug : String) (m : Fields)
    → Keeps deployments (make_ready env moment slug m)
make_ready-Keeps env moment slug m =
    let limit = check_rate_limit moment.now "revops_metadata_deploy_daily" 86400 none in
    let rest : M (Unit {0}) =
      retrieve_pre_snapshot env moment slug m >> build_revert_package slug m in
    Keeps-bind deployments {B = Unit {0}} limit (λ _. rest)
      (limit-Keeps deployments (λ w rates. refl) moment.now 86400 "revops_metadata_deploy_daily"
        none)
      λ _.
        Keeps-bind deployments {B = Unit {0}} (retrieve_pre_snapshot env moment slug m)
          (λ _. build_revert_package slug m) (pre_snapshot-Keeps env moment slug m)
          λ _. revert-Keeps slug m

-- The checks raise and deploy nothing, or the gate and the sandbox test are as they must be.
prepare_cases :
    (env : Env) (moment : Moment) (slug : String) (m : Fields) (w : World)
    → ((e : Error) × (v : World) × (prepare_deploy env moment slug m w ≡ (err e, v))
        × (deployments v ≡ deployments w))
      ⊎ ((v : World) × (prepare_deploy env moment slug m w ≡ (ok tt, v))
          × (deployments v ≡ deployments w)
          × Cleared m w
          × SandboxPassed m)
unfolding prepare_deploy
prepare_cases env moment slug m w = elim (verify_gate_cases m w) [
  | inl (e, refused) ↦ inl (e, w, rw refused, refl)
  | inr (gate, cleared) ↦ elim (verify_sandbox_cases m w) [
    | inl (e, refused) ↦ inl (e, w, rw (gate, refused), refl)
    | inr (tested, passed) ↦
        let ready = make_ready env moment slug m in
        elim (run_cases ready w) [
          | inl (e, v, stopped) ↦ inl (
            e,
            v,
            rw (gate, tested) stopped,
            kept deployments ready (make_ready-Keeps env moment slug m) w v stopped,
          )
          | inr (a, v, done) ↦ inr (
            v,
            rw (gate, tested) done,
            kept deployments ready (make_ready-Keeps env moment slug m) w v done,
            cleared,
            passed,
          )
        ]
  ]
]

pub deploy_metadata_lem :
    (env : Env) (source : String) (w : World)
    → (alias : String) × (resolve_org_alias env.config write ≡ ok alias)
      × (deployments (deploy_metadata env write source none w).1
          ≡ deployments w ++ deploy_call alias (deploy_args source none) ∷ [])
unfolding deploy_metadata resolve_org_alias
deploy_metadata_lem env source w = (_, refl, sf-deploy env _ _ w)

pub deploy_lem :
    (env : Env) (message : Error → String) (moment : Moment) (slug : String) (w : World)
    → let v = (deploy env message moment slug w).1 in
      (deployments v ≡ deployments w)
      ⊎ ((m : Fields) × (alias : String) × Holds slug m w
          × Cleared m w
          × SandboxPassed m
          × (resolve_org_alias env.config write ≡ ok alias)
          × (deployments v
              ≡ deployments w
                ++ deploy_call alias (deploy_args (bundle_dir moment slug <> "/force-app") none)
                  ∷ []))
unfolding deploy
deploy_lem env message moment slug w = elim (load_cases slug w) [
  | inl gone ↦ inl (rw gone refl)
  | inr (b, found, held) ↦ elim (prepare_cases env moment slug b.manifest w) [
    | inl (e, v, stopped, same) ↦ inl (rw (held, stopped) same)
    | inr (v, ready, same, cleared, passed) ↦
        let source = bundle_dir moment slug <> "/force-app" in
        let (alias, org, started) = deploy_metadata_lem env source v in
        let sent = deploy_metadata env write source none v in
        inr (
          b.manifest,
          alias,
          held,
          cleared,
          passed,
          org,
          rw (held, ready)
              (after_deploy-Keeps message moment slug b.manifest sent.0 sent.1
                ∙ started
                ∙ ap (λ (cs : List SfCall). cs ++ deploy_call alias (deploy_args source none) ∷ [])
                    same),
        )
  ]
]
