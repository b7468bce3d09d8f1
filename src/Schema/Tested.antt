-- ===== src/Schema/Tested.antt =====
-- What the test in the sandbox leaves in the manifest.
use loop_revops_agents.Base.{
  ◌≡◌, ◌↔◌, refl, sym, ap, subst, ◌∙◌, ◌⊎◌, String, true, false, Option, some, List, ◌<>◌, str_eq,
  if◌then◌else◌, Bool-cases, Option-cases, inl, inr,
}
use loop_revops_agents.World.{
  World, SfCall, deploy_call, Env, Error, Result, ok, err, pure, ◌>>◌, file_not_found,
}
use loop_revops_agents.World.Values.{
  Json, text, object, Fields, find_field, get, put, get-put, or_else,
}
use loop_revops_agents.World.Bundles.{Bundle, find_bundle}
use loop_revops_agents.World.Keeps.{Keeps, Keeps-bind, Reads, kept, run_cases}
use loop_revops_agents.Salesforce.{Intent, sandbox, sf, resolve_org_alias}
use loop_revops_agents.Schema.{
  Moment, bundle_dir, dict_of, save_manifest, deploy_metadata, deploy_args, deploy_id_of,
}
use loop_revops_agents.Schema.Sandbox.{
  SandboxTestResult, to_manifest_entry, or_empty, listed, verdict, summarize_deploy,
  update_manifest, has_source, fresh_test, after_deploy, test_change,
}
use loop_revops_agents.Schema.Stored.{Holds, load-save, load_found, dict_of-Reads}
use loop_revops_agents.Schema.Cleared.{SandboxPassed}

-- The manifest with the result of the test.
abbrev pub tested : SandboxTestResult → Fields → Fields
tested r m =
    let status = if str_eq r.status "passed" then "sandbox_passed" else "sandbox_failed" in
    put "status" (text status) (put "sandbox_test" (object (to_manifest_entry r)) m)

tested-reads :
    (r : SandboxTestResult) (m : Fields)
    → get "sandbox_test" (tested r m) ≡ object (to_manifest_entry r)
tested-reads r m =
    let status = if str_eq r.status "passed" then "sandbox_passed" else "sandbox_failed" in
    let m1 = put "sandbox_test" (object (to_manifest_entry r)) m in
    get-put "status" "sandbox_test" (text status) m1
    ∙ get-put "sandbox_test" "sandbox_test" (object (to_manifest_entry r)) m

tested-SandboxPassed :
    (r : SandboxTestResult) (m : Fields) → SandboxPassed (tested r m) ↔ (r.status ≡ "passed")
unfolding get find_field
tested-SandboxPassed r m = (
  λ (d, read, passed).
      let same : object (to_manifest_entry r) ≡ object d = sym (tested-reads r m) ∙ read in
      let entry : to_manifest_entry r ≡ d = cc in
      let status : text r.status ≡ text "passed" =
        ap (λ (x : Fields). get "status" x) entry ∙ passed in
      cc,
  λ same. (to_manifest_entry r, tested-reads r m, ap text same),
)

update_lem :
    (slug : String) (r : SandboxTestResult) (u : World) (b : Bundle)
    → find_bundle slug u.bundles ≡ some b
    → let v = (save_manifest slug (tested r b.manifest) u).1 in
      (update_manifest slug r u ≡ (ok tt, v)) × Holds slug (tested r b.manifest) v
unfolding update_manifest save_manifest
update_lem slug r u b found =
    (rw (load_found slug u b found), load-save slug (tested r b.manifest) u b found)

pub summarize-Reads : (raw : Fields) → Reads (summarize_deploy raw)
unfolding summarize_deploy
summarize-Reads raw =
    let details = or_empty (or_else (get "details" raw) (get "deployDetails" raw)) in
    Keeps-bind (λ w. w) {B = String × Json × Json} (dict_of details) _ (dict_of-Reads details)
      λ d.
        Keeps-bind (λ w. w) {B = String × Json × Json} (dict_of (or_empty (get "runTestResult" d)))
          (λ runs.
            pure (verdict raw, listed (get "componentFailures" d), listed (get "failures" runs)))
          (dict_of-Reads (or_empty (get "runTestResult" d))) λ runs w. refl

-- The manifest that is there after the answer, by the result that is returned.
abbrev Recorded : String → World → SandboxTestResult → World → Type 0
Recorded slug u r v =
    (m : Fields) × Holds slug m v × (SandboxPassed m ↔ (r.status ≡ "passed")) × (v.gates ≡ u.gates)

record_lem :
    (slug : String) (q r : SandboxTestResult) (u v : World) (b : Bundle)
    → find_bundle slug u.bundles ≡ some b
    → (update_manifest slug q >> pure q) u ≡ (ok r, v)
    → Recorded slug u r v
unfolding save_manifest
record_lem slug q r u v b found h =
    let (done, held) = update_lem slug q u b found in
    let same : ◌≡◌ {A = Result SandboxTestResult × World}
        (ok q, (save_manifest slug (tested q b.manifest) u).1) (ok r, v) =
      sym (rw done) ∙ h in
    subst (λ (x : Result SandboxTestResult × World). result_of x) same
      (tested q b.manifest, held, tested-SandboxPassed q b.manifest, refl)
  where
    result_of : Result SandboxTestResult × World → Type 0
    result_of (ok p, x) = Recorded slug u p x
    result_of (err e, x) = Unit {0}

sf-tables :
    (env : Env) (call : SfCall)
    → Keeps (λ w. w.bundles) (sf env call) × Keeps (λ w. w.gates) (sf env call)
unfolding sf
sf-tables env call = (
  λ w. elim (Option-cases (env.org w.calls call)) [
    | inl down ↦ rw down refl
    | inr (d, up) ↦ rw up refl
  ],
  λ w. elim (Option-cases (env.org w.calls call)) [
    | inl down ↦ rw down refl
    | inr (d, up) ↦ rw up refl
  ],
)

pub alias_cases : (r : Result String) → ((e : Error) × (r ≡ err e)) ⊎ ((a : String) × (r ≡ ok a))
alias_cases (err e) = inl (e, refl)
alias_cases (ok a) = inr (a, refl)

deploy-tables :
    (env : Env) (intent : Intent) (source : String) (level : Option String)
    → Keeps (λ w. w.bundles) (deploy_metadata env intent source level)
      × Keeps (λ w. w.gates) (deploy_metadata env intent source level)
unfolding deploy_metadata
deploy-tables env intent source level = elim (alias_cases (resolve_org_alias env.config intent)) [
  | inl (e, unset) ↦ (λ w. rw (deploy_metadata, unset) refl, λ w. rw (deploy_metadata, unset) refl)
  | inr (alias, set) ↦
      let tables = sf-tables env (deploy_call alias (deploy_args source level)) in
      (λ w. rw (deploy_metadata, set) (tables.0 w), λ w. rw (deploy_metadata, set) (tables.1 w))
]

after_answer :
    (message : Error → String) (moment : Moment) (slug : String) (answer : Result Fields)
    (u v : World) (r : SandboxTestResult) (b : Bundle)
    → find_bundle slug u.bundles ≡ some b
    → after_deploy message moment slug answer u ≡ (ok r, v)
    → Recorded slug u r v
after_answer message moment slug (err e) u v r b found h =
    record_lem slug (record (fresh_test moment) { error_message = text (message e) }) r u v b found
      h
after_answer message moment slug (ok raw) u v r b found h =
    elim (run_cases (summarize_deploy raw) u) [
      | inl (e, u', broken) ↦
          let no : ◌≡◌ {A = Result SandboxTestResult × World} (err e, u') (ok r, v) =
            sym (rw broken) ∙ h in
          absurd (cc)
      | inr (parts, u', read) ↦
          let same = kept (λ x. x) (summarize_deploy raw) (summarize-Reads raw) u u' read in
          let q : SandboxTestResult = record (fresh_test moment) {
            deploy_id = deploy_id_of raw;
            status = parts.0;
            component_failures = parts.1;
            test_failures = parts.2;
          } in
          record_lem slug q r u v b found (sym (rw (read, same)) ∙ h)
    ]

source_found :
    (slug : String) (w : World)
    → has_source slug w ≡ true
    → (b : Bundle) × (find_bundle slug w.bundles ≡ some b)
unfolding has_source
source_found slug w there = elim (Option-cases (find_bundle slug w.bundles)) [
  | inl gone ↦ let no : has_source slug w ≡ false = rw (has_source, gone) in absurd (cc)
  | inr (b, found) ↦ (b, found)
]

-- A sandbox test that returns has recorded its result: the manifest says that the sandbox test
-- passed exactly if the result does, whether the deployment was answered or raised, and the gates
-- are as they were.
pub test_change_lem :
    (env : Env) (message : Error → String) (moment : Moment) (slug level : String) (w v : World)
    (r : SandboxTestResult)
    → test_change env message moment slug level w ≡ (ok r, v)
    → (m : Fields) × Holds slug m v
      × (SandboxPassed m ↔ (r.status ≡ "passed"))
      × (v.gates ≡ w.gates)
unfolding test_change
test_change_lem env message moment slug level w v r h =
    let source = bundle_dir moment slug <> "/force-app" in
    let answered = deploy_metadata env sandbox source (some level) w in
    elim (Bool-cases (has_source slug w)) [
      | inr gone ↦
          let no : ◌≡◌ {A = Result SandboxTestResult × World} (err file_not_found, w) (ok r, v) =
            sym (rw gone) ∙ h in
          absurd (cc)
      | inl there ↦
          let (b, found) = source_found slug w there in
          let (bundles, gates) = deploy-tables env sandbox source (some level) in
          let found : find_bundle slug answered.1.bundles ≡ some b =
            ap (λ (bs : List Bundle). find_bundle slug bs) (bundles w) ∙ found in
          let (m, held, says, same) =
            after_answer message moment slug answered.0 answered.1 v r b found
              (sym (rw there) ∙ h) in
          (m, held, says, same ∙ gates w)
    ]
