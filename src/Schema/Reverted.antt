-- ===== src/Schema/Reverted.antt =====
-- What the rollback of a deployed change does.
use loop_revops_agents.Base.{
  ℕ, ◌≡◌, refl, sym, ap, subst, ◌∙◌, ◌⊎◌, String, Bool, true, false, Option, none, some, List, [],
  ◌∷◌, ◌++◌, ◌<>◌, Bool-cases, Option-cases, inl, inr,
}
use loop_revops_agents.World.{
  World, SfCall, deploy_call, Env, Error, Result, ok, err, pure, ◌>>◌, missing_key, rollback_error,
  file_not_found, approval_required,
}
use loop_revops_agents.World.Values.{
  Json, null, text, Fields, find_field, get, put, get-put, truthy,
}
use loop_revops_agents.World.Bundles.{Bundle, find_bundle}
use loop_revops_agents.World.Keeps.{Keeps, kept, run_cases}
use loop_revops_agents.Governance.Gates.{write_audit}
use loop_revops_agents.Governance.Lawful.{AllLawful}
use loop_revops_agents.Governance.Votes.{delete_never_required, require_iff}
use loop_revops_agents.Salesforce.{write, sf, resolve_org_alias}
use loop_revops_agents.Salesforce.Gated.{Permits, require_cases}
use loop_revops_agents.Schema.{
  load_manifest, Moment, bundle_dir, as_key, save_manifest, deploy_metadata, deploy_args,
  deploy_id_of,
}
use loop_revops_agents.Schema.Deployer.{changed_field, is_text, succeeded}
use loop_revops_agents.Schema.Rollback.{
  rollback_action_type, has_revert, already_rolled_back, RollbackResult, rolled_back,
  rollback_entry, after_rollback, check_rollback, earlier_rollback, execute,
}
use loop_revops_agents.Schema.Stored.{Holds, load_cases, load-save}
use loop_revops_agents.Schema.Deployed.{
  deployments, changed_field-Reads, names-Keeps, deploy_metadata_lem,
}

-- The checks of a rollback write nothing; they pass for an approved gate of the action type that
-- the rollback needs.
pub check_rollback_cases :
    (slug : String) (m : Fields) (w : World)
    → ((e : Error) × (check_rollback slug m w ≡ (err e, w)))
      ⊎ ((check_rollback slug m w ≡ (ok tt, w))
          × ((a : Json) × (find_field "action" m ≡ some a)
              × (is_text "delete" a ≡ false)
              × Permits w (as_key (get "rollback_gate_id" m)) (rollback_action_type a)))
unfolding check_rollback
check_rollback_cases slug m w = elim (Bool-cases (truthy (get "rollback_gate_id" m))) [
  | inr unnamed ↦ inl (rollback_error, rw unnamed)
  | inl named ↦ elim (Option-cases (find_field "action" m)) [
    | inl missing ↦ inl (missing_key, rw (named, missing))
    | inr (a, given) ↦ elim (Bool-cases (is_text "delete" a)) [
      | inl deletes ↦ inl (rollback_error, rw (named, given, deletes))
      | inr fine ↦
          let k = as_key (get "rollback_gate_id" m) in
          elim (require_cases k (rollback_action_type a) w) [
            | inl (why, refused) ↦ inl (approval_required why, rw (named, given, fine, refused))
            | inr (permit, (g, passed)) ↦ elim (Bool-cases (has_revert slug w)) [
              | inr gone ↦ inl (rollback_error, rw (named, given, fine, passed, gone))
              | inl there ↦ inr (rw (named, given, fine, passed, there), (a, given, fine, permit))
            ]
          ]
    ]
  ]
]

-- Where all gates are lawful, the rollback of a creation that was not rolled back yet always
-- raises, and changes nothing: it asks for an approved gate of sf_schema_delete, which there is not.
pub creation_stays :
    (env : Env) (message : Error → String) (moment : Moment) (slug : String) (w : World)
    (m : Fields)
    → AllLawful w
    → Holds slug m w
    → find_field "action" m ≡ some (text "create")
    → already_rolled_back m ≡ false
    → (e : Error) × (execute env message moment slug w ≡ (err e, w))
unfolding execute
creation_stays env message moment slug w m all held creates fresh =
    elim (check_rollback_cases slug m w) [
      | inl (e, refused) ↦ (e, rw (held, fresh, refused))
      | inr (passed, (a, given, fine, permit)) ↦
          let same : a ≡ text "create" = cc in
          let permit =
            subst (λ x. Permits w (as_key (get "rollback_gate_id" m)) (rollback_action_type x)) same
              permit in
          absurd (unpermitted (as_key (get "rollback_gate_id" m)) permit)
    ]
  where
    unpermitted : (k : Option ℕ) → Permits w k "sf_schema_delete" → ⊥
    unpermitted none never = never
    unpermitted (some k) (g, found, done, action) =
        delete_never_required k w g all
          ((require_iff k "sf_schema_delete" w g).1 (found, done, action))

after_rollback-Keeps :
    (message : Error → String) (moment : Moment) (slug : String) (m : Fields) (gate_id : Json)
    (r : Result Fields)
    → Keeps deployments (after_rollback message moment slug m gate_id r)
unfolding save_manifest write_audit
after_rollback-Keeps message moment slug m gate_id (err e) w = refl
after_rollback-Keeps message moment slug m gate_id (ok raw) w =
    names-Keeps m
      (λ names.
        write_audit (rollback_entry slug m gate_id raw names)
        >> (save_manifest slug (rolled_back moment (succeeded raw) (deploy_id_of raw) m)
            >> pure (record {
              gate_id = gate_id;
              deploy_id = deploy_id_of raw;
              success = succeeded raw;
            })))
      (λ names v. refl) w

-- execute starts no deployment, or exactly one, of the bundle's own revert directory to the org that
-- is written to, for a change that is neither a deletion nor rolled back already, under an approved
-- gate of the action type that the rollback needs.
pub execute_lem :
    (env : Env) (message : Error → String) (moment : Moment) (slug : String) (w : World)
    → let v = (execute env message moment slug w).1 in
      (deployments v ≡ deployments w)
      ⊎ ((m : Fields) × (alias : String) × (a : Json) × Holds slug m w
          × (already_rolled_back m ≡ false)
          × (find_field "action" m ≡ some a)
          × (is_text "delete" a ≡ false)
          × Permits w (as_key (get "rollback_gate_id" m)) (rollback_action_type a)
          × (resolve_org_alias env.config write ≡ ok alias)
          × (deployments v
              ≡ deployments w
                ++ deploy_call alias (deploy_args (bundle_dir moment slug <> "/revert") none) ∷ []))
unfolding execute
execute_lem env message moment slug w = elim (load_cases slug w) [
  | inl gone ↦ inl (rw gone refl)
  | inr (b, found, held) ↦
      let m = b.manifest in
      elim (Bool-cases (already_rolled_back m)) [
        | inl earlier ↦ inl (rw (held, earlier) refl)
        | inr fresh ↦ elim (check_rollback_cases slug m w) [
          | inl (e, refused) ↦ inl (rw (held, fresh, refused) refl)
          | inr (passed, (a, given, fine, permit)) ↦
              let source = bundle_dir moment slug <> "/revert" in
              let (alias, org, started) = deploy_metadata_lem env source w in
              let sent = deploy_metadata env write source none w in
              inr (
                m,
                alias,
                a,
                held,
                fresh,
                given,
                fine,
                permit,
                org,
                rw (held, fresh, passed)
                    (after_rollback-Keeps message moment slug m (get "rollback_gate_id" m) sent.0
                        sent.1
                      ∙ started),
              )
        ]
      ]
]

-- What a manifest says after a rollback that succeeded.
rolled_back-reads :
    (moment : Moment) (id : Json) (m : Fields)
    → let after = rolled_back moment true id m in
      (get "rollback_status" after ≡ text "deployed")
      × (get "rollback_deploy_id" after ≡ id)
      × (get "rollback_gate_id" after ≡ get "rollback_gate_id" m)
rolled_back-reads moment id m =
    let m1 = put "rollback_status" (text "deployed") m in
    let m2 = put "rollback_deploy_id" id m1 in
    let m3 = put "rolled_back_at" (text moment.iso) m2 in
    let top = λ (j : String). get-put "status" j (text "rolled_back") m3 in
    let dated = λ (j : String). get-put "rolled_back_at" j (text moment.iso) m2 in
    let named = λ (j : String). get-put "rollback_deploy_id" j id m1 in
    let marked = λ (j : String). get-put "rollback_status" j (text "deployed") m in
    (
      top "rollback_status"
          ∙ dated "rollback_status"
          ∙ named "rollback_status"
          ∙ marked "rollback_status",
      top "rollback_deploy_id" ∙ dated "rollback_deploy_id" ∙ named "rollback_deploy_id",
      top "rollback_gate_id"
          ∙ dated "rollback_gate_id"
          ∙ named "rollback_gate_id"
          ∙ marked "rollback_gate_id",
    )

sf-bundles : (env : Env) (call : SfCall) → Keeps (λ w. w.bundles) (sf env call)
unfolding sf
sf-bundles env call w = elim (Option-cases (env.org w.calls call)) [
  | inl down ↦ rw down refl
  | inr (d, up) ↦ rw up refl
]

deploy-bundles :
    (env : Env) (source : String) → Keeps (λ w. w.bundles) (deploy_metadata env write source none)
unfolding deploy_metadata resolve_org_alias
deploy-bundles env source = sf-bundles env _

-- Another world in which the bundle is as it is here.
abbrev SameBundle : String → World → World → Type 0
SameBundle slug x v = find_bundle slug x.bundles ≡ find_bundle slug v.bundles

same-load :
    (slug : String) (m : Fields) (x v : World)
    → SameBundle slug x v
    → Holds slug m v
    → Holds slug m x
unfolding load_manifest
same-load slug m x v same h = elim (Option-cases (find_bundle slug v.bundles)) [
  | inl gone ↦
      let no : ◌≡◌ {A = Result Fields × World} (err file_not_found, v) (ok m, v) =
        sym (rw (load_manifest, gone)) ∙ h in
      absurd (cc)
  | inr (b, found) ↦
      let read : ◌≡◌ {A = Result Fields × World} (ok b.manifest, v) (ok m, v) =
        sym (rw (load_manifest, found)) ∙ h in
      let held : ok b.manifest ≡ ok m = ap (λ (y : Result Fields × World). y.0) read in
      rw (load_manifest, same ∙ found) (ap (λ (y : Result Fields). (y, x)) held)
]

-- Where the manifest says that the rollback was made, a call returns what it says.
settled_call :
    (env : Env) (message : Error → String) (later : Moment) (slug : String) (m : Fields)
    (x v : World)
    → SameBundle slug x v
    → Holds slug m v
    → already_rolled_back m ≡ true
    → execute env message later slug x ≡ (ok (earlier_rollback m), x)
unfolding execute
settled_call env message later slug m x v same held earlier =
    rw (same-load slug m x v same held, earlier)

-- The second call after a rollback that succeeded.
again :
    (env : Env) (message : Error → String) (moment : Moment) (slug : String) (id : Json)
    (m : Fields) (u : World) (b : Bundle)
    → find_bundle slug u.bundles ≡ some b
    → let v = (save_manifest slug (rolled_back moment true id m) u).1 in
      (later : Moment) (x : World)
      → SameBundle slug x v
      → execute env message later slug x
        ≡ (ok (record { gate_id = get "rollback_gate_id" m; deploy_id = id; success = true }), x)
again env message moment slug id m u b found later x unchanged =
    let (status, deploy, gate) = rolled_back-reads moment id m in
    let after = rolled_back moment true id m in
    let v = (save_manifest slug after u).1 in
    settled_call env message later slug after x v unchanged (load-save slug after u b found)
      (rw status refl)
    ∙ (rw (deploy, gate))

after_once :
    (env : Env) (message : Error → String) (moment later : Moment) (slug : String) (m : Fields)
    (answer : Result Fields) (u v x : World) (r : RollbackResult) (b : Bundle)
    → find_bundle slug u.bundles ≡ some b
    → after_rollback message moment slug m (get "rollback_gate_id" m) answer u ≡ (ok r, v)
    → r.success ≡ true
    → SameBundle slug x v
    → execute env message later slug x ≡ (ok r, x)
unfolding write_audit save_manifest
after_once env message moment later slug m (err e) u v x r b found h success unchanged =
    let no : ok (record { gate_id = get "rollback_gate_id" m; deploy_id = null; success = false })
        ≡ ok r =
      ap (λ (y : Result RollbackResult × World). y.0) h in
    absurd (cc)
after_once env message moment later slug m (ok raw) u v x r b found h success unchanged =
    elim (run_cases (changed_field m) u) [
      | inl (e, u', stopped) ↦
          let no : ◌≡◌ {A = Result RollbackResult × World} (err e, u') (ok r, v) =
            sym (rw stopped) ∙ h in
          absurd (cc)
      | inr (names, u', named) ↦
          let same = kept (λ y. y) (changed_field m) (changed_field-Reads m) u u' named in
          let audited =
            (write_audit (rollback_entry slug m (get "rollback_gate_id" m) raw names) u).1 in
          let id = deploy_id_of raw in
          let done : ◌≡◌ {A = Result RollbackResult × World}
              (
                ok (record {
                  gate_id = get "rollback_gate_id" m;
                  deploy_id = id;
                  success = succeeded raw;
                }),
                (save_manifest slug (rolled_back moment (succeeded raw) id m) audited).1,
              )
              (ok r, v) =
            sym (rw (named, same)) ∙ h in
          let won : succeeded raw ≡ true = cc in
          let saved : Bool → World =
            λ t. (save_manifest slug (rolled_back moment t id m) audited).1 in
          let result : Bool → RollbackResult =
            λ t. record { gate_id = get "rollback_gate_id" m; deploy_id = id; success = t } in
          let first : SameBundle slug x (saved true)
              → execute env message later slug x ≡ (ok (result true), x) =
            again env message moment slug id m audited b found later x in
          let there : SameBundle slug x (saved (succeeded raw)) =
            unchanged
            ∙ sym (ap (λ (y : Result RollbackResult × World). find_bundle slug y.1.bundles) done) in
          let mine : ok (result (succeeded raw)) ≡ ok r =
            ap (λ (y : Result RollbackResult × World). y.0) done in
          subst
            (λ t.
              SameBundle slug x (saved t) → execute env message later slug x ≡ (ok (result t), x))
            (sym won) first there
          ∙ ap (λ (y : Result RollbackResult). (y, x)) mine
    ]

-- A rollback that succeeds is made once: as long as the bundle's manifest stays as that call left it,
-- every later call, in whatever world otherwise, returns what the first one returned, and changes
-- nothing.
pub execute_once :
    (env : Env) (message : Error → String) (moment later : Moment) (slug : String) (w v x : World)
    (r : RollbackResult)
    → execute env message moment slug w ≡ (ok r, v)
    → r.success ≡ true
    → find_bundle slug x.bundles ≡ find_bundle slug v.bundles
    → execute env message later slug x ≡ (ok r, x)
unfolding execute
execute_once env message moment later slug w v x r h success unchanged = elim (load_cases slug w) [
  | inl gone ↦
      let no : ◌≡◌ {A = Result RollbackResult × World} (err file_not_found, w) (ok r, v) =
        sym (rw gone) ∙ h in
      absurd (cc)
  | inr (b, found, held) ↦
      let m = b.manifest in
      elim (Bool-cases (already_rolled_back m)) [
        | inl earlier ↦
            let same : ◌≡◌ {A = Result RollbackResult × World} (ok (earlier_rollback m), w)
                (ok r, v) =
              sym (rw (held, earlier)) ∙ h in
            let still : find_bundle slug x.bundles ≡ find_bundle slug w.bundles =
              unchanged
              ∙ sym
                  (ap (λ (y : Result RollbackResult × World). find_bundle slug y.1.bundles) same) in
            settled_call env message later slug m x w still held earlier
            ∙ ap (λ (y : Result RollbackResult × World). (y.0, x)) same
        | inr fresh ↦ elim (check_rollback_cases slug m w) [
          | inl (e, refused) ↦
              let no : ◌≡◌ {A = Result RollbackResult × World} (err e, w) (ok r, v) =
                sym (rw (held, fresh, refused)) ∙ h in
              absurd (cc)
          | inr (passed, _) ↦
              let source = bundle_dir moment slug <> "/revert" in
              let sent = deploy_metadata env write source none w in
              let there : find_bundle slug sent.1.bundles ≡ some b =
                ap (λ (bs : List Bundle). find_bundle slug bs) (deploy-bundles env source w)
                ∙ found in
              after_once env message moment later slug m sent.0 sent.1 v x r b there
                (sym (rw (held, fresh, passed)) ∙ h) success unchanged
        ]
      ]
]
