-- ===== src/Schema/Cleared.antt =====
-- What a deployment needs: the gate and the sandbox test.
use loop_revops_agents.Base.{
  ℕ, ◌≡◌, refl, sym, ap, ◌∙◌, ◌⊎◌, String, true, false, Option, none, some, arith, eq_iff,
  if◌then◌else◌, Bool-cases, Option-cases, inl, inr,
}
use loop_revops_agents.World.{
  World, Error, ok, err, missing_key, attribute_error, deploy_precondition_error, approval_required,
  wrong_status, no_parent,
}
use loop_revops_agents.World.Values.{
  Json, null, flag, number, text, array, object, Fields, end, find_field, get, truthy, or_else,
}
use loop_revops_agents.World.Rows.{Gate, approved}
use loop_revops_agents.Governance.Gates.{is_approved}
use loop_revops_agents.Governance.Lawful.{gate_at}
use loop_revops_agents.Salesforce.Gated.{Permits, require_cases}
use loop_revops_agents.Schema.{dict_of, as_key}
use loop_revops_agents.Schema.Deployer.{
  verify_direct, verify_delete, verify_gate, is_direct, primary_done, not_passed,
  delete_confirm_gate, verify_sandbox_passed,
}

-- The gate that a deletion needs: its own with the first approval, and the newest confirmation.
abbrev pub Confirmed : World → Option ℕ → Type 0
Confirmed w none = ⊥
Confirmed w (some k) =
    (g c : Gate) × (gate_at k w ≡ some g)
    × (primary_done g.status ≡ true)
    × (delete_confirm_gate k w.gates ≡ some c)
    × (c.status ≡ approved)

-- What the gate of a manifest must be for its change to be deployed.
abbrev pub Cleared : Fields → World → Type 0
Cleared m w =
    (a : Json) × (find_field "action_type" m ≡ some a)
    × ((is_direct a ≡ true)
          × ((s : String) × (a ≡ text s) × Permits w (as_key (get "approval_gate_id" m)) s)
        ⊎ ((is_direct a ≡ false) × Confirmed w (as_key (get "approval_gate_id" m))))

verify_delete_cases :
    (o : Option ℕ) (w : World)
    → ((e : Error) × (verify_delete o w ≡ (err e, w)))
      ⊎ ((verify_delete o w ≡ (ok tt, w)) × Confirmed w o)
unfolding delete_confirm_gate
verify_delete_cases none w = inl (deploy_precondition_error, refl)
verify_delete_cases (some k) w = elim (Option-cases (gate_at k w)) [
  | inl gone ↦ inl (deploy_precondition_error, rw gone)
  | inr (g, found) ↦ elim (Bool-cases (primary_done g.status)) [
    | inr waiting ↦ inl (approval_required wrong_status, rw (found, waiting))
    | inl ready ↦ elim (Option-cases (delete_confirm_gate k w.gates)) [
      | inl no_child ↦ inl (approval_required no_parent, rw (found, ready, no_child))
      | inr (c, child) ↦ elim (Bool-cases (is_approved c.status)) [
        | inr open_still ↦
            inl (approval_required wrong_status, rw (found, ready, child, open_still))
        | inl done ↦ inr (rw (found, ready, child, done), (g, c, found, ready, child, ground arith))
      ]
    ]
  ]
]

verify_direct_cases :
    (o : Option ℕ) (a : Json) (w : World)
    → is_direct a ≡ true
    → ((e : Error) × (verify_direct o a w ≡ (err e, w)))
      ⊎ ((verify_direct o a w ≡ (ok tt, w)) × ((s : String) × (a ≡ text s) × Permits w o s))
verify_direct_cases o (text s) w direct = elim (require_cases o s w) [
  | inl (why, refused) ↦ inl (approval_required why, rw refused)
  | inr (permit, (g, passed)) ↦ inr (rw passed, (s, refl, permit))
]
verify_direct_cases o null w direct = absurd (cc)
verify_direct_cases o (flag _) w direct = absurd (cc)
verify_direct_cases o (number _) w direct = absurd (cc)
verify_direct_cases o (array _) w direct = absurd (cc)
verify_direct_cases o (object _) w direct = absurd (cc)

pub verify_gate_cases :
    (m : Fields) (w : World)
    → ((e : Error) × (verify_gate m w ≡ (err e, w)))
      ⊎ ((verify_gate m w ≡ (ok tt, w)) × Cleared m w)
unfolding verify_gate
verify_gate_cases m w = elim (Bool-cases (truthy (get "approval_gate_id" m))) [
  | inr unnamed ↦ inl (deploy_precondition_error, rw unnamed)
  | inl named ↦ elim (Option-cases (find_field "action_type" m)) [
    | inl missing ↦ inl (missing_key, rw (named, missing))
    | inr (a, given) ↦
        let k = as_key (get "approval_gate_id" m) in
        elim (Bool-cases (is_direct a)) [
          | inl direct ↦ elim (verify_direct_cases k a w direct) [
            | inl (e, refused) ↦ inl (e, rw (named, given, direct, refused))
            | inr (passed, permit) ↦
                inr (rw (named, given, direct, passed), (a, given, inl (direct, permit)))
          ]
          | inr other ↦ elim (verify_delete_cases k w) [
            | inl (e, refused) ↦ inl (e, rw (named, given, other, refused))
            | inr (passed, confirmed) ↦
                inr (rw (named, given, other, passed), (a, given, inr (other, confirmed)))
          ]
        ]
  ]
]

-- The manifest says that the sandbox took the change.
abbrev pub SandboxPassed : Fields → Type 0
SandboxPassed m =
    (d : Fields) × (get "sandbox_test" m ≡ object d) × (get "status" d ≡ text "passed")

passed_status : (v : Json) → not_passed v ≡ false → v ≡ text "passed"
passed_status (text s) h = ap text ((eq_iff s "passed").0 (ground arith))
passed_status null h = absurd (cc)
passed_status (flag _) h = absurd (cc)
passed_status (number _) h = absurd (cc)
passed_status (array _) h = absurd (cc)
passed_status (object _) h = absurd (cc)

dict_cases :
    (v : Json) (w : World)
    → (dict_of v w ≡ (err attribute_error, w)) ⊎ ((d : Fields) × (v ≡ object d))
dict_cases (object d) w = inr (d, refl)
dict_cases null w = inl refl
dict_cases (flag _) w = inl refl
dict_cases (number _) w = inl refl
dict_cases (text _) w = inl refl
dict_cases (array _) w = inl refl

-- The entry `sandbox_test` itself, where what is read for it says that the test passed.
own_entry :
    (v : Json) (d : Fields)
    → or_else v (object end) ≡ object d
    → get "status" d ≡ text "passed"
    → v ≡ object d
unfolding get find_field
own_entry v d read passed = elim (Bool-cases (truthy v)) [
  | inl there ↦ sym (ap (λ t. if t then v else object end) there) ∙ read
  | inr missing ↦
      let empty : object end ≡ object d =
        sym (ap (λ t. if t then v else object end) missing) ∙ read in
      absurd (cc)
]

pub verify_sandbox_cases :
    (m : Fields) (w : World)
    → ((e : Error) × (verify_sandbox_passed m w ≡ (err e, w)))
      ⊎ ((verify_sandbox_passed m w ≡ (ok tt, w)) × SandboxPassed m)
unfolding verify_sandbox_passed
verify_sandbox_cases m w =
    let entry = or_else (get "sandbox_test" m) (object end) in
    elim (dict_cases entry w) [
      | inl broken ↦ inl (attribute_error, rw broken)
      | inr (d, read) ↦ elim (Bool-cases (not_passed (get "status" d))) [
        | inl failed ↦ inl (deploy_precondition_error, rw (read, failed))
        | inr fine ↦
            let passed = passed_status (get "status" d) fine in
            inr (rw (read, fine), (d, own_entry (get "sandbox_test" m) d read passed, passed))
      ]
    ]
