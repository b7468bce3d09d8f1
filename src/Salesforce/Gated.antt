-- ===== src/Salesforce/Gated.antt =====
-- No write reaches the org without an approved gate of the right action type.
use loop_revops_agents.Base.{
  ℕ, ◌≡◌, ◌⊎◌, refl, String, Option, none, some, List, [], ◌∷◌, ◌++◌, arith, ltb, str_eq, eq_iff,
  if◌then◌else◌, Bool-cases, Option-cases, inl, inr, length, ◌≤◌,
}
use loop_revops_agents.World.{
  World, Error, Refusal, Env, SfCall, create_call, update_call, merge_call, ok, err,
  approval_required, bad_value, no_gate_id, pure, ◌>>=◌, ◌>>◌, unknown_gate, wrong_status,
  wrong_action,
}
use loop_revops_agents.World.Values.{Fields, Json}
use loop_revops_agents.World.Rows.{Gate, approved, record_target, sobject_target}
use loop_revops_agents.Governance.Gates.{
  Entry, gate_entry, write_audit, require_approved_gate, is_approved,
}
use loop_revops_agents.Governance.Lawful.{gate_at}
use loop_revops_agents.Salesforce.{sf, create_record, update_record, merge_records, merge_entry}

-- An approved gate of an action type, under a key that is given.
abbrev pub Permits : World → Option ℕ → String → Type 0
Permits w none action = ⊥
Permits w (some k) action =
    (g : Gate) × (gate_at k w ≡ some g) × (g.status ≡ approved) × (g.action_type ≡ action)

abbrev pub Refused : World → Option ℕ → String → Type 0
Refused w gate_id action =
    (why : Refusal) × (require_approved_gate gate_id action w ≡ (err (approval_required why), w))

-- `require_approved_gate` refuses with `ApprovalRequired` and changes nothing, or the gate permits.
pub require_cases :
    (gate_id : Option ℕ) (action : String) (w : World)
    → Refused w gate_id action
      ⊎ (Permits w gate_id action
          × ((g : Gate) × (require_approved_gate gate_id action w ≡ (ok g, w))))
unfolding require_approved_gate
require_cases none action w = inl (no_gate_id, refl)
require_cases (some k) action w = elim (Option-cases (gate_at k w)) [
  | inl absent ↦ inl (unknown_gate, rw absent)
  | inr (g, found) ↦ elim (Bool-cases (is_approved g.status)) [
    | inr open_still ↦ inl (wrong_status, rw (found, open_still))
    | inl done ↦ elim (Bool-cases (str_eq g.action_type action)) [
      | inr other ↦ inl (wrong_action, rw (found, done, other))
      | inl same ↦ inr (
        (g, found, ground arith, (eq_iff g.action_type action).0 same),
        (g, rw (found, done, same)),
      )
    ]
  ]
]

-- The call, the audit row and the result, which the three writes share.
calls-sf :
    (env : Env) (call : SfCall) (entry : Fields → Entry) (w : World)
    → ((sf env call >>= λ result. write_audit (entry result) >> pure result) w).1.calls
      ≡ w.calls ++ call ∷ []
unfolding sf write_audit
calls-sf env call entry w = elim (Option-cases (env.org w.calls call)) [
  | inl down ↦ rw down
  | inr (d, up) ↦ rw up
]

-- The calls that `update_record` makes: none, unless an approved gate for a single record permits
-- it, and then the one update that it was asked for. Every other outcome is `ApprovalRequired`
-- with the world as it was.
pub update_record_gated :
    (env : Env) (sobject : String) (key : Json) (fields : Fields) (agent : String)
    (gate_id : Option ℕ) (w : World)
    → ((why : Refusal) × (update_record env sobject key fields agent gate_id w
          ≡ (err (approval_required why), w)))
      ⊎ (Permits w gate_id "single_record_update"
          × ((update_record env sobject key fields agent gate_id w).1.calls
              ≡ w.calls ++ update_call sobject key fields ∷ []))
unfolding update_record
update_record_gated env sobject key fields agent gate_id w =
    elim (require_cases gate_id "single_record_update" w) [
      | inl (why, e) ↦ inl (why, rw e)
      | inr (permit, (g, e)) ↦ inr (
        permit,
        rw e (
            calls-sf env (update_call sobject key fields)
              (λ _.
                gate_entry agent "sf_update" (record_target sobject key) none (some fields) gate_id)
              w),
      )
    ]

-- The same of `create_record`.
pub create_record_gated :
    (env : Env) (sobject : String) (fields : Fields) (agent : String) (gate_id : Option ℕ)
    (w : World)
    → ((why : Refusal) × (create_record env sobject fields agent gate_id w
          ≡ (err (approval_required why), w)))
      ⊎ (Permits w gate_id "single_record_update"
          × ((create_record env sobject fields agent gate_id w).1.calls
              ≡ w.calls ++ create_call sobject fields ∷ []))
unfolding create_record
create_record_gated env sobject fields agent gate_id w =
    elim (require_cases gate_id "single_record_update" w) [
      | inl (why, e) ↦ inl (why, rw e)
      | inr (permit, (g, e)) ↦ inr (
        permit,
        rw e (
            calls-sf env (create_call sobject fields)
              (λ _.
                gate_entry agent "sf_create" (sobject_target sobject) none (some fields) gate_id)
              w),
      )
    ]

-- The action type that a merge needs.
abbrev pub merge_action : String → String
merge_action sobject = if str_eq sobject "Account" then "account_merge" else "contact_merge"

-- A merge either makes no call and changes nothing, or merges one or two duplicates under an
-- approved gate for merges of that kind of object.
pub merge_records_gated :
    (env : Env) (sobject master : String) (dups : List String) (agent : String) (gate_id : Option ℕ)
    (w : World)
    → ((e : Error) × (merge_records env sobject master dups agent gate_id w ≡ (err e, w)))
      ⊎ (Permits w gate_id (merge_action sobject)
          × ((1 ≤ length dups) × (length dups ≤ 2))
          × ((merge_records env sobject master dups agent gate_id w).1.calls
              ≡ w.calls ++ merge_call sobject master dups ∷ []))
unfolding merge_records
merge_records_gated env sobject master dups agent none w = inl (approval_required no_gate_id, refl)
merge_records_gated env sobject master [] agent (some k) w = inl (bad_value, refl)
merge_records_gated env sobject master (d ∷ ds) agent (some k) w =
    elim (Bool-cases (ltb 2 (length (d ∷ ds)))) [
      | inl many ↦ inl (bad_value, rw many)
      | inr few ↦ elim (require_cases (some k) (merge_action sobject) w) [
        | inl (why, e) ↦ inl (approval_required why, rw (few, e))
        | inr (permit, (g, e)) ↦ inr (
          permit,
          (omega arith, ground arith),
          rw (few, e)
              (calls-sf env (merge_call sobject master (d ∷ ds))
                (merge_entry sobject master (d ∷ ds) agent (some k)) w),
        )
      ]
    ]
