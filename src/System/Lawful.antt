-- ===== src/System/Lawful.antt =====
-- In every world that the system reaches all gates are lawful, and what follows.
use mathlib.Core.Option
use loop_revops_agents.Base.{
  ℕ, ◌≡◌, ◌≢◌, refl, sym, ap, subst, ◌∙◌, String, true, false, Option, none, some, List, [], ◌∷◌,
  arith, ltb, length, Bool-cases, Option-cases, ℕ_discrete, inl, inr,
}
use loop_revops_agents.Base.Table.{find_id, find_id-update_self, find_id-update_ne}
use loop_revops_agents.World.{
  World, SfCall, create_call, update_call, merge_call, deploy_call, retrieve_call, delete_call, Env,
  ok, pure, ◌>>=◌, ◌>>◌,
}
use loop_revops_agents.World.Keeps.{Keeps}
use loop_revops_agents.World.Values.{Json, Fields}
use loop_revops_agents.World.Rows.{Gate, approved, record_target, sobject_target}
use loop_revops_agents.Governance.Tiers.{tier_of, is_auto_approve}
use loop_revops_agents.Governance.Gates.{
  Entry, gate_entry, write_audit, auto_approve_gate, require_approved_gate, any_reject, has_yes,
}
use loop_revops_agents.Governance.Limits.{check_rate_limit, count_call}
use loop_revops_agents.Governance.Lawful.{gate_at, IsLawful, AllLawful}
use loop_revops_agents.Governance.Reachable.{map-some, decide-AllLawful, create-AllLawful}
use loop_revops_agents.Governance.Votes.{dual_approved, delete_never_required}
use loop_revops_agents.Salesforce.{sf, create_record, update_record, merge_records, merge_entry}
use loop_revops_agents.Salesforce.Gated.{require_cases, merge_action}
use loop_revops_agents.Dispatcher.{send}
use loop_revops_agents.Dispatcher.Buttons.{handle_gate_decision-AllLawful}
use loop_revops_agents.Cooldown.{set_parent, with_parent}
use loop_revops_agents.Enroller.{record_enrollment}
use loop_revops_agents.Bulk.{Ports, http_patch}
use loop_revops_agents.System.{
  Step, opened, voted, auto_approved, pressed, linked, audited, limited, created, updated, merged,
  patched, sent, recorded, deployed, retrieved, deleted, filed, ran, tasked, Reach, here, next,
  initial,
}

-- Where the table of gates stays as it is, so does its lawfulness.
same-AllLawful : (w v : World) → v.gates ≡ w.gates → AllLawful w → AllLawful v
same-AllLawful w v same all k g h =
    all k g (ap (λ (gs : List Gate). find_id (λ x. x.id) k gs) (sym same) ∙ h)

auto_approve-AllLawful :
    (now k : ℕ) (approver : String) (w : World)
    → AllLawful w
    → AllLawful (auto_approve_gate now k approver w).1
unfolding auto_approve_gate
auto_approve-AllLawful now k approver w all = elim (Option-cases (gate_at k w)) [
  | inl absent ↦ rw absent all
  | inr (g, found) ↦ elim (Bool-cases (is_auto_approve (tier_of g.action_type))) [
    | inl auto ↦ rw (found, auto) (decide-AllLawful now k true approver w all)
    | inr other ↦ rw (found, other) all
  ]
]

with_parent-AllLawful :
    (child parent : ℕ) (w : World) → AllLawful w → AllLawful (set_parent child parent w).1
unfolding set_parent
with_parent-AllLawful child parent w all j g h = elim (ℕ_discrete j child) [
  | yes same ↦
      let at : Option.map (with_parent parent) (gate_at child w) ≡ some g =
        sym (find_id-update_self (λ x. x.id) child (with_parent parent) w.gates (λ x. refl))
        ∙ ap (λ (n : ℕ). gate_at n (set_parent child parent w).1) (sym same)
        ∙ h in
      let (x, found, changed) = map-some (with_parent parent) (gate_at child w) g at in
      subst IsLawful changed (all child x found)
  | no other ↦ all j g (
      sym (find_id-update_ne (λ x. x.id) j child (with_parent parent) w.gates (λ x. refl) other)
      ∙ h)
]

gates-sf :
    (env : Env) (call : SfCall) (entry : Fields → Entry) (w : World)
    → ((sf env call >>= λ result. write_audit (entry result) >> pure result) w).1.gates ≡ w.gates
unfolding sf write_audit
gates-sf env call entry w = elim (Option-cases (env.org w.calls call)) [
  | inl down ↦ rw down
  | inr (d, up) ↦ rw up
]

pub gates-create_record :
    (env : Env) (sobject : String) (d : Fields) (agent : String) (gate_id : Option ℕ) (w : World)
    → (create_record env sobject d agent gate_id w).1.gates ≡ w.gates
unfolding create_record
gates-create_record env sobject d agent gate_id w =
    elim (require_cases gate_id "single_record_update" w) [
      | inl (why, e) ↦ rw e
      | inr (_, (g, e)) ↦ rw e (
          gates-sf env (create_call sobject d)
            (λ _. gate_entry agent "sf_create" (sobject_target sobject) none (some d) gate_id) w)
    ]

pub gates-update_record :
    (env : Env) (sobject : String) (k : Json) (d : Fields) (agent : String) (gate_id : Option ℕ)
    (w : World)
    → (update_record env sobject k d agent gate_id w).1.gates ≡ w.gates
unfolding update_record
gates-update_record env sobject k d agent gate_id w =
    elim (require_cases gate_id "single_record_update" w) [
      | inl (why, e) ↦ rw e
      | inr (_, (g, e)) ↦ rw e (
          gates-sf env (update_call sobject k d)
            (λ _. gate_entry agent "sf_update" (record_target sobject k) none (some d) gate_id) w)
    ]

pub gates-merge_records :
    (env : Env) (sobject master : String) (dups : List String) (agent : String) (gate_id : Option ℕ)
    (w : World)
    → (merge_records env sobject master dups agent gate_id w).1.gates ≡ w.gates
unfolding merge_records
gates-merge_records env sobject master dups agent none w = refl
gates-merge_records env sobject master [] agent (some k) w = refl
gates-merge_records env sobject master (d ∷ ds) agent (some k) w =
    elim (Bool-cases (ltb 2 (length (d ∷ ds)))) [
      | inl many ↦ rw many
      | inr few ↦ elim (require_cases (some k) (merge_action sobject) w) [
        | inl (why, e) ↦ rw (few, e)
        | inr (_, (g, e)) ↦
            rw (few, e)
              (gates-sf env (merge_call sobject master (d ∷ ds))
                (merge_entry sobject master (d ∷ ds) agent (some k)) w)
      ]
    ]

pub gates-http_patch :
    (p : Ports) (token : String) (call : SfCall) (w : World)
    → (http_patch p token call w).1.gates ≡ w.gates
unfolding http_patch
gates-http_patch p token call w = elim (Option-cases (p.http_patch token w.calls call)) [
  | inl down ↦ rw down
  | inr (_, up) ↦ rw up
]

pub gates-send :
    (env : Env) (c : Json) (k : Option ℕ) (w : World) → (send env c k w).1.gates ≡ w.gates
unfolding send
gates-send env c k w = ground arith

pub gates-check_rate_limit :
    (now : ℕ) (bucket : String) (seconds : ℕ) (mode : Option String) (w : World)
    → (check_rate_limit now bucket seconds mode w).1.gates ≡ w.gates
unfolding check_rate_limit count_call
gates-check_rate_limit now bucket seconds mode w = ground arith

-- Every step keeps all gates lawful.
pub gates-command : (env : Env) (call : SfCall) → Keeps (λ w. w.gates) (sf env call)
unfolding sf
gates-command env call w = elim (Option-cases (env.org w.calls call)) [
  | inl down ↦ rw down refl
  | inr (d, up) ↦ rw up refl
]

Step-AllLawful : (env : Env) {w v : World} → Step env w v → AllLawful w → AllLawful v
unfolding write_audit record_enrollment
Step-AllLawful env (opened now r w) all = create-AllLawful now r w all
Step-AllLawful env (voted now k y a w) all = decide-AllLawful now k y a w all
Step-AllLawful env (auto_approved now k a w) all = auto_approve-AllLawful now k a w all
Step-AllLawful env (pressed now k y a w) all = handle_gate_decision-AllLawful now k y a w all
Step-AllLawful env (linked child parent w) all = with_parent-AllLawful child parent w all
Step-AllLawful env (audited e w) all = all
Step-AllLawful env (limited now b s m w) all =
    same-AllLawful w (check_rate_limit now b s m w).1 (gates-check_rate_limit now b s m w) all
Step-AllLawful env (created s d a k w) all =
    same-AllLawful w (create_record env s d a k w).1 (gates-create_record env s d a k w) all
Step-AllLawful env (updated s j d a k w) all =
    same-AllLawful w (update_record env s j d a k w).1 (gates-update_record env s j d a k w) all
Step-AllLawful env (merged s m ds a k w) all =
    same-AllLawful w (merge_records env s m ds a k w).1 (gates-merge_records env s m ds a k w) all
Step-AllLawful env (patched p t c w) all =
    same-AllLawful w (http_patch p t c w).1 (gates-http_patch p t c w) all
Step-AllLawful env (sent c k w) all = same-AllLawful w (send env c k w).1 (gates-send env c k w) all
Step-AllLawful env (recorded b now l j s w) all = all
Step-AllLawful env (deployed alias args w) all =
    let call = deploy_call alias args in
    same-AllLawful w (sf env call w).1 (gates-command env call w) all
Step-AllLawful env (retrieved alias args w) all =
    let call = retrieve_call alias args in
    same-AllLawful w (sf env call w).1 (gates-command env call w) all
Step-AllLawful env (deleted sobject k w) all =
    let call = delete_call sobject k in
    same-AllLawful w (sf env call w).1 (gates-command env call w) all
Step-AllLawful env (filed bundles w) all = all
Step-AllLawful env (ran runs w) all = all
Step-AllLawful env (tasked tasks w) all = all

-- In every world that is reached from a lawful one, through any steps, all gates are lawful.
pub Reach-AllLawful : (env : Env) {w v : World} → Reach env w v → AllLawful w → AllLawful v
Reach-AllLawful env here all = all
Reach-AllLawful env (next before step) all =
    Step-AllLawful env step (Reach-AllLawful env before all)

initial-AllLawful : AllLawful initial
unfolding find_id
initial-AllLawful k g h = absurd (cc)

-- From the empty tables no sequence of steps leads to a world in which a deletion of schema is let
-- through, and in every world reached an approved gate of a dual tier has two people behind it and
-- nobody against it.
pub system_safe :
    (env : Env) (v : World)
    → Reach env initial v
    → ((k : ℕ) (g : Gate) → require_approved_gate (some k) "sf_schema_delete" v ≢ (ok g, v))
      × ((k : ℕ) (g : Gate)
          → gate_at k v ≡ some g
          → g.action_type ≡ "mark_churned"
          → g.status ≡ approved
          → (any_reject g.approvals ≡ false)
            × ((a b : String) × (a ≢ b)
                × (has_yes a g.approvals ≡ true)
                × (has_yes b g.approvals ≡ true)))
unfolding tier_of
system_safe env v reached =
    let all = Reach-AllLawful env reached initial-AllLawful in
    (
      λ k g. delete_never_required k v g all,
      λ k g found action done. dual_approved g (all k g found) (rw action refl) done,
    )
