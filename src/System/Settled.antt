-- ===== src/System/Settled.antt =====
-- A gate that was decided stays decided, through every step of the system.
use mathlib.Core.Option
use loop_revops_agents.Base.{
  ℕ, ◌≡◌, ◌≢◌, refl, sym, ap, ◌∙◌, String, Bool, true, Option, some, ◌&&◌, List, Bool-cases,
  Option-cases, ℕ_discrete, inl, inr,
}
use loop_revops_agents.Base.Table.{find_id, find_id-update_self, find_id-update_ne}
use loop_revops_agents.World.{World, Env, deploy_call, retrieve_call, delete_call, Result, ok}
use loop_revops_agents.World.Rows.{Gate, pending}
use loop_revops_agents.Governance.Tiers.{tier_of, is_auto_approve, demands_justification}
use loop_revops_agents.Governance.Gates.{
  Request, write_audit, create_approval_gate, decide_approval_gate, auto_approve_gate, is_blank,
}
use loop_revops_agents.Governance.Limits.{check_rate_limit}
use loop_revops_agents.Salesforce.{sf, create_record, update_record, merge_records}
use loop_revops_agents.Bulk.{http_patch}
use loop_revops_agents.Governance.Lawful.{gate_at}
use loop_revops_agents.Governance.Decide.{gate-insert_old, gate-decide_ne}
use loop_revops_agents.Governance.Votes.{decide_settled}
use loop_revops_agents.Dispatcher.{send, handle_gate_decision, cooling_parent, parent_of}
use loop_revops_agents.Cooldown.{set_parent, with_parent}
use loop_revops_agents.Enroller.{record_enrollment}
use loop_revops_agents.System.{
  Step, opened, voted, auto_approved, pressed, linked, audited, limited, created, updated, merged,
  patched, sent, recorded, deployed, retrieved, deleted, filed, ran, tasked, Reach, here, next,
}
use loop_revops_agents.System.Lawful.{
  gates-command, gates-create_record, gates-update_record, gates-merge_records, gates-http_patch,
  gates-send, gates-check_rate_limit,
}

-- The gate of a key is there, and is as it was but for its link to another gate.
abbrev pub Stays : ℕ → Gate → World → Type 0
Stays k g w = (parent : Option ℕ) × (gate_at k w ≡ some (record g { parent_gate_id = parent }))

same-Stays : (k : ℕ) (g : Gate) (w v : World) → v.gates ≡ w.gates → Stays k g w → Stays k g v
same-Stays k g w v same (p, h) = (p, ap (λ (gs : List Gate). find_id (λ x. x.id) k gs) same ∙ h)

opened-Stays :
    (k : ℕ) (g : Gate) (now : ℕ) (r : Request) (w : World)
    → Stays k g w
    → Stays k g (create_approval_gate now r w).1
unfolding create_approval_gate
opened-Stays k g now r w (p, h) =
    elim (Bool-cases (demands_justification (tier_of r.action_type) && is_blank r.justification)) [
      | inl refused ↦ rw refused (p, h)
      | inr taken ↦ rw taken (p, gate-insert_old now k r w (record g { parent_gate_id = p }) h)
    ]

voted-Stays :
    (k : ℕ) (g : Gate) (now j : ℕ) (yes_vote : Bool) (approver : String) (w : World)
    → g.status ≢ pending
    → Stays k g w
    → Stays k g (decide_approval_gate now j yes_vote approver w).1
voted-Stays k g now j yes_vote approver w settled (p, h) = elim (ℕ_discrete k j) [
  | yes same ↦
      let row = record g { parent_gate_id = p } in
      let found : gate_at j w ≡ some row = ap (λ (n : ℕ). gate_at n w) (sym same) ∙ h in
      let still : decide_approval_gate now j yes_vote approver w ≡ (ok tt, w) =
        decide_settled now j yes_vote approver w row found settled in
      same-Stays k g w (decide_approval_gate now j yes_vote approver w).1
        (ap (λ (x : Result (Unit {0}) × World). x.1.gates) still) (p, h)
  | no other ↦ (p, gate-decide_ne now j k yes_vote approver w other ∙ h)
]

auto_approved-Stays :
    (k : ℕ) (g : Gate) (now j : ℕ) (approver : String) (w : World)
    → g.status ≢ pending
    → Stays k g w
    → Stays k g (auto_approve_gate now j approver w).1
unfolding auto_approve_gate
auto_approved-Stays k g now j approver w settled stays = elim (Option-cases (gate_at j w)) [
  | inl absent ↦ rw absent stays
  | inr (x, found) ↦ elim (Bool-cases (is_auto_approve (tier_of x.action_type))) [
    | inl auto ↦ rw (found, auto) (voted-Stays k g now j true approver w settled stays)
    | inr other ↦ rw (found, other) stays
  ]
]

pressed-Stays :
    (k : ℕ) (g : Gate) (now j : ℕ) (yes_vote : Bool) (approver : String) (w : World)
    → g.status ≢ pending
    → Stays k g w
    → Stays k g (handle_gate_decision now j yes_vote approver w).1
unfolding handle_gate_decision
pressed-Stays k g now j yes_vote approver w settled stays =
    elim (Bool-cases (yes_vote && cooling_parent now (parent_of (gate_at j w)) w)) [
      | inl waits ↦ rw waits stays
      | inr goes ↦ rw goes (voted-Stays k g now j yes_vote approver w settled stays)
    ]

linked-Stays :
    (k : ℕ) (g : Gate) (child parent : ℕ) (w : World)
    → Stays k g w
    → Stays k g (set_parent child parent w).1
unfolding set_parent
linked-Stays k g child parent w (p, h) = elim (ℕ_discrete k child) [
  | yes same ↦ (
    some parent,
    ap (λ (n : ℕ). gate_at n (set_parent child parent w).1) same
        ∙ find_id-update_self (λ x. x.id) child (with_parent parent) w.gates (λ x. refl)
        ∙ ap (λ (n : ℕ). Option.map (with_parent parent) (gate_at n w)) (sym same)
        ∙ ap (Option.map (with_parent parent)) h,
  )
  | no other ↦
      (p, find_id-update_ne (λ x. x.id) k child (with_parent parent) w.gates (λ x. refl) other ∙ h)
]

Step-Stays :
    (env : Env) (k : ℕ) (g : Gate) {w v : World}
    → g.status ≢ pending
    → Step env w v
    → Stays k g w
    → Stays k g v
unfolding write_audit record_enrollment
Step-Stays env k g done (opened now r w) h = opened-Stays k g now r w h
Step-Stays env k g done (voted now j y a w) h = voted-Stays k g now j y a w done h
Step-Stays env k g done (auto_approved now j a w) h = auto_approved-Stays k g now j a w done h
Step-Stays env k g done (pressed now j y a w) h = pressed-Stays k g now j y a w done h
Step-Stays env k g done (linked child parent w) h = linked-Stays k g child parent w h
Step-Stays env k g done (audited e w) h = h
Step-Stays env k g done (limited now b s m w) h =
    same-Stays k g w (check_rate_limit now b s m w).1 (gates-check_rate_limit now b s m w) h
Step-Stays env k g done (created s d a j w) h =
    same-Stays k g w (create_record env s d a j w).1 (gates-create_record env s d a j w) h
Step-Stays env k g done (updated s i d a j w) h =
    same-Stays k g w (update_record env s i d a j w).1 (gates-update_record env s i d a j w) h
Step-Stays env k g done (merged s m ds a j w) h =
    same-Stays k g w (merge_records env s m ds a j w).1 (gates-merge_records env s m ds a j w) h
Step-Stays env k g done (patched p t c w) h =
    same-Stays k g w (http_patch p t c w).1 (gates-http_patch p t c w) h
Step-Stays env k g done (sent c j w) h =
    same-Stays k g w (send env c j w).1 (gates-send env c j w) h
Step-Stays env k g done (recorded b now l j s w) h = h
Step-Stays env k g done (deployed alias args w) h =
    let call = deploy_call alias args in
    same-Stays k g w (sf env call w).1 (gates-command env call w) h
Step-Stays env k g done (retrieved alias args w) h =
    let call = retrieve_call alias args in
    same-Stays k g w (sf env call w).1 (gates-command env call w) h
Step-Stays env k g done (deleted sobject j w) h =
    let call = delete_call sobject j in
    same-Stays k g w (sf env call w).1 (gates-command env call w) h
Step-Stays env k g done (filed bundles w) h = h
Step-Stays env k g done (ran runs w) h = h
Step-Stays env k g done (tasked tasks w) h = h

-- Once a gate is no longer pending, no sequence of steps of the system changes or removes its row,
-- but for its link to another gate: its status, votes, cooldown and payload stay as they were decided.
pub settled-Stays :
    (env : Env) (k : ℕ) (g : Gate) {w v : World}
    → g.status ≢ pending
    → gate_at k w ≡ some g
    → Reach env w v
    → Stays k g v
settled-Stays env k g done found here = (g.parent_gate_id, found)
settled-Stays env k g done found (next before step) =
    Step-Stays env k g done step (settled-Stays env k g done found before)
