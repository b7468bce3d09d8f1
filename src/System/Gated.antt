-- ===== src/System/Gated.antt =====
-- The gate behind an onboarding that the closed-won poller creates.
use loop_revops_agents.Base.{ℕ, ◌≡◌, ◌≢◌, refl, sym, subst, true, none, some, [], ◌∷◌, ◌++◌}
use loop_revops_agents.Base.Table.{next_id, find_id-next_id}
use loop_revops_agents.World.{
  World, Env, Result, ok, err, create_call, pure, salesforce_error, ◌>>◌,
}
use loop_revops_agents.World.Values.{Json, Fields, find_field}
use loop_revops_agents.World.Rows.{Gate, approved, pending}
use loop_revops_agents.Governance.Lawful.{gate_at}
use loop_revops_agents.Governance.Votes.{require_iff}
use loop_revops_agents.Onboarding.Creator.{build_fields, create_from_opp}
use loop_revops_agents.Onboarding.ClosedWon.{
  Soql, Outcome, onboarding_of, onboarding_already_exists, self_request, created, process,
}
use loop_revops_agents.Onboarding.Created.{
  self_gated, self_approved, self_gated_lem, create_self_approved_gate_lem, process_lem,
}
use loop_revops_agents.System.{Reach, here}
use loop_revops_agents.System.Handlers.{Runs-bind}
use loop_revops_agents.System.Won.{create_from_opp-Runs}
use loop_revops_agents.System.Settled.{settled-Stays}

approved_ne_pending : approved ≢ pending
approved_ne_pending h = absurd (cc)

-- What the poller does from the world on in which its gate is approved.
process_after :
    (env : Env) (soql : Soql) (now : ℕ) (opp : Fields) (opp_id : Json) (w : World)
    → find_field "Id" opp ≡ some opp_id
    → soql w.calls (onboarding_of opp_id) ≡ some []
    → process env soql now opp w
      ≡ (create_from_opp env now opp (next_id (λ (g : Gate). g.id) w.gates) >> pure created)
          (self_gated now opp opp_id w)
unfolding process onboarding_already_exists
process_after env soql now opp opp_id w named absent =
    let gated = create_self_approved_gate_lem now opp opp_id w named in rw (named, absent, gated)

process_reaches :
    (env : Env) (soql : Soql) (now : ℕ) (opp : Fields) (opp_id : Json) (w : World)
    → find_field "Id" opp ≡ some opp_id
    → soql w.calls (onboarding_of opp_id) ≡ some []
    → Reach env (self_gated now opp opp_id w) (process env soql now opp w).1
process_reaches env soql now opp opp_id w named absent =
    let k = next_id (λ (g : Gate). g.id) w.gates in
    subst (λ (x : Result Outcome × World). Reach env (self_gated now opp opp_id w) x.1)
      (sym (process_after env soql now opp opp_id w named absent))
      (Runs-bind {B = Outcome} env (create_from_opp env now opp k) (λ _. pure created)
        (create_from_opp-Runs env now opp k) (λ _ x. here) (self_gated now opp opp_id w))

pub process_gated :
    (env : Env) (soql : Soql) (now : ℕ) (opp fields : Fields) (opp_id : Json) (w : World)
    → find_field "Id" opp ≡ some opp_id
    → soql w.calls (onboarding_of opp_id) ≡ some []
    → ((v : World) → build_fields opp v ≡ (ok fields, v))
    → let call = create_call "Onboarding__c" fields in
      let k = next_id (λ (g : Gate). g.id) w.gates in
      let (r, v) = process env soql now opp w in
      (v.calls ≡ w.calls ++ call ∷ [])
      × (r ≡ elim (env.org w.calls call) [ none ↦ err salesforce_error | some _ ↦ ok created ])
      × (gate_at k w ≡ none)
      × ((g : Gate) × (gate_at k v ≡ some g)
          × (g.status ≡ approved)
          × (g.action_type ≡ "single_record_update")
          × (g.payload ≡ (self_request opp opp_id).payload)
          × (g.approvals
              ≡ record { approver = "system:onboarding"; approved = true; decided_at = now } ∷ []))
process_gated env soql now opp fields opp_id w named absent built =
    let k = next_id (λ (g : Gate). g.id) w.gates in
    let (made, answered) = process_lem env soql now opp fields opp_id w named absent built in
    let g = self_approved now opp opp_id k in
    let x = self_gated now opp opp_id w in
    let (found, _, _) =
      (require_iff k "single_record_update" x g).0 (self_gated_lem now opp opp_id w).1 in
    let (p, there) =
      settled-Stays env k g approved_ne_pending found
        (process_reaches env soql now opp opp_id w named absent) in
    (
      made,
      answered,
      find_id-next_id (λ (y : Gate). y.id) w.gates,
      (record g { parent_gate_id = p }, there, refl, refl, refl, refl),
    )
