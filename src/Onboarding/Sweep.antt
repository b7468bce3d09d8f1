-- ===== src/Onboarding/Sweep.antt =====
-- What the sweep and the reassignment of onboardings come to.
use loop_revops_agents.Base.{
  ℕ, ◌+◌, ◌≡◌, refl, sym, ◌∙◌, String, some, List, [], ◌∷◌, arith, length-snoc, str_ne, length,
  Bool-cases, Option-cases, inl, inr,
}
use loop_revops_agents.World.{World, Error, Env, ok, err, >>=-eq-ok, approval_required, bad_value}
use loop_revops_agents.World.Values.{Fields, text, field, end, find_field, get, truthy}
use loop_revops_agents.Governance.Votes.{require_iff}
use loop_revops_agents.Salesforce.Gated.{require_cases}
use loop_revops_agents.Cs.Refused.{update_refused}
use loop_revops_agents.Governance.Tiers.{tier_of}
use loop_revops_agents.Governance.Gates.{create_approval_gate}
use loop_revops_agents.Dispatcher.{send}
use loop_revops_agents.Onboarding.{apply_reassignment, sweep, sweep_row}

-- An approved reassignment is never carried out: `update_record` asks for a gate of another action
-- type, so the call raises and changes nothing.
pub reassignment_refused :
    (env : Env) (k : ℕ) (owner approver : String) (w : World)
    → (e : Error) × (apply_reassignment env k owner approver w ≡ (err e, w))
unfolding apply_reassignment
reassignment_refused env k owner approver w = elim (require_cases (some k) "csm_reassignment" w) [
  | inl (why, e) ↦ (approval_required why, rw e)
  | inr (_, (g, e)) ↦
      let (found, _, action) = (require_iff k "csm_reassignment" w g).0 e in
      elim (Bool-cases (truthy (get "onboarding_id" g.payload))) [
        | inr missing ↦ (bad_value, rw (e, missing))
        | inl given ↦
            let (why, refused) =
              update_refused env "Onboarding__c" (get "onboarding_id" g.payload)
                (field "OwnerId" (text owner) end) "onboarding" k w g found
                (λ x. str_ne "csm_reassignment" "single_record_update" refl (sym action ∙ x)) in
            (approval_required why, rw (e, given, refused))
      ]
]

sweep_row-lengths :
    (env : Env) (now : ℕ) (row : Fields) (w v : World)
    → sweep_row env now row w ≡ (ok tt, v)
    → (length v.gates ≡ length w.gates + 1) × (length v.sent ≡ length w.sent + 1)
unfolding sweep_row create_approval_gate send tier_of
sweep_row-lengths env now row w v h = elim (Option-cases (find_field "Id" row)) [
  | inl missing ↦ absurd (cc (missing, h))
  | inr (k, given) ↦ grind (arith, length-snoc, given)
]

pub sweep-lengths :
    (env : Env) (now : ℕ) (rows : List Fields) (w v : World) (n : ℕ)
    → sweep env now rows w ≡ (ok n, v)
    → (n ≡ length rows)
      × (length v.gates ≡ length w.gates + length rows)
      × (length v.sent ≡ length w.sent + length rows)
unfolding sweep
sweep-lengths env now [] w v n h = ground arith
sweep-lengths env now (row ∷ rows) w v n h =
    let (_, x, first, rest) = >>=-eq-ok (sweep_row env now row) _ w h in
    let (m, y, later, last) = >>=-eq-ok (sweep env now rows) _ x rest in
    let one = sweep_row-lengths env now row w x first in
    let more = sweep-lengths env now rows x y m later in ground (arith, one, more, last)
