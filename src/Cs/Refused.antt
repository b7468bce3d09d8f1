-- ===== src/Cs/Refused.antt =====
-- The default Salesforce module asks for a gate of the action type `single_record_update`, under the
-- key of the gate that the flow has already asked for under another.
use loop_revops_agents.Base.{
  ℕ, ◌≡◌, ◌≢◌, refl, sym, ap, ◌∙◌, String, some, str_ne, Option-cases, inl, inr,
}
use loop_revops_agents.World.{
  World, Error, Refusal, Env, err, bind_step, approval_required, missing_key,
}
use loop_revops_agents.World.Values.{Json, Fields, text, field, end, find_field}
use loop_revops_agents.World.Rows.{Gate}
use loop_revops_agents.Governance.Lawful.{gate_at}
use loop_revops_agents.Governance.Votes.{require_iff}
use loop_revops_agents.Salesforce.{update_record}
use loop_revops_agents.Salesforce.Gated.{require_cases, update_record_gated}
use loop_revops_agents.Cs.{finalize_mark_churned, finalize_csm_reassignment}
use loop_revops_agents.Cs.Churned.{finalize_mark_churned_lem}

-- Under the key of a gate of another action type `update_record` refuses, and changes nothing.
pub update_refused :
    (env : Env) (sobject : String) (key : Json) (fields : Fields) (agent : String) (k : ℕ)
    (w : World) (g : Gate)
    → gate_at k w ≡ some g
    → g.action_type ≢ "single_record_update"
    → (why : Refusal) × (update_record env sobject key fields agent (some k) w
        ≡ (err (approval_required why), w))
update_refused env sobject key fields agent k w g found other =
    elim (update_record_gated env sobject key fields agent (some k) w) [
      | inl refused ↦ refused
      | inr ((h, there, _, action), _) ↦
          let same : g ≡ h = cc in absurd (other (ap (λ (x : Gate). x.action_type) same ∙ action))
    ]

-- With the default Salesforce module `finalize_mark_churned` raises and changes nothing, whatever
-- was approved: no account is ever marked as churned.
pub churn_never_marked :
    (env : Env) (k : ℕ) (approver : String) (w : World)
    → (e : Error) × (finalize_mark_churned (update_record env) k approver w ≡ (err e, w))
churn_never_marked env k approver w =
    elim (finalize_mark_churned_lem (update_record env) k approver w) [
      | inl raised ↦ raised
      | inr (c, a, agreed, run) ↦
          let (why, refused) =
            update_refused env "Account" c.account_id (field "Churn_Status__c" (text "Churned") end)
              "cs" k w c.confirm agreed.confirm_found
              (λ e.
                str_ne "mark_churned_confirm" "single_record_update" refl
                  (sym agreed.confirm_action ∙ e)) in
          (
            approval_required why,
            run ∙ bind_step (update_record env "Account" c.account_id _ "cs" (some k)) _ w refused,
          )
    ]

-- The same of `finalize_csm_reassignment`: no account's owner is ever changed by it.
pub owner_never_changed :
    (env : Env) (k : ℕ) (approver : String) (w : World)
    → (e : Error) × (finalize_csm_reassignment (update_record env) k approver w ≡ (err e, w))
unfolding finalize_csm_reassignment
owner_never_changed env k approver w = elim (require_cases (some k) "csm_reassignment" w) [
  | inl (why, e) ↦ (approval_required why, rw e)
  | inr (_, (g, e)) ↦
      let (found, _, action) = (require_iff k "csm_reassignment" w g).0 e in
      elim (Option-cases (find_field "account_id" g.payload)) [
        | inl missing ↦ (missing_key, rw (e, missing))
        | inr (account, given) ↦ elim (Option-cases (find_field "new_owner_id" g.payload)) [
          | inl missing ↦ (missing_key, rw (e, given, missing))
          | inr (owner, named) ↦
              let (why, refused) =
                update_refused env "Account" account (field "OwnerId" owner end) "cs" k w g found
                  (λ x. str_ne "csm_reassignment" "single_record_update" refl (sym action ∙ x)) in
              (approval_required why, rw (e, given, named, refused))
        ]
      ]
]
