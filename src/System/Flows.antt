-- ===== src/System/Flows.antt =====
-- The flows of Cs and Onboarding as sequences of steps of the system.
use loop_revops_agents.Base.{
  ℕ, sym, subst, String, Bool, true, false, Option, none, some, List, [], ◌∷◌, inl, inr, ◌+◌,
  if◌then◌else◌, Option-cases, Bool-cases, str_eq,
}
use loop_revops_agents.World.{World, Error, Env, pure, or_raise, raise_if, ◌>>=◌, ◌>>◌, bad_value}
use loop_revops_agents.World.Values.{Json, Fields}
use loop_revops_agents.World.Rows.{Gate}
use loop_revops_agents.Governance.Gates.{
  Entry, Request, write_audit, create_approval_gate, require_approved_gate, is_approved,
}
use loop_revops_agents.Governance.Lawful.{gate_at}
use loop_revops_agents.Salesforce.{update_record}
use loop_revops_agents.Salesforce.Gated.{require_cases}
use loop_revops_agents.Dispatcher.{send}
use loop_revops_agents.Cs.{
  check_churned, finalize_mark_churned, item_of, send_if, request_csm_reassignment,
  request_churn_outreach, request_mark_churned, finalize_csm_reassignment, finalize_churn_outreach,
  open_confirm, reuse_or_open, find_confirm, on_mark_churned_primary_approved,
}
use loop_revops_agents.Cs.Churned.{check_churned-unchanged}
use loop_revops_agents.Cooldown.{set_parent}
use loop_revops_agents.Onboarding.{apply_reassignment, sweep, sweep_row}
use loop_revops_agents.System.{Step, opened, audited, updated, sent, linked, Reach, here, next}
use loop_revops_agents.System.Handlers.{Runs, Runs-bind}

pub step-Runs : (env : Env) {u v : World} → Step env u v → Reach env u v
step-Runs env s = next here s

pub or_raise-Runs : {A : Type 0} (env : Env) (o : Option A) (e : Error) → Runs env (or_raise o e)
or_raise-Runs env none e w = here
or_raise-Runs env (some a) e w = here

pub require-Runs :
    (env : Env) (k : Option ℕ) (action : String) → Runs env (require_approved_gate k action)
require-Runs env k action w = elim (require_cases k action w) [
  | inl (why, e) ↦ rw e here
  | inr (_, (g, e)) ↦ rw e here
]

pub create-Runs : (env : Env) (now : ℕ) (r : Request) → Runs env (create_approval_gate now r)
create-Runs env now r w = step-Runs env (opened now r w)

pub send-Runs : (env : Env) (c : Json) (k : Option ℕ) → Runs env (send env c k)
send-Runs env c k w = step-Runs env (sent c k w)

pub send_if-Runs :
    (env : Env) (given : Bool) (c : Json) (k : Option ℕ) → Runs env (send_if env given c k)
send_if-Runs env true c k w = send-Runs env c k w
send_if-Runs env false c k w = here

pub audit-Runs : (env : Env) (e : Entry) → Runs env (write_audit e)
audit-Runs env e w = step-Runs env (audited e w)

pub update-Runs :
    (env : Env) (s : String) (j : Json) (d : Fields) (agent : String) (k : Option ℕ)
    → Runs env (update_record env s j d agent k)
update-Runs env s j d agent k w = step-Runs env (updated s j d agent k w)

pub request_csm_reassignment-Runs :
    (env : Env) (now : ℕ) (slack : Bool) (a : String) (old : Option String) (new reason : String)
    → Runs env (request_csm_reassignment env now slack a old new reason)
unfolding request_csm_reassignment
request_csm_reassignment-Runs env now slack a old new reason =
    Runs-bind {B = ℕ} env (create_approval_gate now _) _ (create-Runs env now _) λ k.
      Runs-bind {B = ℕ} env (send_if env slack _ (some k)) _ (send_if-Runs env slack _ (some k))
        λ _ w. here

pub request_churn_outreach-Runs :
    (env : Env) (now : ℕ) (slack : Bool) (a csm draft reason : String)
    → Runs env (request_churn_outreach env now slack a csm draft reason)
unfolding request_churn_outreach
request_churn_outreach-Runs env now slack a csm draft reason =
    Runs-bind {B = ℕ} env (create_approval_gate now _) _ (create-Runs env now _) λ k.
      Runs-bind {B = ℕ} env (send_if env slack _ (some k)) _ (send_if-Runs env slack _ (some k))
        λ _ w. here

pub request_mark_churned-Runs :
    (env : Env) (now : ℕ) (slack : Bool) (a why : String)
    → Runs env (request_mark_churned env now slack a why)
unfolding request_mark_churned
request_mark_churned-Runs env now slack a why =
    Runs-bind {B = ℕ} env (create_approval_gate now _) _ (create-Runs env now _) λ k.
      Runs-bind {B = ℕ} env (send_if env slack _ (some k)) _ (send_if-Runs env slack _ (some k))
        λ _ w. here

pub finalize_csm_reassignment-Runs :
    (env : Env) (k : ℕ) (approver : String)
    → Runs env (finalize_csm_reassignment (update_record env) k approver)
unfolding finalize_csm_reassignment
finalize_csm_reassignment-Runs env k approver =
    Runs-bind {B = Fields} env (require_approved_gate (some k) "csm_reassignment") _
      (require-Runs env (some k) "csm_reassignment")
      λ gate.
        Runs-bind {B = Fields} env (item_of "account_id" gate.payload) _ (or_raise-Runs env _ _)
          λ a.
            Runs-bind {B = Fields} env (item_of "new_owner_id" gate.payload) _
              (or_raise-Runs env _ _)
              λ o.
                Runs-bind {B = Fields} env (update_record env "Account" a _ "cs" (some k)) _
                  (update-Runs env "Account" a _ "cs" (some k))
                  λ result.
                    Runs-bind {B = Fields} env (write_audit _) _ (audit-Runs env _) λ _ w. here

pub finalize_churn_outreach-Runs :
    (env : Env) (slack : Bool) (k : ℕ) (approver : String)
    → Runs env (finalize_churn_outreach env slack k approver)
unfolding finalize_churn_outreach
finalize_churn_outreach-Runs env slack k approver =
    Runs-bind {B = Json} env (require_approved_gate (some k) "cs_churn_outreach") _
      (require-Runs env (some k) "cs_churn_outreach")
      λ gate.
        Runs-bind {B = Json} env (item_of "csm_slack_id" gate.payload) _ (or_raise-Runs env _ _)
          λ csm.
            Runs-bind {B = Json} env (item_of "draft" gate.payload) _ (or_raise-Runs env _ _)
              λ draft.
                Runs-bind {B = Json} env
                  (if slack
                    then (item_of "account_id" gate.payload >> send env csm none)
                    else pure tt)
                  _ (post slack gate csm)
                  λ _.
                    Runs-bind {B = Json} env (item_of "account_id" gate.payload) _
                      (or_raise-Runs env _ _)
                      λ a. Runs-bind {B = Json} env (write_audit _) _ (audit-Runs env _) λ _ w. here
  where
    post :
        (b : Bool) (gate : Gate) (csm : Json)
        → Runs env (if b then (item_of "account_id" gate.payload >> send env csm none) else pure tt)
    post true gate csm =
        Runs-bind env (item_of "account_id" gate.payload) (λ _. send env csm none)
          (or_raise-Runs env _ _) λ _. send-Runs env csm none
    post false gate csm = λ w. here

pub finalize_mark_churned-Runs :
    (env : Env) (k : ℕ) (approver : String)
    → Runs env (finalize_mark_churned (update_record env) k approver)
unfolding finalize_mark_churned
finalize_mark_churned-Runs env k approver =
    Runs-bind {B = Fields} env (check_churned k) _
      (λ w. subst (Reach env w) (sym (check_churned-unchanged k w)) here)
      λ c.
        Runs-bind {B = Fields} env (update_record env "Account" c.account_id _ "cs" (some k)) _
          (update-Runs env "Account" c.account_id _ "cs" (some k))
          λ result. Runs-bind {B = Fields} env (write_audit _) _ (audit-Runs env _) λ _ w. here

pub open_confirm-Runs :
    (env : Env) (now : ℕ) (slack : Bool) (primary : ℕ) (gate : Gate)
    → Runs env (open_confirm env now slack primary gate)
open_confirm-Runs env now slack primary gate =
    Runs-bind {B = ℕ} env (item_of "account_id" gate.payload) _ (or_raise-Runs env _ _) λ a.
      Runs-bind {B = ℕ} env (create_approval_gate now _) _ (create-Runs env now _) λ b.
        Runs-bind {B = ℕ} env (set_parent b primary) _ (λ w. step-Runs env (linked b primary w))
          λ _.
            Runs-bind {B = ℕ} env (send_if env slack _ (some b)) _
              (send_if-Runs env slack _ (some b)) λ _ w. here

pub reuse_or_open-Runs :
    (env : Env) (now : ℕ) (slack : Bool) (primary : ℕ) (gate : Gate)
    → Runs env (reuse_or_open env now slack primary gate)
reuse_or_open-Runs env now slack primary gate w =
    elim (Option-cases (find_confirm primary w.gates)) [
      | inl new ↦ rw (new, reuse_or_open) (open_confirm-Runs env now slack primary gate w)
      | inr (b, old) ↦ rw (old, reuse_or_open) here
    ]

pub on_mark_churned_primary_approved-Runs :
    (env : Env) (now : ℕ) (slack : Bool) (primary : ℕ)
    → Runs env (on_mark_churned_primary_approved env now slack primary)
unfolding on_mark_churned_primary_approved
on_mark_churned_primary_approved-Runs env now slack primary w =
    elim (Option-cases (gate_at primary w)) [
      | inl absent ↦ rw absent here
      | inr (g, found) ↦ elim (Bool-cases (str_eq g.action_type "mark_churned_request")) [
        | inr other ↦ rw (found, other) here
        | inl request ↦ elim (Bool-cases (is_approved g.status)) [
          | inr waits ↦ rw (found, request, waits) here
          | inl done ↦ rw (found, request, done) (reuse_or_open-Runs env now slack primary g w)
        ]
      ]
    ]

pub apply_reassignment-Runs :
    (env : Env) (k : ℕ) (owner approver : String)
    → Runs env (apply_reassignment env k owner approver)
unfolding apply_reassignment
apply_reassignment-Runs env k owner approver =
    Runs-bind {B = Fields} env (require_approved_gate (some k) "csm_reassignment") _
      (require-Runs env (some k) "csm_reassignment")
      λ gate.
        Runs-bind {B = Fields} env (raise_if _ bad_value) _ (λ w. here)
          λ _.
            Runs-bind {B = Fields} env (update_record env "Onboarding__c" _ _ "onboarding" (some k))
              _ (λ w. step-Runs env (updated _ _ _ _ _ w))
              λ result.
                Runs-bind {B = Fields} env (write_audit _) _ (λ w. step-Runs env (audited _ w))
                  λ _ w. here

pub sweep_row-Runs : (env : Env) (now : ℕ) (row : Fields) → Runs env (sweep_row env now row)
unfolding sweep_row
sweep_row-Runs env now row =
    Runs-bind {B = Unit} env (item_of "Id" row) _ (or_raise-Runs env _ _) λ j.
      Runs-bind {B = Unit} env (create_approval_gate now _) _ (create-Runs env now _)
        λ k. send-Runs env _ (some k)

pub sweep-Runs : (env : Env) (now : ℕ) (rows : List Fields) → Runs env (sweep env now rows)
unfolding sweep
sweep-Runs env now [] w = here
sweep-Runs env now (row ∷ rows) w =
    Runs-bind {B = ℕ} env (sweep_row env now row) (λ _. sweep env now rows >>= λ n. pure (n + 1))
      (sweep_row-Runs env now row)
      (λ _.
        Runs-bind {B = ℕ} env (sweep env now rows) (λ n. pure (n + 1)) (sweep-Runs env now rows)
          λ n v. here)
      w
