-- ===== src/Onboarding/Created.antt =====
-- What the closed-won poller writes for one opportunity.
use loop_revops_agents.Base.{
  ℕ, ◌≡◌, refl, ap, ◌∙◌, String, Bool, true, false, Option, none, some, List, [], ◌∷◌, ◌++◌, All,
  Bool-cases, Option-cases, inl, inr, if◌then◌else◌, str_eq,
}
use loop_revops_agents.Base.Table.{next_id}
use loop_revops_agents.World.{
  World, Message, SfCall, create_call, Env, Result, ok, err, M, pure, ◌>>=◌, ◌>>◌, salesforce_error,
  missing_key,
}
use loop_revops_agents.World.Values.{
  Json, null, flag, number, text, array, object, Fields, find_field, get, put, truthy, or_else, end,
}
use loop_revops_agents.World.Rows.{Gate}
use loop_revops_agents.World.Keeps.{Keeps, Keeps-bind, or_raise-Keeps, if-Keeps}
use loop_revops_agents.Governance.Tiers.{tier_of}
use loop_revops_agents.Governance.Gates.{
  Request, write_audit, new_gate, insert_gate, create_approval_gate, decide_approval_gate,
  require_approved_gate, is_pending,
}
use loop_revops_agents.Governance.Lawful.{gate_at}
use loop_revops_agents.Governance.Decide.{gate-insert_self}
use loop_revops_agents.Governance.Votes.{one_vote_approves, approved_by_one}
use loop_revops_agents.Salesforce.{sf, create_record}
use loop_revops_agents.Dispatcher.{send, config_with, channel_for}
use loop_revops_agents.Cs.{item_of}
use loop_revops_agents.Onboarding.{handle_created, escalate, unassigned_request, onboarding_channel}
use loop_revops_agents.Onboarding.Creator.{
  required_booleans, forbidden_fields, overlaps, onboarding_fields, name_in, build_fields, attempt,
  notify_cs_team, enforce, create_from_opp, account_name,
}
use loop_revops_agents.Onboarding.ClosedWon.{
  Soql, onboarding_of, onboarding_already_exists, self_request, create_self_approved_gate, created,
  process,
}

-- The dictionary for a new Onboarding__c names no formula field, and sets every required flag to
-- false; so the check of build_fields never fires.
pub onboarding_fields_lem :
    (title : String) (opp_id owner : Json)
    → let fields = onboarding_fields title opp_id owner in
      (overlaps fields forbidden_fields ≡ false)
      × All (λ name. get name fields ≡ flag false) required_booleans
unfolding overlaps get find_field put
onboarding_fields_lem title opp_id owner = elim (Bool-cases (truthy owner)) [
  | inl given ↦ rw given (refl, (refl, (refl, (refl, (refl, (refl, (refl, (refl, tt))))))))
  | inr missing ↦ rw missing (refl, (refl, (refl, (refl, (refl, (refl, (refl, (refl, tt))))))))
]

-- The world after a gate was opened and approved by its own agent.
abbrev pub self_gated : ℕ → Fields → Json → World → World
self_gated now opp opp_id w =
    let k = next_id (λ (g : Gate). g.id) w.gates in
    (decide_approval_gate now k true "system:onboarding"
      (insert_gate now (self_request opp opp_id) w).1).1

decide_returns :
    (now k : ℕ) (yes_vote : Bool) (approver : String) (w : World)
    → ((decide_approval_gate now k yes_vote approver w).0 ≡ ok tt)
      × ((decide_approval_gate now k yes_vote approver w).1.calls ≡ w.calls)
unfolding decide_approval_gate write_audit
decide_returns now k yes_vote approver w = elim (Option-cases (gate_at k w)) [
  | inl gone ↦ rw gone (refl, refl)
  | inr (g, found) ↦ elim (Bool-cases (is_pending g.status)) [
    | inl waiting ↦ rw (found, waiting) (refl, refl)
    | inr settled ↦ rw (found, settled) (refl, refl)
  ]
]

-- The row of that gate.
abbrev pub self_approved : ℕ → Fields → Json → ℕ → Gate
self_approved now opp opp_id k =
    approved_by_one now "system:onboarding" (new_gate now (self_request opp opp_id) k)

-- The gate that the poller opens and approves itself is let through by require_approved_gate.
pub self_gated_lem :
    (now : ℕ) (opp : Fields) (opp_id : Json) (w : World)
    → let k = next_id (λ (g : Gate). g.id) w.gates in
      let v = self_gated now opp opp_id w in
      (v.calls ≡ w.calls)
      × (require_approved_gate (some k) "single_record_update" v
          ≡ (ok (self_approved now opp opp_id k), v))
unfolding tier_of
self_gated_lem now opp opp_id w =
    let k = next_id (λ (g : Gate). g.id) w.gates in
    let r = self_request opp opp_id in
    let w1 = (insert_gate now r w).1 in
    (
      (decide_returns now k true "system:onboarding" w1).1,
      one_vote_approves now k "system:onboarding" w1 (new_gate now r k) (gate-insert_self now r w)
          refl refl refl,
    )

pub create_self_approved_gate_lem :
    (now : ℕ) (opp : Fields) (opp_id : Json) (w : World)
    → find_field "Id" opp ≡ some opp_id
    → create_self_approved_gate now opp w
      ≡ (ok (next_id (λ (g : Gate). g.id) w.gates), self_gated now opp opp_id w)
unfolding create_self_approved_gate create_approval_gate tier_of
create_self_approved_gate_lem now opp opp_id w named =
    let k = next_id (λ (g : Gate). g.id) w.gates in
    let w1 = (insert_gate now (self_request opp opp_id) w).1 in
    rw (named, (decide_returns now k true "system:onboarding" w1).0)

-- What a write of a record gives, once its gate was let through.
create_cases :
    (env : Env) (d : Fields) (k : ℕ) (v : World) (g : Gate)
    → require_approved_gate (some k) "single_record_update" v ≡ (ok g, v)
    → let call = create_call "Onboarding__c" d in
      let made = create_record env "Onboarding__c" d "onboarding" (some k) v in
      (made.1.calls ≡ v.calls ++ call ∷ [])
      × (made.0 ≡ elim (env.org v.calls call) [ none ↦ err salesforce_error | some a ↦ ok a ])
unfolding create_record sf write_audit
create_cases env d k v g passed =
    elim (Option-cases (env.org v.calls (create_call "Onboarding__c" d))) [
      | inl down ↦ rw (passed, down) (refl, refl)
      | inr (a, up) ↦ rw (passed, up) (refl, refl)
    ]

abbrev calls_of : World → List SfCall
calls_of w = w.calls

-- An action that returns `a`, and makes no call.
abbrev Gives : {A : Type 0} → A → M A → Type 0
Gives a m = (w : World) → ((m w).0 ≡ ok a) × ((m w).1.calls ≡ w.calls)

Gives-bind :
    {A : Type 0} (a : A) (m : M (Unit {0})) (k : M A) → Gives tt m → Gives a k → Gives a (m >> k)
Gives-bind a m k hm hk w = rw (hm w).0 ((hk (m w).1).0, (hk (m w).1).1 ∙ (hm w).1)

Gives-if : (c : Bool) (m n : M (Unit {0})) → Gives tt m → Gives tt n → Gives tt (if c then m else n)
Gives-if true m n hm hn = hm
Gives-if false m n hm hn = hn

attempt-Gives : {A : Type 0} (m : M A) → Keeps calls_of m → Gives tt (attempt m)
attempt-Gives m keeps w = (refl, keeps w)

send-calls : (env : Env) (c : Json) (k : Option ℕ) → Keeps calls_of (send env c k)
unfolding send
send-calls env c k w =
    let m : Message = record { channel = channel_for env.config c; gate_id = k } in
    elim (Bool-cases (env.slack w.sent m)) [
      | inl taken ↦ rw taken refl
      | inr refused ↦ rw refused refl
    ]

create_gate-calls : (now : ℕ) (r : Request) → Keeps calls_of (create_approval_gate now r)
unfolding create_approval_gate
create_gate-calls now r = if-Keeps calls_of _ _ _ (λ w. refl) (λ w. refl)

item_of-calls : (key : String) (d : Fields) → Keeps calls_of (item_of key d)
item_of-calls key d = or_raise-Keeps calls_of (find_field key d) missing_key

name_in-calls : (opp : Fields) (v : Json) → Keeps calls_of (name_in opp v)
name_in-calls opp (object d) w = refl
name_in-calls opp null w = refl
name_in-calls opp (flag _) w = refl
name_in-calls opp (number _) w = refl
name_in-calls opp (text _) w = refl
name_in-calls opp (array _) w = refl

notify-Gives : (env : Env) (opp : Fields) → Gives tt (notify_cs_team env opp)
unfolding notify_cs_team account_name
notify-Gives env opp =
    let channel = text (config_with env.config "ONBOARDING_CS_TEAM_CHANNEL" "#cs-team") in
    let rest : M (Unit {0}) = item_of "Id" opp >> send env channel none in
    attempt-Gives (account_name opp >> rest) (
      Keeps-bind calls_of {B = Unit {0}} (account_name opp) (λ _. rest)
        (name_in-calls opp (or_else (get "Account" opp) (object end)))
        λ _.
          Keeps-bind calls_of {B = Unit {0}} (item_of "Id" opp) (λ _. send env channel none)
            (item_of-calls "Id" opp) λ _. send-calls env channel none)

handle_created-calls :
    (env : Env) (now : ℕ) (opp : Fields) (onboarding_id : String)
    → Keeps calls_of (handle_created env now opp onboarding_id)
unfolding handle_created
handle_created-calls env now opp onboarding_id =
    let rest = escalate env now opp onboarding_id in
    if-Keeps calls_of (truthy (get "OwnerId" opp)) (pure none) (item_of "Id" opp >>= rest)
      (λ w. refl)
      (Keeps-bind calls_of (item_of "Id" opp) rest (item_of-calls "Id" opp) λ opp_id.
        let r = unassigned_request onboarding_id opp opp_id in
        Keeps-bind calls_of {B = Option ℕ} (create_approval_gate now r)
          (λ gate_id. send env (onboarding_channel env) (some gate_id) >> pure (some gate_id))
          (create_gate-calls now r)
          λ k.
            Keeps-bind calls_of {B = Option ℕ} (send env (onboarding_channel env) (some k))
              (λ _. pure (some k)) (send-calls env (onboarding_channel env) (some k)) λ _ w. refl)

enforce-Gives : (env : Env) (now : ℕ) (opp : Fields) (v : Json) → Gives tt (enforce env now opp v)
enforce-Gives env now opp (text s) =
    Gives-if (str_eq s "") (pure tt) (attempt (handle_created env now opp s)) (λ w. (refl, refl))
      (attempt-Gives (handle_created env now opp s) (handle_created-calls env now opp s))
enforce-Gives env now opp null = λ w. (refl, refl)
enforce-Gives env now opp (flag _) = λ w. (refl, refl)
enforce-Gives env now opp (number _) = λ w. (refl, refl)
enforce-Gives env now opp (array _) = λ w. (refl, refl)
enforce-Gives env now opp (object _) = λ w. (refl, refl)

-- The part of create_from_opp that follows the write.
abbrev after_write : Env → ℕ → Fields → Fields → Fields → M Fields
after_write env now opp fields result = do
  notify_cs_team env opp
  (if truthy (get "OwnerId" fields) then pure tt else enforce env now opp (get "id" result))
  pure result

after_write-Gives :
    (env : Env) (now : ℕ) (opp fields result : Fields)
    → Gives result (after_write env now opp fields result)
after_write-Gives env now opp fields result =
    let owned = truthy (get "OwnerId" fields) in
    let enforced = enforce env now opp (get "id" result) in
    let rest = if owned then pure tt else enforced in
    Gives-bind result (notify_cs_team env opp) (rest >> pure result) (notify-Gives env opp) (
      Gives-bind result rest (pure result)
        (Gives-if owned (pure tt) enforced (λ w. (refl, refl))
          (enforce-Gives env now opp (get "id" result)))
        (λ w. (refl, refl)))

-- For an opportunity that has no onboarding yet and whose fields can be built, the poller makes
-- exactly one call: it creates the record. It counts the record as created exactly if the org takes
-- it, whatever Slack and the csm enforcer do.
pub process_lem :
    (env : Env) (soql : Soql) (now : ℕ) (opp fields : Fields) (opp_id : Json) (w : World)
    → find_field "Id" opp ≡ some opp_id
    → soql w.calls (onboarding_of opp_id) ≡ some []
    → ((v : World) → build_fields opp v ≡ (ok fields, v))
    → let call = create_call "Onboarding__c" fields in
      let (r, v) = process env soql now opp w in
      (v.calls ≡ w.calls ++ call ∷ [])
      × (r ≡ elim (env.org w.calls call) [ none ↦ err salesforce_error | some _ ↦ ok created ])
unfolding process onboarding_already_exists create_from_opp
process_lem env soql now opp fields opp_id w named absent built =
    let call = create_call "Onboarding__c" fields in
    let outcome : Option Fields → Result Fields =
      λ o. elim o [ none ↦ err salesforce_error | some a ↦ ok a ] in
    let k = next_id (λ (g : Gate). g.id) w.gates in
    let v = self_gated now opp opp_id w in
    let (same, passed) = self_gated_lem now opp opp_id w in
    let gated = create_self_approved_gate_lem now opp opp_id w named in
    let made = create_record env "Onboarding__c" fields "onboarding" (some k) v in
    let (wrote, answered) = create_cases env fields k v (self_approved now opp opp_id k) passed in
    let wrote : made.1.calls ≡ w.calls ++ call ∷ [] =
      wrote ∙ ap (λ (cs : List SfCall). cs ++ call ∷ []) same in
    let answered : made.0 ≡ outcome (env.org w.calls call) =
      answered ∙ ap (λ (cs : List SfCall). outcome (env.org cs call)) same in
    elim (Option-cases (env.org w.calls call)) [
      | inl down ↦
          rw (named, absent, gated, built v, answered ∙ ap outcome down, down) (wrote, refl)
      | inr (a, up) ↦
          let (returned, quiet) = after_write-Gives env now opp fields a made.1 in
          rw (named, absent, gated, built v, answered ∙ ap outcome up, returned, up)
            (quiet ∙ wrote, refl)
    ]
