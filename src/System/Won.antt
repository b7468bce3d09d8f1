-- ===== src/System/Won.antt =====
-- The creation of an onboarding as a sequence of steps of the system.
use loop_revops_agents.Base.{
  ℕ, String, Bool, true, false, Option, none, some, is_empty, not, str_eq, if◌then◌else◌,
}
use loop_revops_agents.World.{Env, M, pure, raise_if, ◌>>=◌, ◌>>◌, salesforce_error, bad_value}
use loop_revops_agents.World.Values.{
  Json, null, flag, number, text, array, object, end, Fields, get, truthy, or_else,
}
use loop_revops_agents.Governance.Gates.{create_approval_gate, decide_approval_gate}
use loop_revops_agents.Salesforce.{create_record}
use loop_revops_agents.Dispatcher.{send, config_with}
use loop_revops_agents.Cs.{item_of}
use loop_revops_agents.Onboarding.{handle_created, escalate, unassigned_request, onboarding_channel}
use loop_revops_agents.Onboarding.Creator.{
  account_name, name_in, title_of, build_fields, onboarding_fields, overlaps, forbidden_fields,
  attempt, notify_cs_team, enforce, create_from_opp,
}
use loop_revops_agents.Onboarding.ClosedWon.{
  Soql, Query, Outcome, created, skipped, ask, onboarding_of, onboarding_already_exists,
  self_request, create_self_approved_gate, process,
}
use loop_revops_agents.System.{voted, here, next}
use loop_revops_agents.System.Handlers.{Runs, Runs-bind}
use loop_revops_agents.System.Flows.{or_raise-Runs, create-Runs, send-Runs}
use loop_revops_agents.System.Access.{create_record-Runs}

pub if-Runs :
    {A : Type 0} (env : Env) (b : Bool) (m n : M A)
    → Runs env m
    → Runs env n
    → Runs env (if b then m else n)
if-Runs env true m n hm hn = hm
if-Runs env false m n hm hn = hn

attempt-Runs : {A : Type 0} (env : Env) (m : M A) → Runs env m → Runs env (attempt m)
attempt-Runs env m runs w = runs w

pub ask-Runs : (env : Env) (soql : Soql) (q : Query) → Runs env (ask soql q)
ask-Runs env soql q w = or_raise-Runs env (soql w.calls q) salesforce_error w

pub item-Runs : (env : Env) (key : String) (d : Fields) → Runs env (item_of key d)
item-Runs env key d = or_raise-Runs env _ _

name_in-Runs : (env : Env) (opp : Fields) (v : Json) → Runs env (name_in opp v)
name_in-Runs env opp (object d) w = here
name_in-Runs env opp null w = here
name_in-Runs env opp (flag _) w = here
name_in-Runs env opp (number _) w = here
name_in-Runs env opp (text _) w = here
name_in-Runs env opp (array _) w = here

title_of-Runs : (env : Env) (v : Json) → Runs env (title_of v)
title_of-Runs env (text s) w = here
title_of-Runs env null w = here
title_of-Runs env (flag _) w = here
title_of-Runs env (number _) w = here
title_of-Runs env (object _) w = here
title_of-Runs env (array _) w = here

account_name-Runs : (env : Env) (opp : Fields) → Runs env (account_name opp)
unfolding account_name
account_name-Runs env opp = name_in-Runs env opp (or_else (get "Account" opp) (object end))

build_fields-Runs : (env : Env) (opp : Fields) → Runs env (build_fields opp)
unfolding build_fields
build_fields-Runs env opp =
    Runs-bind {B = Fields} env (account_name opp) _ (account_name-Runs env opp) λ name.
      let shown = or_else name (text "Unnamed Account") in
      Runs-bind {B = Fields} env (title_of shown) _ (title_of-Runs env shown) λ title.
        Runs-bind {B = Fields} env (item_of "Id" opp) _ (item-Runs env "Id" opp) λ i.
          let fields = onboarding_fields title i (get "OwnerId" opp) in
          Runs-bind {B = Fields} env (raise_if (overlaps fields forbidden_fields) bad_value)
            (λ _. pure fields) (λ w. here) λ _ w. here

notify-Runs : (env : Env) (opp : Fields) → Runs env (notify_cs_team env opp)
unfolding notify_cs_team
notify-Runs env opp =
    let channel = text (config_with env.config "ONBOARDING_CS_TEAM_CHANNEL" "#cs-team") in
    let rest : M (Unit {0}) = item_of "Id" opp >> send env channel none in
    attempt-Runs env (account_name opp >> rest) (
      Runs-bind {B = Unit {0}} env (account_name opp) (λ _. rest) (account_name-Runs env opp)
        λ _.
          Runs-bind {B = Unit {0}} env (item_of "Id" opp) (λ _. send env channel none)
            (item-Runs env "Id" opp) λ _. send-Runs env channel none)

handle_created-Runs :
    (env : Env) (now : ℕ) (opp : Fields) (onboarding_id : String)
    → Runs env (handle_created env now opp onboarding_id)
unfolding handle_created
handle_created-Runs env now opp onboarding_id =
    let rest = escalate env now opp onboarding_id in
    if-Runs env (truthy (get "OwnerId" opp)) (pure none) (item_of "Id" opp >>= rest) (λ w. here)
      (Runs-bind env (item_of "Id" opp) rest (item-Runs env "Id" opp) λ i.
        let r = unassigned_request onboarding_id opp i in
        Runs-bind {B = Option ℕ} env (create_approval_gate now r) _ (create-Runs env now r) λ k.
          Runs-bind {B = Option ℕ} env (send env (onboarding_channel env) (some k))
            (λ _. pure (some k)) (send-Runs env (onboarding_channel env) (some k)) λ _ w. here)

enforce-Runs : (env : Env) (now : ℕ) (opp : Fields) (v : Json) → Runs env (enforce env now opp v)
enforce-Runs env now opp (text s) =
    if-Runs env (str_eq s "") (pure tt) (attempt (handle_created env now opp s)) (λ w. here)
      (attempt-Runs env (handle_created env now opp s) (handle_created-Runs env now opp s))
enforce-Runs env now opp null = λ w. here
enforce-Runs env now opp (flag _) = λ w. here
enforce-Runs env now opp (number _) = λ w. here
enforce-Runs env now opp (array _) = λ w. here
enforce-Runs env now opp (object _) = λ w. here

pub create_from_opp-Runs :
    (env : Env) (now : ℕ) (opp : Fields) (k : ℕ) → Runs env (create_from_opp env now opp k)
unfolding create_from_opp
create_from_opp-Runs env now opp k =
    Runs-bind {B = Fields} env (build_fields opp) _ (build_fields-Runs env opp) λ fields.
      Runs-bind {B = Fields} env (create_record env "Onboarding__c" fields "onboarding" (some k)) _
        (create_record-Runs env "Onboarding__c" fields "onboarding" (some k))
        λ result.
          let owned = truthy (get "OwnerId" fields) in
          let enforced = enforce env now opp (get "id" result) in
          let rest : M (Unit {0}) = if owned then pure tt else enforced in
          Runs-bind {B = Fields} env (notify_cs_team env opp) (λ _. rest >> pure result)
            (notify-Runs env opp)
            λ _.
              Runs-bind {B = Fields} env rest (λ _. pure result)
                (if-Runs env owned (pure tt) enforced (λ w. here)
                  (enforce-Runs env now opp (get "id" result)))
                λ _ w. here

gate-Runs : (env : Env) (now : ℕ) (opp : Fields) → Runs env (create_self_approved_gate now opp)
unfolding create_self_approved_gate
gate-Runs env now opp = Runs-bind {B = ℕ} env (item_of "Id" opp) _ (item-Runs env "Id" opp) λ i.
    Runs-bind {B = ℕ} env (create_approval_gate now (self_request opp i)) _
      (create-Runs env now (self_request opp i))
      λ k.
        Runs-bind {B = ℕ} env (decide_approval_gate now k true "system:onboarding") (λ _. pure k)
          (λ w. next here (voted now k true "system:onboarding" w)) λ _ w. here

pub process-Runs :
    (env : Env) (soql : Soql) (now : ℕ) (opp : Fields) → Runs env (process env soql now opp)
unfolding process onboarding_already_exists
process-Runs env soql now opp =
    let make : M Outcome =
      create_self_approved_gate now opp >>= λ k. create_from_opp env now opp k >> pure created in
    let test : Json → M Bool = λ i. ask soql (onboarding_of i) >>= λ rs. pure (not (is_empty rs)) in
    Runs-bind {B = Outcome} env (item_of "Id" opp)
      (λ i. test i >>= λ b. if b then pure skipped else make) (item-Runs env "Id" opp)
      λ i.
        Runs-bind {B = Outcome} env (test i) (λ b. if b then pure skipped else make)
          (Runs-bind {B = Bool} env (ask soql (onboarding_of i)) (λ rs. pure (not (is_empty rs)))
            (ask-Runs env soql (onboarding_of i)) λ _ w. here)
          λ b.
            if-Runs env b (pure skipped) make (λ w. here)
              (Runs-bind {B = Outcome} env (create_self_approved_gate now opp)
                (λ k. create_from_opp env now opp k >> pure created) (gate-Runs env now opp)
                λ k.
                  Runs-bind {B = Outcome} env (create_from_opp env now opp k) (λ _. pure created)
                    (create_from_opp-Runs env now opp k) λ _ w. here)
