-- ===== src/System/Polls.antt =====
-- The closed-won poller as a sequence of steps of the system.
use loop_revops_agents.Base.{
  ℕ, String, none, List, [], ◌∷◌, length, is_empty, not, select, if◌then◌else◌, Option-cases,
  Bool-cases, inl, inr,
}
use loop_revops_agents.Base.Table.{next_id}
use loop_revops_agents.World.{Env, Error, Result, ok, err, M, pure, ◌>>=◌, ◌>>◌}
use loop_revops_agents.World.Runs.{Run}
use loop_revops_agents.World.Values.{Json, Fields, get}
use loop_revops_agents.Governance.Gates.{write_audit}
use loop_revops_agents.Cs.{item_of}
use loop_revops_agents.Runs.{open_run, close_run}
use loop_revops_agents.Onboarding.ClosedWon.{
  Soql, Strategy, strategy_a, strategy_b, Outcome, Summary, ask, created_field_exists, closed_won,
  existing_onboardings, detect_dedup_strategy, select_candidates, ids_of, is_taken, process,
  add_error, failure_entry, is_refusal, account_for, process_one, process_all, flag_schema_gap_task,
  flag_if, fresh_summary, last_poll_time, poll_body, conclude, poll_closed_won, has_task,
  schema_gap_source,
}
use loop_revops_agents.System.{ran, tasked, here, next}
use loop_revops_agents.System.Handlers.{Runs, Runs-bind, Reach-trans}
use loop_revops_agents.System.Flows.{audit-Runs}
use loop_revops_agents.System.Won.{if-Runs, ask-Runs, item-Runs, process-Runs}

account_for-Runs :
    (env : Env) (message : Error → String) (run_id : ℕ) (opp : Fields) (s : Summary)
    (r : Result Outcome)
    → Runs env (account_for message run_id opp s r)
account_for-Runs env message run_id opp s (ok o) = λ w. here
account_for-Runs env message run_id opp s (err e) =
    let written : Json → M (Unit {0}) =
      λ i. write_audit (failure_entry message run_id i e) >> pure tt in
    let rest : Json → M Summary =
      λ i. (if is_refusal e then pure tt else written i) >> pure (add_error i s) in
    Runs-bind {B = Summary} env (item_of "Id" opp) rest (item-Runs env "Id" opp) λ i.
      Runs-bind {B = Summary} env (if is_refusal e then pure tt else written i)
        (λ _. pure (add_error i s))
        (if-Runs env (is_refusal e) (pure tt) (written i) (λ w. here)
          (Runs-bind {B = Unit {0}} env (write_audit (failure_entry message run_id i e))
            (λ _. pure tt) (audit-Runs env (failure_entry message run_id i e)) λ _ w. here))
        λ _ w. here

process_one-Runs :
    (env : Env) (soql : Soql) (message : Error → String) (now run_id : ℕ) (opp : Fields)
    (s : Summary)
    → Runs env (process_one env soql message now run_id opp s)
process_one-Runs env soql message now run_id opp s w =
    let (r, v) = process env soql now opp w in
    Reach-trans env (process-Runs env soql now opp w)
      (account_for-Runs env message run_id opp s r v)

process_all-Runs :
    (env : Env) (soql : Soql) (message : Error → String) (now run_id : ℕ) (opps : List Fields)
    (s : Summary)
    → Runs env (process_all env soql message now run_id opps s)
unfolding process_all
process_all-Runs env soql message now run_id [] s w = here
process_all-Runs env soql message now run_id (opp ∷ opps) s w =
    Runs-bind {B = Summary} env (process_one env soql message now run_id opp s)
      (process_all env soql message now run_id opps)
      (process_one-Runs env soql message now run_id opp s)
      (process_all-Runs env soql message now run_id opps) w

flag_if-Runs : (env : Env) (strategy : Strategy) → Runs env (flag_if strategy)
unfolding flag_schema_gap_task
flag_if-Runs env strategy_a w = here
flag_if-Runs env strategy_b w = elim (Bool-cases (has_task schema_gap_source w.tasks)) [
  | inl there ↦ rw there here
  | inr absent ↦ rw absent (next here (tasked _ w))
]

detect-Runs : (env : Env) (soql : Soql) → Runs env (detect_dedup_strategy soql)
unfolding detect_dedup_strategy
detect-Runs env soql w = elim (Option-cases (soql w.calls created_field_exists)) [
  | inl unanswered ↦ rw (detect_dedup_strategy, unanswered) here
  | inr (_, answered) ↦ rw (detect_dedup_strategy, answered) here
]

ids_of-Runs : (env : Env) (rs : List Fields) → Runs env (ids_of rs)
unfolding ids_of
ids_of-Runs env [] w = here
ids_of-Runs env (r ∷ rs) w =
    let rest : Json → M (List Json) = λ i. ids_of rs >>= λ ids. pure (i ∷ ids) in
    Runs-bind {B = List Json} env (item_of "Id" r) rest (item-Runs env "Id" r)
      (λ i.
        Runs-bind {B = List Json} env (ids_of rs) (λ ids. pure (i ∷ ids)) (ids_of-Runs env rs)
          λ _ v. here)
      w

select-Runs :
    (env : Env) (soql : Soql) (strategy : Strategy) (last_poll : ℕ)
    → Runs env (select_candidates soql strategy last_poll)
unfolding select_candidates
select-Runs env soql strategy_a last_poll = ask-Runs env soql (closed_won strategy_a last_poll)
select-Runs env soql strategy_b last_poll =
    let kept : List Fields → List Fields → M (List Fields) =
      λ records existing. pure (select (λ r. not (is_taken (get "Id" r) existing)) records) in
    let look : List Fields → List Json → M (List Fields) =
      λ records ids. ask soql (existing_onboardings ids) >>= kept records in
    let filtered : List Fields → M (List Fields) = λ records. ids_of records >>= look records in
    Runs-bind {B = List Fields} env (ask soql (closed_won strategy_b last_poll))
      (λ records. if is_empty records then pure records else filtered records)
      (ask-Runs env soql (closed_won strategy_b last_poll))
      λ records.
        if-Runs env (is_empty records) (pure records) (filtered records) (λ w. here)
          (Runs-bind {B = List Fields} env (ids_of records) (look records) (ids_of-Runs env records)
            λ ids.
              Runs-bind {B = List Fields} env (ask soql (existing_onboardings ids)) (kept records)
                (ask-Runs env soql (existing_onboardings ids)) λ _ w. here)

poll_body-Runs :
    (env : Env) (soql : Soql) (message : Error → String) (now run_id : ℕ)
    → Runs env (poll_body env soql message now run_id)
unfolding poll_body
poll_body-Runs env soql message now run_id =
    let loop : List Fields → M Summary =
      λ opps. process_all env soql message now run_id opps (fresh_summary (length opps)) in
    let chosen : Strategy → M (List Fields) =
      λ strategy w. select_candidates soql strategy (last_poll_time now w.runs) w in
    Runs-bind {B = Summary} env (detect_dedup_strategy soql)
      (λ strategy. chosen strategy >>= λ opps. flag_if strategy >> loop opps) (detect-Runs env soql)
      λ strategy.
        Runs-bind {B = Summary} env (chosen strategy) (λ opps. flag_if strategy >> loop opps)
          (λ w. select-Runs env soql strategy (last_poll_time now w.runs) w)
          λ opps.
            Runs-bind {B = Summary} env (flag_if strategy) (λ _. loop opps)
              (flag_if-Runs env strategy)
              λ _. process_all-Runs env soql message now run_id opps (fresh_summary (length opps))

conclude-Runs :
    (env : Env) (message : Error → String) (now run_id : ℕ) (r : Result Summary)
    → Runs env (conclude message now run_id r)
unfolding close_run
conclude-Runs env message now run_id (ok s) w = next here (ran _ w)
conclude-Runs env message now run_id (err e) w = next here (ran _ w)

pub poll_closed_won-Runs :
    (env : Env) (soql : Soql) (message : Error → String) (now : ℕ)
    → Runs env (poll_closed_won env soql message now)
unfolding poll_closed_won open_run
poll_closed_won-Runs env soql message now w =
    let run_id = next_id (λ (r : Run). r.id) w.runs in
    let v =
      (open_run "onboarding" "cron:onboarding-closed-won-poller" none "in_progress" now w).1 in
    let (r, u) = poll_body env soql message now run_id v in
    Reach-trans env (next here (ran _ w)) (
      Reach-trans env (poll_body-Runs env soql message now run_id v)
        (conclude-Runs env message now run_id r u))
