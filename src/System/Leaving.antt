-- ===== src/System/Leaving.antt =====
-- The offboarding as a sequence of steps of the system.
use loop_revops_agents.Base.{
  ℕ, String, true, false, Option, none, some, List, [], ◌∷◌, ◌++◌, is_empty, length, str_eq,
  if◌then◌else◌, Bool-cases, inl, inr,
}
use loop_revops_agents.World.{Env, M, pure, ◌>>=◌, ◌>>◌, salesforce_error}
use loop_revops_agents.World.Values.{Json, Fields, flag, text, end, field}
use loop_revops_agents.Salesforce.{update_record}
use loop_revops_agents.Bulk.{Ports, bulk_update}
use loop_revops_agents.Permissions.{Soql, Query, ask, rows_owned_by, count_owned_by}
use loop_revops_agents.Permissions.Offboard.{
  OffboardRequest, OffboardResult, count_in, count_owned, ids_in, ids_owned, owner_updates,
  reassign_rows, reassign_all, count_all, reassign_or_count, has_open_task, followup_source,
  open_manual_followup, offboard,
}
use loop_revops_agents.System.{tasked, here, next}
use loop_revops_agents.System.Handlers.{Runs, Runs-bind}
use loop_revops_agents.System.Flows.{or_raise-Runs, update-Runs}
use loop_revops_agents.System.Batches.{run_batch-Runs}
use loop_revops_agents.System.Won.{if-Runs}

answer-Runs : (env : Env) (soql : Soql) (q : Query) → Runs env (ask soql q)
answer-Runs env soql q w = or_raise-Runs env (soql w.calls q) salesforce_error w

bulk_update-Runs :
    (env : Env) (p : Ports) (now : ℕ) (agent sobject : String) (updates : List Fields)
    (gate_id : Option ℕ)
    → Runs env (bulk_update env p now agent sobject updates gate_id false)
bulk_update-Runs env p now agent sobject updates none = unfold bulk_update in λ w. here
bulk_update-Runs env p now agent sobject updates (some k) =
    unfold bulk_update in run_batch-Runs env p now agent sobject updates k false

count_all-Runs :
    (env : Env) (soql : Soql) (user : String) (ss : List String) → Runs env (count_all soql user ss)
unfolding count_all count_owned
count_all-Runs env soql user [] w = here
count_all-Runs env soql user (s ∷ ss) w =
    let rest : ℕ → M (List (String × ℕ)) =
      λ n. count_all soql user ss >>= λ ns. pure ((s, n) ∷ ns) in
    Runs-bind {B = List (String × ℕ)} env (count_owned soql s user) rest
      (Runs-bind {B = ℕ} env (ask soql (count_owned_by s user))
        (λ a. pure (count_in a.total_size a.records)) (answer-Runs env soql (count_owned_by s user))
        λ _ v. here)
      (λ n.
        Runs-bind {B = List (String × ℕ)} env (count_all soql user ss) (λ ns. pure ((s, n) ∷ ns))
          (count_all-Runs env soql user ss) λ _ v. here)
      w

reassign_rows-Runs :
    (env : Env) (p : Ports) (now : ℕ) (agent : String) (gate_id : Option ℕ) (owner sobject : String)
    (ids : List Json)
    → Runs env (reassign_rows env p now agent gate_id owner sobject ids)
reassign_rows-Runs env p now agent gate_id owner sobject ids =
    let write = bulk_update env p now agent sobject (owner_updates owner ids) gate_id false in
    let counted : M (List (String × ℕ)) = pure ((sobject, length ids) ∷ []) in
    if-Runs env (is_empty ids) (pure []) (write >> counted) (λ w. here)
      (Runs-bind {B = List (String × ℕ)} env write (λ _. counted)
        (bulk_update-Runs env p now agent sobject (owner_updates owner ids) gate_id) λ _ w. here)

reassign_all-Runs :
    (env : Env) (soql : Soql) (p : Ports) (now : ℕ) (agent : String) (gate_id : Option ℕ)
    (user owner : String) (ss : List String)
    → Runs env (reassign_all env soql p now agent gate_id user owner ss)
unfolding reassign_all ids_owned
reassign_all-Runs env soql p now agent gate_id user owner [] w = here
reassign_all-Runs env soql p now agent gate_id user owner (s ∷ ss) w =
    let last : List (String × ℕ) → M (List (String × ℕ)) = λ mine.
      reassign_all env soql p now agent gate_id user owner ss >>= λ rest. pure (mine ++ rest) in
    let moved : List Json → M (List (String × ℕ)) = reassign_rows env p now agent gate_id owner s in
    Runs-bind {B = List (String × ℕ)} env (ids_owned soql s user) (λ ids. moved ids >>= last)
      (Runs-bind {B = List Json} env (ask soql (rows_owned_by s user))
        (λ a. pure (ids_in a.records)) (answer-Runs env soql (rows_owned_by s user)) λ _ v. here)
      (λ ids.
        Runs-bind {B = List (String × ℕ)} env (moved ids) last
          (reassign_rows-Runs env p now agent gate_id owner s ids)
          λ mine.
            Runs-bind {B = List (String × ℕ)} env
              (reassign_all env soql p now agent gate_id user owner ss)
              (λ rest. pure (mine ++ rest))
              (reassign_all-Runs env soql p now agent gate_id user owner ss) λ _ v. here)
      w

reassign_or_count-Runs :
    (env : Env) (soql : Soql) (p : Ports) (now : ℕ) (agent : String) (gate_id : Option ℕ)
    (req : OffboardRequest)
    → Runs env (reassign_or_count env soql p now agent gate_id req)
reassign_or_count-Runs env soql p now agent gate_id req = by_owner req.transfer_to_user_id
  where
    counted : Runs env (count_all soql req.user_id req.reassign)
    counted = count_all-Runs env soql req.user_id req.reassign

    by_owner :
        (o : Option String)
        → Runs env (elim o [
          | none ↦ count_all soql req.user_id req.reassign
          | some owner ↦
              if str_eq owner ""
              then count_all soql req.user_id req.reassign
              else reassign_all env soql p now agent gate_id req.user_id owner req.reassign
        ])
    by_owner none = counted
    by_owner (some owner) =
        if-Runs env (str_eq owner "") (count_all soql req.user_id req.reassign)
          (reassign_all env soql p now agent gate_id req.user_id owner req.reassign) counted
          (reassign_all-Runs env soql p now agent gate_id req.user_id owner req.reassign)

followup-Runs : (env : Env) (user : String) → Runs env (open_manual_followup user)
unfolding open_manual_followup
followup-Runs env user w = elim (Bool-cases (has_open_task (followup_source user) w.tasks)) [
  | inl there ↦ rw there here
  | inr absent ↦ rw absent (next here (tasked _ w))
]

pub offboard-Runs :
    (env : Env) (soql : Soql) (p : Ports) (now : ℕ) (agent : String) (gate_id : Option ℕ)
    (req : OffboardRequest)
    → Runs env (offboard env soql p now agent gate_id req)
unfolding offboard
offboard-Runs env soql p now agent gate_id req =
    let inactive = field "IsActive" (flag false) end in
    let write = update_record env "User" (text req.user_id) inactive agent gate_id in
    let done : List (String × ℕ) → M OffboardResult = λ rs.
      open_manual_followup req.user_id >> pure (record { deactivated = true; reassigned = rs }) in
    Runs-bind {B = OffboardResult} env (reassign_or_count env soql p now agent gate_id req)
      (λ rs. write >> done rs) (reassign_or_count-Runs env soql p now agent gate_id req)
      λ rs.
        Runs-bind {B = OffboardResult} env write (λ _. done rs)
          (update-Runs env "User" (text req.user_id) inactive agent gate_id)
          λ _.
            Runs-bind {B = OffboardResult} env (open_manual_followup req.user_id)
              (λ _. pure (record { deactivated = true; reassigned = rs }))
              (followup-Runs env req.user_id) λ _ w. here
