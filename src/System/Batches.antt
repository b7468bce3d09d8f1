-- ===== src/System/Batches.antt =====
-- The enrolment and the batch update as sequences of steps of the system.
use loop_revops_agents.Base.{
  ℕ, ◌+◌, String, Bool, true, false, none, some, List, [], ◌∷◌, Option-cases, Bool-cases, inl, inr,
  length, str_eq, leb,
}
use loop_revops_agents.Base.Slices.{slices}
use loop_revops_agents.World.{
  World, Env, Result, ok, err, M, pure, raise_if, bulk_update_error, ◌>>=◌, ◌>>◌,
  rate_limit_exceeded,
}
use loop_revops_agents.World.Values.{Fields, null}
use loop_revops_agents.World.Rows.{Gate, enrolled, failed, rate_limited}
use loop_revops_agents.Governance.Gates.{
  write_audit, decide_approval_gate, require_approved_gate, is_pending,
}
use loop_revops_agents.Governance.Lawful.{gate_at}
use loop_revops_agents.Governance.Tiers.{classify_bulk_update}
use loop_revops_agents.Governance.Limits.{check_rate_limit}
use loop_revops_agents.Enroller.{
  Batch, Report, enroll_leads, enroll_batch, approve_queue, record_enrollment, after_create,
  after_check, lead_fields, sf_id_of, default_create, gate_action, rate_bucket, cadence_sobject,
  approved_gate,
}
use loop_revops_agents.Bulk
use loop_revops_agents.Bulk.{
  Ports, Run, BulkUpdateResult, run_batch, write_all, write_chunks, composite_patch, composite_call,
  get_write_auth, validate_updates, fetch_before_snapshot, chunk_entry, with_audit, add_records,
  composite_chunk, fresh_result, ids_of, modified_fields, http_patch,
}
use loop_revops_agents.Bulk.Reads.{fetch-Reads, auth-Reads, validate-Reads}
use loop_revops_agents.System.{created, limited, voted, recorded, patched, Reach, here, next}
use loop_revops_agents.System.Handlers.{Reads-Runs, Runs, Runs-bind, Reach-trans}
use loop_revops_agents.System.Flows.{step-Runs, require-Runs, audit-Runs}

module _ (env : Env) (b : Batch)
    (creates : (s : String) (d : Fields) → Runs env (b.create s d)) where
  after_create-Runs :
      (now : ℕ) (l : String) (rest : M Report) (r : Result Fields) (w v : World)
      → Reach env w v
      → Runs env rest
      → Reach env w (after_create b now l rest (r, v)).1
  after_create-Runs now l rest (err e) w v before later =
      Reach-trans env (next before (recorded b now l null failed v))
        (later (record_enrollment b now l null failed v).1)
  after_create-Runs now l rest (ok d) w v before later =
      Reach-trans env (next before (recorded b now l (sf_id_of d) enrolled v))
        (later (record_enrollment b now l (sf_id_of d) enrolled v).1)

  after_check-Runs :
      (now : ℕ) (l : String) (rest : M Report) (r : Result ℕ) (w v : World)
      → Reach env w v
      → Runs env rest
      → Reach env w (after_check b now l rest (r, v)).1
  after_check-Runs now l rest (ok n) w v before later =
      let c = b.create b.sobject (lead_fields b l) v in
      after_create-Runs now l rest c.0 w c.1
        (Reach-trans env before (creates b.sobject (lead_fields b l) v)) later
  after_check-Runs now l rest (err rate_limit_exceeded) w v before later =
      next before (recorded b now l null rate_limited v)
  after_check-Runs now l rest (err e) w v before later = before

  enroll_leads-Runs : (leads : List (ℕ × String)) → Runs env (enroll_leads b leads)
  unfolding enroll_leads
  enroll_leads-Runs [] w = here
  enroll_leads-Runs ((now, l) ∷ leads) w =
      let c = check_rate_limit now rate_bucket 86400 none w in
      after_check-Runs now l (enroll_leads b leads) c.0 w c.1
        (step-Runs env (limited now rate_bucket 86400 none w)) (enroll_leads-Runs leads)

pub enroll_batch-Runs :
    (env : Env) (leads : List (ℕ × String)) (sequence_id : String) (k : ℕ)
    → Runs env (enroll_batch env leads sequence_id k none)
unfolding enroll_batch
enroll_batch-Runs env leads sequence_id k =
    let b : Batch = record {
      sequence_id = sequence_id;
      sobject = cadence_sobject env.config;
      gate_id = k;
      create = default_create env k;
    } in
    Runs-bind {B = Report} env (require_approved_gate (some k) gate_action)
      (λ _. enroll_leads b leads) (require-Runs env (some k) gate_action)
      λ _.
        enroll_leads-Runs env b (λ s d w. step-Runs env (created s d "top_of_funnel" (some k) w))
          leads

pub approve_queue-Runs :
    (env : Env) (now k : ℕ) (approver : String) → Runs env (approve_queue now k approver)
unfolding approve_queue
approve_queue-Runs env now k approver w = elim (Option-cases (gate_at k w)) [
  | inl absent ↦ rw absent here
  | inr (g, found) ↦ elim (Bool-cases (str_eq g.action_type gate_action)) [
    | inr other ↦ rw (found, other) here
    | inl queue ↦ elim (Bool-cases (is_pending g.status)) [
      | inr settled ↦ rw (found, queue, settled) here
      | inl waits ↦
          rw (found, queue, waits)
            (Runs-bind env (decide_approval_gate now k true approver) (λ _. pure approved_gate)
              (λ u. step-Runs env (voted now k true approver u)) (λ _ u. here) w)
    ]
  ]
]

composite_patch-Runs :
    (env : Env) (p : Ports) (sobject : String) (chunk : List Fields) (auth : String × String)
    → Runs env (composite_patch p sobject chunk auth)
unfolding composite_patch
composite_patch-Runs env p sobject chunk auth =
    Runs-bind {B = List Fields} env (http_patch p auth.0 (composite_call sobject auth.1 chunk))
      (λ resp. raise_if (leb 300 resp.status_code) bulk_update_error >> pure resp.body)
      (λ w. step-Runs env (patched p auth.0 (composite_call sobject auth.1 chunk) w))
      λ resp.
        Runs-bind env (raise_if (leb 300 resp.status_code) bulk_update_error) (λ _. pure resp.body)
          (λ w. here) (λ _ w. here)

write_chunks-Runs :
    (env : Env) (p : Ports) (b : Run) (i : ℕ) (chunks : List (List Fields)) (r : BulkUpdateResult)
    → Runs env (write_chunks p b i chunks r)
unfolding write_chunks
write_chunks-Runs env p b i [] r w = here
write_chunks-Runs env p b i (chunk ∷ rest) r w =
    let go : ℕ → List Fields → M BulkUpdateResult =
      λ a recs. write_chunks p b (i + 1) rest (add_records recs (with_audit a r)) in
    Runs-bind env (write_audit (chunk_entry b i chunk))
      (λ a. composite_patch p b.sobject chunk b.auth >>= go a)
      (audit-Runs env (chunk_entry b i chunk))
      (λ a.
        Runs-bind env (composite_patch p b.sobject chunk b.auth) (go a)
          (composite_patch-Runs env p b.sobject chunk b.auth)
          λ recs. write_chunks-Runs env p b (i + 1) rest (add_records recs (with_audit a r)))
      w

write_all-Runs :
    (env : Env) (p : Ports) (agent sobject : String) (updates : List Fields) (k : ℕ)
    (before : Fields)
    → Runs env (write_all env p agent sobject updates k before)
unfolding write_all
write_all-Runs env p agent sobject updates k before =
    let b : (String × String) → Run = λ a. record {
      agent_name = agent;
      sobject = sobject;
      gate_id = k;
      before = before;
      auth = a;
    } in
    let chunks = slices composite_chunk updates in
    let fresh = fresh_result sobject (length updates) before in
    Runs-bind env (get_write_auth env p) (λ a. write_chunks p (b a) 0 chunks fresh)
      (Reads-Runs env (get_write_auth env p) (auth-Reads env p))
      λ a. write_chunks-Runs env p (b a) 0 chunks fresh

-- The part of a run before the snapshot is used.
prepared-Runs :
    (env : Env) (p : Ports) (now : ℕ) (sobject : String) (updates : List Fields) (k : ℕ)
    (last : Fields → M BulkUpdateResult)
    → ((d : Fields) → Runs env (last d))
    → Runs env (
        validate_updates updates >>= λ _.
        require_approved_gate (some k) (classify_bulk_update (length updates)) >>= λ _.
        check_rate_limit now Bulk.rate_bucket 86400 none >>= λ _.
        fetch_before_snapshot p sobject (ids_of updates) (modified_fields updates) >>= last)
prepared-Runs env p now sobject updates k last later =
    let action = classify_bulk_update (length updates) in
    let snapshot = fetch_before_snapshot p sobject (ids_of updates) (modified_fields updates) in
    let limit = check_rate_limit now Bulk.rate_bucket 86400 none in
    let third : ℕ → M BulkUpdateResult = λ _. snapshot >>= last in
    let second : Gate → M BulkUpdateResult = λ _. limit >>= third in
    Runs-bind env (validate_updates updates) (λ _. require_approved_gate (some k) action >>= second)
      (Reads-Runs env (validate_updates updates) (validate-Reads updates))
      λ _.
        Runs-bind env (require_approved_gate (some k) action) second
          (require-Runs env (some k) action)
          λ _.
            Runs-bind env limit third
              (λ w. step-Runs env (limited now Bulk.rate_bucket 86400 none w))
              λ _.
                Runs-bind env snapshot last
                  (Reads-Runs env snapshot
                    (fetch-Reads p sobject (ids_of updates) (modified_fields updates)))
                  later

pub run_batch-Runs :
    (env : Env) (p : Ports) (now : ℕ) (agent sobject : String) (updates : List Fields) (k : ℕ)
    (dry_run : Bool)
    → Runs env (run_batch env p now agent sobject updates k dry_run)
unfolding run_batch
run_batch-Runs env p now agent sobject updates k true =
    prepared-Runs env p now sobject updates k (λ d. pure (fresh_result sobject (length updates) d))
      (λ d w. here)
run_batch-Runs env p now agent sobject updates k false =
    prepared-Runs env p now sobject updates k (write_all env p agent sobject updates k)
      (write_all-Runs env p agent sobject updates k)
