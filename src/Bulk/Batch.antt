-- ===== src/Bulk/Batch.antt =====
-- What a batch writes, and what it takes from the daily limit.
use loop_revops_agents.Base.{
  ℕ, suc, ◌+◌, ◌≤◌, ◌≡◌, refl, sym, ap, subst, ◌∙◌, String, false, none, some, List, [], ◌∷◌, ◌++◌,
  arith, leb, length, length-snoc, All, Bool-cases, Option-cases, inl, inr, eq_iff,
}
use mathlib.Core.List.{append-nil, append_assoc}
use loop_revops_agents.Base.Table.{next_id}
use loop_revops_agents.Base.Slices.{slices, flat, flat-slices, slices-bounds}
use loop_revops_agents.World.{
  World, SfCall, Env, Result, ok, err, M, rate_limit_exceeded, ◌>>=◌, >>=-eq-ok,
}
use loop_revops_agents.World.Keeps.{kept}
use loop_revops_agents.World.Values.{Fields, field, end, get, truthy}
use loop_revops_agents.World.Rows.{Gate, Rate, Audit}
use loop_revops_agents.Governance.Gates.{Entry, audit_row, write_audit, require_approved_gate}
use loop_revops_agents.Governance.Tiers.{classify_bulk_update, limit_of, is_soft_bucket}
use loop_revops_agents.Governance.Limits.{
  check_rate_limit, count_call, window_of, resolved_mode, find_rate,
}
use loop_revops_agents.Governance.Limits.Count.{count_at, count_of, IsKeyed, admitted_call}
use loop_revops_agents.Governance.Limits.Budget.{check_hard}
use loop_revops_agents.Salesforce.Gated.{Permits, require_cases}
use loop_revops_agents.Bulk.Reads.{fetch-Reads, auth-Reads, validate-Reads}
use loop_revops_agents.Bulk.{
  Ports, Run, BulkUpdateResult, composite_call, composite_chunk, http_patch, composite_patch,
  write_chunks, write_all, run_batch, validate_updates, get_write_auth, fetch_before_snapshot,
  add_records, add_record, errors_of, chunk_entry, with_audit, fresh_result, rate_bucket, ids_of,
  modified_fields,
}

-- The requests for some chunks, in their order.
abbrev pub requests : String → String → List (List Fields) → List SfCall
requests sobject url [] = []
requests sobject url (chunk ∷ rest) = composite_call sobject url chunk ∷ requests sobject url rest

-- The run of a batch.
abbrev pub run_of : String → String → ℕ → Fields → String × String → Run
run_of agent sobject k before auth = record {
  agent_name = agent;
  sobject = sobject;
  gate_id = k;
  before = before;
  auth = auth;
}

-- How many rows a result accounts for.
abbrev pub counted : BulkUpdateResult → ℕ
counted r = r.success + length r.failures

add_record-counts :
    (rec : Fields) (r : BulkUpdateResult)
    → ((add_record rec r).total ≡ r.total)
      × ((add_record rec r).audit_ids ≡ r.audit_ids)
      × (counted (add_record rec r) ≡ counted r + 1)
add_record-counts rec r = elim (Bool-cases (truthy (get "success" rec))) [
  | inl done ↦ rw done (refl, refl, omega arith)
  | inr failed ↦
      let failure = field "id" (get "id" rec) (field "errors" (errors_of rec) end) in
      rw failed (refl, refl, omega (arith, length-snoc r.failures failure))
]

add_records-counts :
    (recs : List Fields) (r : BulkUpdateResult)
    → ((add_records recs r).total ≡ r.total)
      × ((add_records recs r).audit_ids ≡ r.audit_ids)
      × (counted (add_records recs r) ≡ counted r + length recs)
add_records-counts [] r = (refl, refl, omega arith)
add_records-counts (rec ∷ recs) r =
    let (t, a, c) = add_record-counts rec r in
    let (t', a', c') = add_records-counts recs (add_record rec r) in
    (t' ∙ t, a' ∙ a, omega (arith, c, c'))

-- A request is made once, whatever comes back.
patched :
    (p : Ports) (sobject : String) (chunk : List Fields) (auth : String × String) (w : World)
    → let v = (composite_patch p sobject chunk auth w).1 in
      (v.calls ≡ w.calls ++ composite_call sobject auth.1 chunk ∷ [])
      × (v.rates ≡ w.rates)
      × (v.audit ≡ w.audit)
unfolding composite_patch http_patch
patched p sobject chunk auth w =
    elim (Option-cases (p.http_patch auth.0 w.calls (composite_call sobject auth.1 chunk))) [
      | inl down ↦ rw down (refl, refl, refl)
      | inr (resp, up) ↦ elim (Bool-cases (leb 300 resp.status_code)) [
        | inl bad ↦ rw (up, bad) (refl, refl, refl)
        | inr good ↦ rw (up, good) (refl, refl, refl)
      ]
    ]

-- What an audit row that was written leaves behind.
noted_one :
    (e : Entry) (w v : World) (n : ℕ)
    → write_audit e w ≡ (ok n, v)
    → (v.calls ≡ w.calls) × (v.rates ≡ w.rates) × (v.audit ≡ w.audit ++ audit_row n e ∷ [])
unfolding write_audit
noted_one e w v n h =
    let same : (write_audit e w).1 ≡ v = ap (λ (x : Result ℕ × World). x.1) h in
    let got : ok (next_id (λ (a : Audit). a.id) w.audit) ≡ ok n =
      ap (λ (x : Result ℕ × World). x.0) h in
    let number : next_id (λ (a : Audit). a.id) w.audit ≡ n = cc in
    (
      ap (λ (x : World). x.calls) (sym same),
      ap (λ (x : World). x.rates) (sym same),
      ap (λ (x : World). x.audit) (sym same) ∙ ap (λ (i : ℕ). w.audit ++ audit_row i e ∷ []) number,
    )

-- The audit rows for some chunks, from the chunk of an index on, under their ids.
abbrev pub noted : Run → ℕ → List (List Fields) → List ℕ → List Audit
noted b index (chunk ∷ rest) (n ∷ ns) =
    audit_row n (chunk_entry b index chunk) ∷ noted b (index + 1) rest ns
noted b index [] ns = []
noted b index (chunk ∷ rest) [] = []

write_chunks_ok :
    (p : Ports) (b : Run) (index : ℕ) (chunks : List (List Fields)) (r s : BulkUpdateResult)
    (w v : World)
    → write_chunks p b index chunks r w ≡ (ok s, v)
    → (v.calls ≡ w.calls ++ requests b.sobject b.auth.1 chunks)
      × (v.rates ≡ w.rates)
      × (s.total ≡ r.total)
      × ((ids : List ℕ) × (s.audit_ids ≡ r.audit_ids ++ ids)
          × (length ids ≡ length chunks)
          × (v.audit ≡ w.audit ++ noted b index chunks ids))
unfolding write_chunks
write_chunks_ok p b index [] r s w v h =
    let same : r ≡ s = cc in
    let still : w ≡ v = cc in
    (
      ap (λ (x : World). x.calls) (sym still) ∙ sym (append-nil w.calls),
      ap (λ (x : World). x.rates) (sym still),
      ap (λ (x : BulkUpdateResult). x.total) (sym same),
      (
        [],
        ap (λ (x : BulkUpdateResult). x.audit_ids) (sym same) ∙ sym (append-nil r.audit_ids),
        refl,
        ap (λ (x : World). x.audit) (sym still) ∙ sym (append-nil w.audit),
      ),
    )
write_chunks_ok p b index (chunk ∷ rest) r s w v h =
    let record_results : ℕ → List Fields → M BulkUpdateResult =
      λ i recs. write_chunks p b (index + 1) rest (add_records recs (with_audit i r)) in
    let (id, w1, e1, h1) =
      >>=-eq-ok (write_audit (chunk_entry b index chunk))
        (λ i. composite_patch p b.sobject chunk b.auth >>= record_results i) w h in
    let (body, w2, e2, h2) =
      >>=-eq-ok (composite_patch p b.sobject chunk b.auth) (record_results id) w1 h1 in
    let (calls, rates, kept_rows) = patched p b.sobject chunk b.auth w1 in
    let r' = add_records body (with_audit id r) in
    let (t, a, c) = add_records-counts body (with_audit id r) in
    let (calls', rates', t', (ids, listed, counts, rows)) =
      write_chunks_ok p b (index + 1) rest r' s w2 v h2 in
    let (calls1, rates1, rows1) = noted_one (chunk_entry b index chunk) w w1 id e1 in
    let call = composite_call b.sobject b.auth.1 chunk in
    let calls2 : w2.calls ≡ w.calls ++ call ∷ [] =
      ap (λ (x : Result (List Fields) × World). x.1.calls) (sym e2)
      ∙ calls
      ∙ ap (λ (x : List SfCall). x ++ call ∷ []) calls1 in
    let rates2 : w2.rates ≡ w1.rates =
      ap (λ (x : Result (List Fields) × World). x.1.rates) (sym e2) ∙ rates in
    let row = audit_row id (chunk_entry b index chunk) in
    let rows2 : w2.audit ≡ w.audit ++ row ∷ [] =
      ap (λ (x : Result (List Fields) × World). x.1.audit) (sym e2) ∙ kept_rows ∙ rows1 in
    (
      calls'
          ∙ ap (λ (x : List SfCall). x ++ requests b.sobject b.auth.1 rest) calls2
          ∙ append_assoc w.calls (call ∷ []) (requests b.sobject b.auth.1 rest),
      rates' ∙ rates2 ∙ rates1,
      t' ∙ t,
      (
        id ∷ ids,
        listed ∙ ap (λ (x : List ℕ). x ++ ids) a ∙ append_assoc r.audit_ids (id ∷ []) ids,
        ap suc counts,
        rows
            ∙ ap (λ (x : List Audit). x ++ noted b (index + 1) rest ids) rows2
            ∙ append_assoc w.audit (row ∷ []) (noted b (index + 1) rest ids),
      ),
    )

bucket_limit : limit_of rate_bucket ≡ some 500
unfolding limit_of
bucket_limit = refl

bucket_mode : resolved_mode rate_bucket none ≡ "hard"
unfolding resolved_mode is_soft_bucket
bucket_mode = refl

-- What the check of the daily limit leaves behind when it lets the run through.
rate_taken :
    (now n : ℕ) (w v : World)
    → IsKeyed w.rates
    → check_rate_limit now rate_bucket 86400 none w ≡ (ok n, v)
    → let t = window_of now 86400 in
      (count_at rate_bucket t v ≡ count_at rate_bucket t w + 1)
      × (v.calls ≡ w.calls)
      × (v.audit ≡ w.audit)
unfolding count_call
rate_taken now n w v keyed h =
    let t = window_of now 86400 in
    let here =
      check_hard now 86400 500 rate_bucket none w bucket_limit bucket_mode (omega arith) keyed in
    let (_, counts) = admitted_call 500 rate_bucket t w keyed in
    elim (Bool-cases (leb 500 (count_at rate_bucket t w))) [
      | inl full ↦
          let stop : ◌≡◌ {A = Result ℕ × World} (err rate_limit_exceeded, w) (ok n, v) =
            sym (here ∙ (rw full)) ∙ h in
          absurd (cc)
      | inr room ↦
          let go : ◌≡◌ {A = Result ℕ × World}
              (ok (count_at rate_bucket t w + 1), (count_call 500 false rate_bucket t w).1)
              (ok n, v) =
            sym (here ∙ (rw room)) ∙ h in
          let to : (count_call 500 false rate_bucket t w).1 ≡ v =
            ap (λ (x : Result ℕ × World). x.1) go in
          (
            ap (λ (x : World). count_at rate_bucket t x) (sym to)
                ∙ counts rate_bucket t
                ∙ ground (arith, eq_iff rate_bucket rate_bucket),
            ap (λ (x : World). x.calls) (sym to) ∙ ground arith,
            ap (λ (x : World). x.audit) (sym to) ∙ ground arith,
          )
    ]

permitted :
    (k : ℕ) (action : String) (w v : World) (g : Gate)
    → require_approved_gate (some k) action w ≡ (ok g, v)
    → Permits w (some k) action × (v ≡ w)
permitted k action w v g h = elim (require_cases (some k) action w) [
  | inl (why, e) ↦ absurd (cc)
  | inr (permit, (g', e)) ↦ (permit, ap (λ (x : Result Gate × World). x.1) (sym h ∙ e))
]

module _ (env : Env) (p : Ports) (now : ℕ) (agent sobject : String) (updates : List Fields) (k : ℕ)
    (w v : World) (r : BulkUpdateResult) where
  pub batch_written :
      IsKeyed w.rates
      → run_batch env p now agent sobject updates k false w ≡ (ok r, v)
      → let t = window_of now 86400 in
        Permits w (some k) (classify_bulk_update (length updates))
        × (r.total ≡ length updates)
        × (count_at rate_bucket t v ≡ count_at rate_bucket t w + 1)
        × ((before : Fields) × (auth : String × String) × (chunks : List (List Fields)) × (v.calls
              ≡ w.calls ++ requests sobject auth.1 chunks)
            × (flat chunks ≡ updates)
            × All (λ c. length c ≤ 200) chunks
            × (length r.audit_ids ≡ length chunks)
            × (v.audit
                ≡ w.audit ++ noted (run_of agent sobject k before auth) 0 chunks r.audit_ids))
  unfolding run_batch write_all
  batch_written keyed h =
      let gate = require_approved_gate (some k) (classify_bulk_update (length updates)) in
      let limited = check_rate_limit now rate_bucket 86400 none in
      let snapshot = fetch_before_snapshot p sobject (ids_of updates) (modified_fields updates) in
      let last : Fields → M BulkUpdateResult = write_all env p agent sobject updates k in
      let third : ℕ → M BulkUpdateResult = λ _. snapshot >>= last in
      let second : Gate → M BulkUpdateResult = λ _. limited >>= third in
      let (_, w1, e1, h1) = >>=-eq-ok (validate_updates updates) (λ _. gate >>= second) w h in
      let (g, w2, e2, h2) = >>=-eq-ok gate second w1 h1 in
      let (n, w3, e3, h3) = >>=-eq-ok limited third w2 h2 in
      let (before, w4, e4, h4) = >>=-eq-ok snapshot last w3 h3 in
      let b : (String × String) → Run = run_of agent sobject k before in
      let chunks = slices composite_chunk updates in
      let fresh = fresh_result sobject (length updates) before in
      let (auth, w5, e5, h5) =
        >>=-eq-ok (get_write_auth env p) (λ a. write_chunks p (b a) 0 chunks fresh) w4 h4 in
      let (calls, rates, total, (ids, listed, sized, rows)) =
        write_chunks_ok p (b auth) 0 chunks fresh r w5 v h5 in
      let same1 : w1 ≡ w =
        kept (λ x. x) (validate_updates updates) (validate-Reads updates) w w1 e1 in
      let (permit, same2) = permitted k (classify_bulk_update (length updates)) w1 w2 g e2 in
      let same4 : w4 ≡ w3 =
        kept (λ x. x) snapshot (fetch-Reads p sobject (ids_of updates) (modified_fields updates)) w3
          w4 e4 in
      let same5 : w5 ≡ w4 = kept (λ x. x) (get_write_auth env p) (auth-Reads env p) w4 w5 e5 in
      let start : w2 ≡ w = same2 ∙ same1 in
      let later : w5 ≡ w3 = same5 ∙ same4 in
      let (more, still, quiet) =
        rate_taken now n w2 w3 (subst (λ (x : World). IsKeyed x.rates) (sym start) keyed) e3 in
      (
        subst (λ (x : World). Permits x (some k) (classify_bulk_update (length updates))) same1
            permit,
        total,
        ap (λ (rs : List Rate). count_of (find_rate rate_bucket (window_of now 86400) rs))
              (rates ∙ ap (λ (x : World). x.rates) later)
            ∙ more
            ∙ ap (λ (x : World). count_at rate_bucket (window_of now 86400) x + 1) start,
        (
          before,
          auth,
          chunks,
          calls
              ∙ ap (λ (x : List SfCall). x ++ requests sobject auth.1 chunks)
                  (ap (λ (x : World). x.calls) later ∙ still ∙ ap (λ (x : World). x.calls) start),
          flat-slices composite_chunk updates (omega arith),
          slices-bounds composite_chunk updates,
          ap (λ (x : List ℕ). length x) listed ∙ sized,
          rows
              ∙ ap (λ (x : List Audit). x ++ noted (b auth) 0 chunks ids)
                  (ap (λ (x : World). x.audit) later ∙ quiet ∙ ap (λ (x : World). x.audit) start)
              ∙ ap (λ (x : List ℕ). w.audit ++ noted (b auth) 0 chunks x) (sym listed),
        ),
      )
