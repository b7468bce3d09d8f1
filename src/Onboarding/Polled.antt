-- ===== src/Onboarding/Polled.antt =====
-- What a poll of the closed-won opportunities reports.
use loop_revops_agents.Base.{
  ℕ, ◌+◌, ◌≡◌, refl, ◌∙◌, String, none, some, List, [], ◌∷◌, arith, All, length, length-snoc,
  Bool-cases, inl, inr,
}
use loop_revops_agents.World.{World, Env, Error, Result, ok, err, M}
use loop_revops_agents.World.Values.{Json, Fields, find_field}
use loop_revops_agents.Base.Table.{next_id}
use loop_revops_agents.World.Runs.{Run}
use loop_revops_agents.Governance.Gates.{write_audit}
use loop_revops_agents.Runs.{open_run, close_run}
use loop_revops_agents.Onboarding.ClosedWon.{
  Soql, Strategy, strategy_a, strategy_b, Outcome, created, skipped, Summary, detect_dedup_strategy,
  last_poll_time, select_candidates, process, add_error, failure_entry, is_refusal, account_for,
  process_one, process_all, flag_schema_gap_task, flag_if, fresh_summary, poll_body,
  poll_closed_won, has_task, schema_gap_source,
}

-- How many opportunities a summary accounts for.
abbrev pub accounted : Summary → ℕ
accounted s = s.created_count + s.skipped_count + length s.errors

-- An opportunity with a key.
abbrev pub HasId : Fields → Type 0
HasId opp = (i : Json) × (find_field "Id" opp ≡ some i)

-- The action returns a summary that accounts for `n` more opportunities than `s`.
abbrev pub Counts : Summary → ℕ → M Summary → World → Type 0
Counts s n m w =
    (s' : Summary) × (v : World) × (m w ≡ (ok s', v))
    × (s'.candidates ≡ s.candidates)
    × (accounted s' ≡ accounted s + n)

account_for-Counts :
    (message : Error → String) (run_id : ℕ) (opp : Fields) (s : Summary) (r : Result Outcome)
    (w : World)
    → HasId opp
    → Counts s 1 (account_for message run_id opp s r) w
unfolding write_audit
account_for-Counts message run_id opp s (ok created) w named = (_, w, refl, refl, omega arith)
account_for-Counts message run_id opp s (ok skipped) w named = (_, w, refl, refl, omega arith)
account_for-Counts message run_id opp s (err e) w (i, named) =
    let done = add_error i s in
    let more : accounted done ≡ accounted s + 1 = omega (arith, length-snoc s.errors i) in
    elim (Bool-cases (is_refusal e)) [
      | inl refusal ↦ (done, w, rw (named, refusal), refl, more)
      | inr other ↦ (
        done,
        (write_audit (failure_entry message run_id i e) w).1,
        rw (named, other),
        refl,
        more,
      )
    ]

process_one-Counts :
    (env : Env) (soql : Soql) (message : Error → String) (now run_id : ℕ) (opp : Fields)
    (s : Summary) (w : World)
    → HasId opp
    → Counts s 1 (process_one env soql message now run_id opp s) w
process_one-Counts env soql message now run_id opp s w named =
    let (r, v) = process env soql now opp w in account_for-Counts message run_id opp s r v named

-- Once the candidates are there, no opportunity stops the loop: it always returns, and counts each
-- of them as created, skipped or an error.
pub process_all_lem :
    (env : Env) (soql : Soql) (message : Error → String) (now run_id : ℕ) (opps : List Fields)
    (s : Summary) (w : World)
    → All HasId opps
    → Counts s (length opps) (process_all env soql message now run_id opps s) w
unfolding process_all
process_all_lem env soql message now run_id [] s w named = (s, w, refl, refl, omega arith)
process_all_lem env soql message now run_id (opp ∷ opps) s w (named, rest) =
    let (s1, v1, e1, same1, more1) = process_one-Counts env soql message now run_id opp s w named in
    let (s2, v2, e2, same2, more2) = process_all_lem env soql message now run_id opps s1 v1 rest in
    (s2, v2, rw (e1, e2), same2 ∙ same1, omega (arith, more1, more2))

flag_if-ok : (st : Strategy) (w : World) → (flag_if st w).0 ≡ ok tt
unfolding flag_schema_gap_task
flag_if-ok strategy_a w = refl
flag_if-ok strategy_b w = elim (Bool-cases (has_task schema_gap_source w.tasks)) [
  | inl there ↦ rw there refl
  | inr missing ↦ rw missing refl
]

-- Where the queries of a poll give the opportunities `opps`, each with a key, the poll returns: the
-- summary counts each of them exactly once, as created, skipped or an error, whatever goes wrong
-- with the gates, the org or Slack on the way.
pub poll_closed_won_lem :
    (env : Env) (soql : Soql) (message : Error → String) (now : ℕ) (w : World) (st : Strategy)
    (opps : List Fields)
    → let w1 =
        (open_run "onboarding" "cron:onboarding-closed-won-poller" none "in_progress" now w).1 in
      detect_dedup_strategy soql w1 ≡ (ok st, w1)
      → select_candidates soql st (last_poll_time now w1.runs) w1 ≡ (ok opps, w1)
      → All HasId opps
      → (s : Summary) × (v : World) × (poll_closed_won env soql message now w ≡ (ok s, v))
        × (s.candidates ≡ length opps)
        × (s.created_count + s.skipped_count + length s.errors ≡ length opps)
unfolding poll_closed_won poll_body open_run close_run
poll_closed_won_lem env soql message now w st opps probed selected named =
    let (run_id, w1) =
      open_run "onboarding" "cron:onboarding-closed-won-poller" none "in_progress" now w in
    let k = next_id (λ (r : Run). r.id) w.runs in
    let fresh = fresh_summary (length opps) in
    let (s, v, done, same, more) =
      process_all_lem env soql message now k opps fresh (flag_if st w1).1 named in
    (
      s,
      (close_run now k "completed" none v).1,
      rw (probed, selected, flag_if-ok st w1, done),
      same,
      omega (arith, more),
    )
