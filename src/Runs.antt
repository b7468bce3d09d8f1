-- ===== src/Runs.antt =====
-- The rows of agent_runs: the run wrapper of shared/agent_base.py, and the helpers of the closed-won
-- poller in agents/onboarding/closed_won_poller.py. The handler and its triggers are parameters, and
-- so is `json.dumps`, whose `none` is the TypeError of a value that is not JSON.
pub mod Closed
use loop_revops_agents.Base.{ℕ, String, Option, none, some, List, [], ◌∷◌, ◌++◌}
use loop_revops_agents.Base.Table.{next_id, update_id}
use loop_revops_agents.Base.Texts.{take_text}
use loop_revops_agents.World.{
  World, Error, Result, ok, err, M, pure, raise, ◌>>=◌, ◌>>◌, type_error,
}
use loop_revops_agents.World.Runs.{Run}

-- The row that an INSERT adds: `status` is what the caller names a run that goes on.
abbrev pub new_run : String → String → Option String → String → ℕ → ℕ → Run
new_run agent_name trigger input status now run_id = record {
  id = run_id;
  agent_name = agent_name;
  trigger = trigger;
  input = input;
  status = status;
  started_at = now;
  completed_at = none;
  output = none;
  error_message = none;
}

unfoldable pub open_run : String → String → Option String → String → ℕ → M ℕ
open_run agent_name trigger input status now w =
    let run_id = next_id (λ r. r.id) w.runs in
    (
      ok run_id,
      record w { runs = w.runs ++ new_run agent_name trigger input status now run_id ∷ [] },
    )

abbrev closed_run : ℕ → String → Option String → Run → Run
closed_run now status error r = record r {
  status = status;
  completed_at = some now;
  error_message = error;
}

-- The poller's `_finish_run`.
unfoldable pub close_run : ℕ → ℕ → String → Option String → M (Unit {0})
close_run now run_id status error w =
    (ok tt, record w { runs = update_id (λ r. r.id) run_id (closed_run now status error) w.runs })

-- A value as `json.dumps(value)[:4000]`.
abbrev pub column_of : Option String → M String
column_of none = raise type_error
column_of (some s) = pure (take_text 4000 s)

-- `LoopAgent._start_run`, at the answer of `json.dumps(payload)`.
unfoldable pub start_run : String → String → Option String → ℕ → M ℕ
unfolding open_run
start_run name trigger payload now = do
  input ← column_of payload
  open_run name trigger (some input) "running" now

abbrev pub finished_run : ℕ → String → Option String → Option String → Run → Run
finished_run later status output error r = record r {
  status = status;
  completed_at = some later;
  output = output;
  error_message = error;
}

-- The UPDATE of `LoopAgent._finish_run`.
unfoldable pub write_finish : ℕ → ℕ → String → Option String → Option String → M (Unit {0})
write_finish later run_id status output error w = (
  ok tt,
  record w { runs = update_id (λ r. r.id) run_id (finished_run later status output error) w.runs },
)

-- `LoopAgent._finish_run`, at the answer of `json.dumps(output)`, or at `none` where the output is
-- None. `later` is the clock then.
abbrev pub finish_run : ℕ → ℕ → String → Option (Option String) → Option String → M (Unit {0})
finish_run later run_id status none error = write_finish later run_id status none error
finish_run later run_id status (some dumped) error = do
  output ← column_of dumped
  write_finish later run_id status (some output) error

-- The `try` of `LoopAgent.run`, from the handler's answer on.
abbrev pub give_back : {A : Type 0} → (A → Option (Option String)) → ℕ → ℕ → Result A → M A
give_back dumps later run_id (ok a) = do finish_run later run_id "success" (dumps a) none; pure a
give_back dumps later run_id (err e) = raise e

-- The `except` of `LoopAgent.run`.
abbrev pub or_record : {A : Type 0} → (Error → String) → ℕ → ℕ → Result A → M A
or_record message later run_id (ok a) = pure a
or_record message later run_id (err e) = do
  finish_run later run_id "error" none (some (message e))
  raise e

-- `LoopAgent.run`: an exception of the handler, or of the row for its output, is recorded and raised
-- again.
unfoldable pub run :
    {A : Type 0}
    → (Error → String)
    → (A → Option (Option String))
    → String
    → String
    → Option String
    → ℕ
    → ℕ
    → M A
    → M A
unfolding start_run
run message dumps name trigger payload now later handle = do
  run_id ← start_run name trigger payload now
  λ w.
      let (result, w') = handle w in
      let (result', w'') = give_back dumps later run_id result w' in
      or_record message later run_id result' w''
