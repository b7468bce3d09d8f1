-- ===== src/Cooldown.antt =====
-- agents/revops_support/schema/cooldown_poller.py: the poller that opens the confirmation gates.
pub mod Elevate
pub mod Idempotent
use loop_revops_agents.Base.{
  ℕ, ◌+◌, ◌≤◌, String, Bool, true, false, Option, none, some, List, [], ◌∷◌, ◌++◌, ◌&&◌, ◌||◌, not,
  leb, ◌==◌, str_eq, select, if◌then◌else◌,
}
use loop_revops_agents.Base.Table.{update_id}
use loop_revops_agents.World.{World, Env, Result, ok, M, pure, ◌>>=◌, ◌>>◌}
use loop_revops_agents.World.Values.{put, number, text}
use loop_revops_agents.World.Rows.{Gate, Status, pending, approved, approved_primary, rejected}
use loop_revops_agents.Governance.Gates.{Request, create_approval_gate}
use loop_revops_agents.Dispatcher.{send}

abbrev pub confirmation_action : String
confirmation_action = "sf_schema_delete_confirm"

abbrev pub confirmation_ttl_hours : ℕ
confirmation_ttl_hours = 24

abbrev pub is_primary : Status → Bool
is_primary approved_primary = true
is_primary _ = false

abbrev pub elapsed : ℕ → Option ℕ → Bool
elapsed now none = false
elapsed now (some until) = leb until now

abbrev pub is_child : ℕ → Gate → Bool
is_child parent c =
    elim c.parent_gate_id [ none ↦ false | some p ↦ p == parent ]
    && str_eq c.action_type confirmation_action

-- `EXISTS (SELECT 1 FROM approval_gates c WHERE c.parent_gate_id = g.id AND …)`
unfoldable pub has_child : ℕ → List Gate → Bool
has_child parent [] = false
has_child parent (c ∷ cs) = is_child parent c || has_child parent cs

abbrev pub is_ready : ℕ → List Gate → Gate → Bool
is_ready now gates g =
    is_primary g.status && elapsed now g.cooldown_until && not (has_child g.id gates)

-- `ORDER BY g.id`: the rows stand in the order of their keys.
abbrev pub find_ready_primaries : ℕ → World → List Gate
find_ready_primaries now w = select (is_ready now w.gates) w.gates

abbrev pub with_parent : ℕ → Gate → Gate
with_parent parent g = record g { parent_gate_id = some parent }

unfoldable pub set_parent : ℕ → ℕ → M (Unit {0})
set_parent child parent w =
    (ok tt, record w { gates = update_id (λ g. g.id) child (with_parent parent) w.gates })

-- The Slack message; what the client raises is logged and dropped.
abbrev pub post_confirmation_slack : Env → M (Unit {0})
post_confirmation_slack env w = (ok tt, (send env (text "oo-dm") none w).1)

abbrev pub confirmation_request : Gate → Request
confirmation_request parent = record {
  agent_name = parent.agent_name;
  action_type = confirmation_action;
  payload = put "parent_gate_id" (number parent.id) parent.payload;
  justification = parent.justification;
  requested_by = "cooldown_poller";
  ttl_hours = confirmation_ttl_hours;
}

-- One round of the loop of `poll`.
unfoldable pub elevate : Env → ℕ → Gate → M ℕ
unfolding set_parent
elevate env now parent = do
  child ← create_approval_gate now (confirmation_request parent)
  set_parent child parent.id
  post_confirmation_slack env
  pure child

-- The pairs of a parent's and its child's key.
unfoldable pub elevate_all : Env → ℕ → List Gate → M (List (ℕ × ℕ))
elevate_all env now [] = pure []
elevate_all env now (g ∷ gs) = do
  child ← elevate env now g
  rest ← elevate_all env now gs
  pure ((g.id, child) ∷ rest)

-- The tier of `confirmation_action` is in the table, so the test for it never raises.
unfoldable pub poll : Env → ℕ → M (List (ℕ × ℕ))
poll env now w = elevate_all env now (find_ready_primaries now w) w
