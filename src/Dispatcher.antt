-- ===== src/Dispatcher.antt =====
-- shared/slack_dispatcher.py: the approval buttons, the sender with its dev guard, and the personas.
pub mod Buttons
pub mod Guard
pub mod Commands
use loop_revops_agents.Base.{
  ℕ, ◌<◌, String, Bool, true, false, Option, none, some, List, [], ◌∷◌, ◌++◌, ◌&&◌, not, ltb,
  str_eq, lookup, contains, if◌then◌else◌,
}
use loop_revops_agents.Base.Table.{find_id}
use loop_revops_agents.World.{
  World, Message, Env, Result, ok, err, M, pure, raise, raise_if, ◌>>=◌, ◌>>◌, approval_required,
  cooling_down, slack_error,
}
use loop_revops_agents.World.Values.{Json, text, json_eq, null}
use loop_revops_agents.World.Rows.{Gate}
use loop_revops_agents.Governance.Gates.{decide_approval_gate}

-- `parent.get("cooldown_until") if parent else None`
abbrev pub cooldown_of_gate : Option Gate → Option ℕ
cooldown_of_gate none = none
cooldown_of_gate (some g) = g.cooldown_until

abbrev pub parent_of : Option Gate → Option ℕ
parent_of none = none
parent_of (some g) = g.parent_gate_id

-- `datetime.now(timezone.utc) < cooldown_until`, where there is a cooldown.
abbrev pub is_cooling : ℕ → Option ℕ → Bool
is_cooling now none = false
is_cooling now (some until) = ltb now until

-- The guard of an approval: whether the gate has a parent whose cooldown still runs. The keys of
-- the table start at 1, so every parent's key is truthy.
abbrev pub cooling_parent : ℕ → Option ℕ → World → Bool
cooling_parent now none w = false
cooling_parent now (some parent_id) w =
    is_cooling now (cooldown_of_gate (find_id (λ g. g.id) parent_id w.gates))

unfoldable pub handle_gate_decision : ℕ → ℕ → Bool → String → M (Unit {0})
handle_gate_decision now gate_id yes_vote approver w =
    let parent = parent_of (find_id (λ g. g.id) gate_id w.gates) in
    if yes_vote && cooling_parent now parent w
    then (err (approval_required cooling_down), w)
    else decide_approval_gate now gate_id yes_vote approver w

-- `get_config(name, default)`
abbrev pub config_with : (String → Option String) → String → String → String
config_with config name default = elim (config name) [ none ↦ default | some v ↦ v ]

unfoldable pub dev_guard_blocks : (String → Option String) → Json → Bool
dev_guard_blocks config target =
    let allowed = config_with config "SLACK_TEST_CHANNEL" "" in
    if not (str_eq (config_with config "SLACK_DEV_GUARD" "1") "1")
    then false
    else not (str_eq allowed "") && not (json_eq target (text allowed))

unfoldable pub dev_guard_redirect_target : (String → Option String) → Option String
dev_guard_redirect_target config =
    let target = config_with config "SLACK_TEST_CHANNEL" "" in
    if not (str_eq (config_with config "SLACK_DEV_GUARD" "1") "1")
    then none
    else if str_eq target ""
    then none
    else some target

-- The channel that a message goes to: the test channel, where the guard blocks.
unfoldable pub channel_for : (String → Option String) → Json → Json
unfolding dev_guard_blocks dev_guard_redirect_target
channel_for config channel =
    elim (if dev_guard_blocks config channel then dev_guard_redirect_target config else none) [
      | none ↦ channel
      | some target ↦ text target
    ]

-- `SlackSender.send`: the client takes the message, or raises.
unfoldable pub send : Env → Json → Option ℕ → M (Unit {0})
send env channel gate_id w =
    let m : Message = record { channel = channel_for env.config channel; gate_id = gate_id } in
    if env.slack w.sent m
    then (ok tt, record w { sent = w.sent ++ m ∷ [] })
    else (err slack_error, w)

abbrev persona_aliases : List (String × String)
persona_aliases =
    ("outbounder", "top_of_funnel")
    ∷ ("closer", "sales_reps")
    ∷ ("onboarder", "onboarding")
    ∷ ("supporter", "cs")
    ∷ ("admin", "revops_support")
    ∷ ("urkel", "slt_metrics")
    ∷ []

-- `PERSONA_ALIASES.get(word, word)`
unfoldable pub canonical : String → String
canonical word = elim (lookup word persona_aliases) [ none ↦ word | some name ↦ name ]
