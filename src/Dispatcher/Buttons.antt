-- ===== src/Dispatcher/Buttons.antt =====
-- An approval button cannot take effect while the parent gate cools down; any other press is a vote.
use loop_revops_agents.Base.{
  ℕ, ◌≤◌, ◌<◌, ◌≡◌, refl, String, Bool, true, false, some, arith, Bool-cases, inl, inr, ◌&&◌,
}
use loop_revops_agents.World.{World, err, approval_required, cooling_down}
use loop_revops_agents.World.Rows.{Gate}
use loop_revops_agents.Governance.Gates.{decide_approval_gate}
use loop_revops_agents.Governance.Lawful.{gate_at, AllLawful}
use loop_revops_agents.Governance.Reachable.{decide-AllLawful}
use loop_revops_agents.Dispatcher.{handle_gate_decision, cooling_parent, parent_of}

-- Before the parent's cooldown has elapsed an approval raises and changes nothing; from then on it
-- is an ordinary vote. A rejection is an ordinary vote at any time.
pub button_waits :
    (now gate_id parent_id until : ℕ) (approver : String) (w : World) (g p : Gate)
    → gate_at gate_id w ≡ some g
    → g.parent_gate_id ≡ some parent_id
    → gate_at parent_id w ≡ some p
    → p.cooldown_until ≡ some until
    → (now < until
        → handle_gate_decision now gate_id true approver w
          ≡ (err (approval_required cooling_down), w))
      × (until ≤ now
          → handle_gate_decision now gate_id true approver w
            ≡ decide_approval_gate now gate_id true approver w)
      × (handle_gate_decision now gate_id false approver w
          ≡ decide_approval_gate now gate_id false approver w)
unfolding handle_gate_decision
button_waits now gate_id parent_id until approver w g p found parent there cools = (
  λ early. rw (found, parent, there, cools) (ground arith),
  λ late. rw (found, parent, there, cools) (ground arith),
  refl,
)

pub handle_gate_decision-AllLawful :
    (now gate_id : ℕ) (yes_vote : Bool) (approver : String) (w : World)
    → AllLawful w
    → AllLawful (handle_gate_decision now gate_id yes_vote approver w).1
unfolding handle_gate_decision
handle_gate_decision-AllLawful now gate_id yes_vote approver w all =
    elim (Bool-cases (yes_vote && cooling_parent now (parent_of (gate_at gate_id w)) w)) [
      | inl waits ↦ rw waits all
      | inr goes ↦ rw goes (decide-AllLawful now gate_id yes_vote approver w all)
    ]
