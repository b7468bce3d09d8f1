-- ===== src/Governance/Decide.antt =====
-- `decide_approval_gate` and `create_approval_gate` of shared/governance.py, as changes of the rows
-- that `get_approval_gate` reads.
use mathlib.Core.Option
use loop_revops_agents.Base.{
  ℕ, ◌≡◌, ◌≢◌, ◌⊎◌, ap, ◌∙◌, List, String, Bool, true, some, [], ◌∷◌, ◌++◌, arith, Bool-cases,
  Option-cases, inl, inr,
}
use loop_revops_agents.Base.Table.{
  next_id, find_id, update_id, find_id-next_id, find_id-append, find_id-append_cases,
  find_id-append_old, find_id-update_self, find_id-update_ne,
}
use loop_revops_agents.World.{World}
use loop_revops_agents.World.Rows.{Gate, Decision}
use loop_revops_agents.Governance.Tiers.{tier_of}
use loop_revops_agents.Governance.Gates.{
  Request, new_gate, insert_gate, decide_approval_gate, write_audit, ruling, rule_row, Ruling,
  settle, wait_more, where_pending, is_pending,
}
use loop_revops_agents.Governance.Lawful.{gate_at}

-- What one vote makes of a row: nothing, unless the row is pending.
abbrev pub voted : ℕ → Bool → String → Gate → Gate
voted now yes_vote approver g =
    let votes =
      g.approvals ++ record { approver = approver; approved = yes_vote; decided_at = now } ∷ [] in
    where_pending (rule_row now approver votes (ruling (tier_of g.action_type) now yes_vote votes))
      g

rule_row-id :
    (now : ℕ) (a : String) (ds : List Decision) (r : Ruling) (x : Gate)
    → (where_pending (rule_row now a ds r) x).id ≡ x.id
rule_row-id now a ds (settle s c) x = ground arith
rule_row-id now a ds wait_more x = ground arith

find_id-ruled :
    (now k : ℕ) (yes_vote : Bool) (a : String) (g : Gate) (gates : List Gate)
    → find_id (λ x. x.id) k gates ≡ some g
    → is_pending g.status ≡ true
    → let votes =
        g.approvals ++ record { approver = a; approved = yes_vote; decided_at = now } ∷ [] in
      find_id
        (λ x. x.id)
        k
        (update_id
          (λ x. x.id)
          k
          (where_pending (rule_row now a votes (ruling (tier_of g.action_type) now yes_vote votes)))
          gates)
      ≡ some (rule_row now a votes (ruling (tier_of g.action_type) now yes_vote votes) g)
find_id-ruled now k yes_vote a g gates e p =
    let votes =
      g.approvals ++ record { approver = a; approved = yes_vote; decided_at = now } ∷ [] in
    let r = ruling (tier_of g.action_type) now yes_vote votes in
    find_id-update_self (λ x. x.id) k (where_pending (rule_row now a votes r)) gates
      (rule_row-id now a votes r)
    ∙ ap (Option.map (where_pending (rule_row now a votes r))) e
    ∙ (rw p)

-- The row that a vote is cast on becomes `voted`.
pub gate-decide_self :
    (now k : ℕ) (yes_vote : Bool) (approver : String) (w : World)
    → gate_at k (decide_approval_gate now k yes_vote approver w).1
      ≡ Option.map (voted now yes_vote approver) (gate_at k w)
unfolding decide_approval_gate write_audit
gate-decide_self now k yes_vote approver w = elim (Option-cases (gate_at k w)) [
  | inl e ↦ rw (e, e)
  | inr (g, e) ↦ elim (Bool-cases (is_pending g.status)) [
    | inl p ↦ rw (e, p) (find_id-ruled now k yes_vote approver g w.gates e p)
    | inr q ↦ rw (e, q) e
  ]
]

-- No other row changes.
pub gate-decide_ne :
    (now k j : ℕ) (yes_vote : Bool) (approver : String) (w : World)
    → j ≢ k
    → gate_at j (decide_approval_gate now k yes_vote approver w).1 ≡ gate_at j w
unfolding decide_approval_gate write_audit
gate-decide_ne now k j yes_vote approver w ne = elim (Option-cases (gate_at k w)) [
  | inl e ↦ rw e
  | inr (g, e) ↦ elim (Bool-cases (is_pending g.status)) [
    | inl p ↦
        let votes =
          g.approvals
          ++ record { approver = approver; approved = yes_vote; decided_at = now } ∷ [] in
        let r = ruling (tier_of g.action_type) now yes_vote votes in
        rw (e, p)
          (find_id-update_ne (λ x. x.id) j k (where_pending (rule_row now approver votes r)) w.gates
            (rule_row-id now approver votes r) ne)
    | inr q ↦ rw (e, q)
  ]
]

-- After an insertion a gate is one that was there, or the new one.
pub gate-insert_cases :
    (now j : ℕ) (r : Request) (w : World) (g : Gate)
    → gate_at j (insert_gate now r w).1 ≡ some g
    → (gate_at j w ≡ some g)
      ⊎ ((next_id (λ x. x.id) w.gates ≡ j) × (new_gate now r (next_id (λ x. x.id) w.gates) ≡ g))
gate-insert_cases now j r w g h =
    find_id-append_cases (λ x. x.id) j w.gates (new_gate now r (next_id (λ x. x.id) w.gates)) g h

-- The new gate is found under the key that is returned.
pub gate-insert_self :
    (now : ℕ) (r : Request) (w : World)
    → gate_at (next_id (λ x. x.id) w.gates) (insert_gate now r w).1
      ≡ some (new_gate now r (next_id (λ x. x.id) w.gates))
gate-insert_self now r w =
    let n = next_id (λ (x : Gate). x.id) w.gates in
    rw
      (find_id-append (λ x. x.id) n w.gates (new_gate now r n), find_id-next_id (λ x. x.id) w.gates)
      (ground arith)

-- A gate that was there is there still.
pub gate-insert_old :
    (now j : ℕ) (r : Request) (w : World) (g : Gate)
    → gate_at j w ≡ some g
    → gate_at j (insert_gate now r w).1 ≡ some g
gate-insert_old now j r w g h =
    find_id-append_old (λ x. x.id) j w.gates (new_gate now r (next_id (λ x. x.id) w.gates)) g h
