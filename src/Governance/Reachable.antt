-- ===== src/Governance/Reachable.antt =====
-- Lawfulness of the gates is kept by every operation on them, and what follows for the tiers.
use mathlib.Core.Option
use loop_revops_agents.Base.{
  ℕ, ◌≡◌, refl, sym, ap, subst, ℕ_discrete, ◌&&◌, ◌∙◌, String, Bool, true, Option, none, some, List,
  [], ◌∷◌, ◌++◌, arith, Bool-cases, inl, inr,
}
use loop_revops_agents.Base.Table.{next_id}
use loop_revops_agents.World.{World}
use loop_revops_agents.World.Rows.{
  Gate, Decision, Status, pending, approved, approved_primary, rejected,
}
use loop_revops_agents.Governance.Tiers.{Tier, tier_of, demands_justification}
use loop_revops_agents.Governance.Gates.{
  Request, new_gate, insert_gate, create_approval_gate, decide_approval_gate, any_reject,
  distinct_yes, ruling, rule_row, Ruling, settle, wait_more, is_pending, is_blank,
}
use loop_revops_agents.Governance.Lawful.{
  gate_at, Standing, IsLawful, AllLawful, Sound, ruling-Sound,
}
use loop_revops_agents.Governance.Decide.{
  voted, gate-decide_self, gate-decide_ne, gate-insert_cases,
}

pending_votes :
    (s : Status) (t : Option Tier) (decided cooldown : Option ℕ) (votes : List Decision)
    → is_pending s ≡ true
    → Standing s t decided cooldown votes
    → Standing pending t none none votes
pending_votes pending t decided cooldown votes p (a, b, c, d) = (a, b, c, refl)
pending_votes approved t decided cooldown votes p h = absurd (cc)
pending_votes approved_primary t decided cooldown votes p h = absurd (cc)
pending_votes rejected t decided cooldown votes p h = absurd (cc)

still_pending :
    (s : Status) (t : Option Tier) (d e c : Option ℕ) (earlier votes : List Decision)
    → is_pending s ≡ true
    → Standing s t d c earlier
    → Standing pending t e none votes
    → Standing s t e c votes
still_pending pending t d e c earlier votes p h k = (k.0, k.1, k.2, h.3)
still_pending approved t d e c earlier votes p h k = absurd (cc)
still_pending approved_primary t d e c earlier votes p h k = absurd (cc)
still_pending rejected t d e c earlier votes p h k = absurd (cc)

rule_row-IsLawful :
    (now : ℕ) (a : String) (votes : List Decision) (r : Ruling) (g : Gate)
    → is_pending g.status ≡ true
    → IsLawful g
    → Sound r (tier_of g.action_type) now votes
    → IsLawful (rule_row now a votes r g)
rule_row-IsLawful now a votes (settle s c) g p l h = h
rule_row-IsLawful now a votes wait_more g p l h =
    still_pending g.status (tier_of g.action_type) g.decided_at (some now) g.cooldown_until
      g.approvals votes p l h

-- A vote keeps a row lawful.
pub voted-IsLawful :
    (now : ℕ) (yes_vote : Bool) (a : String) (g : Gate)
    → IsLawful g
    → IsLawful (voted now yes_vote a g)
voted-IsLawful now yes_vote a g l = elim (Bool-cases (is_pending g.status)) [
  | inl p ↦
      let d : Decision = record { approver = a; approved = yes_vote; decided_at = now } in
      let votes = g.approvals ++ d ∷ [] in
      rw p (
        rule_row-IsLawful now a votes (ruling (tier_of g.action_type) now yes_vote votes) g p l (
          ruling-Sound (tier_of g.action_type) now yes_vote g.approvals d refl (
            pending_votes g.status (tier_of g.action_type) g.decided_at g.cooldown_until g.approvals
              p l)))
  | inr q ↦ rw q l
]

pub map-some :
    (f : Gate → Gate) (o : Option Gate) (g : Gate)
    → Option.map f o ≡ some g
    → (x : Gate) × (o ≡ some x) × (f x ≡ g)
map-some f none g h = absurd (cc)
map-some f (some x) g h = (x, refl, cc)

-- Every vote, by whomever and on whatever gate, keeps all gates lawful.
pub decide-AllLawful :
    (now k : ℕ) (yes_vote : Bool) (approver : String) (w : World)
    → AllLawful w
    → AllLawful (decide_approval_gate now k yes_vote approver w).1
decide-AllLawful now k yes_vote approver w all j g e = elim (ℕ_discrete j k) [
  | yes same ↦
      let (x, found, changed) = map-some (voted now yes_vote approver) (gate_at k w) g (
        sym (gate-decide_self now k yes_vote approver w)
        ∙ ap (λ (n : ℕ). gate_at n (decide_approval_gate now k yes_vote approver w).1) (sym same)
        ∙ e) in
      subst IsLawful changed (voted-IsLawful now yes_vote approver x (all k x found))
  | no other ↦ all j g (sym (gate-decide_ne now k j yes_vote approver w other) ∙ e)
]

new_gate-IsLawful : (now : ℕ) (r : Request) (k : ℕ) → IsLawful (new_gate now r k)
unfolding any_reject distinct_yes
new_gate-IsLawful now r k = (refl, λ _. refl, omega arith, refl)

pub insert-AllLawful :
    (now : ℕ) (r : Request) (w : World) → AllLawful w → AllLawful (insert_gate now r w).1
insert-AllLawful now r w all j g e = elim (gate-insert_cases now j r w g e) [
  | inl old ↦ all j g old
  | inr (_, new) ↦ subst IsLawful new (new_gate-IsLawful now r (next_id (λ x. x.id) w.gates))
]

-- Opening a gate, or failing to, keeps all gates lawful.
pub create-AllLawful :
    (now : ℕ) (r : Request) (w : World) → AllLawful w → AllLawful (create_approval_gate now r w).1
unfolding create_approval_gate
create-AllLawful now r w all =
    elim (Bool-cases (demands_justification (tier_of r.action_type) && is_blank r.justification)) [
      | inl refused ↦ rw refused all
      | inr fine ↦ rw fine (insert-AllLawful now r w all)
    ]
