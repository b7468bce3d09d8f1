-- ===== src/Governance/Votes.antt =====
-- What votes amount to: finality, the two approvers of a dual gate, the gates that never become
-- approved, and what `require_approved_gate` lets through.
use mathlib.Core.Option
use loop_revops_agents.Base.{
  ℕ, ◌≤◌, ◌<◌, ◌≡◌, ◌≢◌, ◌↔◌, refl, ap, subst, ◌∙◌, String, Bool, true, false, none, some, List, [],
  ◌∷◌, ◌++◌, ◌&&◌, not, arith, eq_iff, Bool-cases, inl, inr, Option, Option-cases, str_eq, ◌⊎◌,
}
use loop_revops_agents.World.{
  World, ok, err, approval_required, Refusal, no_gate_id, unknown_gate, wrong_status, wrong_action,
}
use loop_revops_agents.World.Rows.{Gate, Decision, pending, approved}
use loop_revops_agents.Governance.Tiers.{tier_of, is_dual, cooldown_of}
use loop_revops_agents.Governance.Gates.{
  decide_approval_gate, require_approved_gate, any_reject, has_yes, distinct_yes, ruling,
  is_approved,
}
use loop_revops_agents.Governance.Lawful.{gate_at, Standing, IsLawful, AllLawful}
use loop_revops_agents.Governance.Decide.{voted, gate-decide_self}

-- A vote on a gate that is not pending changes nothing at all, not even the audit log.
pub decide_settled :
    (now k : ℕ) (yes_vote : Bool) (approver : String) (w : World) (g : Gate)
    → gate_at k w ≡ some g
    → g.status ≢ pending
    → decide_approval_gate now k yes_vote approver w ≡ (ok tt, w)
unfolding decide_approval_gate
decide_settled now k yes_vote approver w g e settled = rw e (ground arith)

has_yes-head :
    (d : Decision) (ds : List Decision) → d.approved ≡ true → has_yes d.approver (d ∷ ds) ≡ true
unfolding has_yes
has_yes-head d ds h = ground (arith, eq_iff d.approver d.approver)

has_yes-tail :
    (a : String) (d : Decision) (ds : List Decision)
    → has_yes a ds ≡ true
    → has_yes a (d ∷ ds) ≡ true
unfolding has_yes
has_yes-tail a d ds h = ground arith

one_person :
    (votes : List Decision) → 1 ≤ distinct_yes votes → (a : String) × (has_yes a votes ≡ true)
unfolding distinct_yes
one_person [] h = absurd (omega arith)
one_person (d ∷ ds) h = elim (Bool-cases d.approved) [
  | inl agreed ↦ (d.approver, has_yes-head d ds agreed)
  | inr refused ↦ let (a, said) = one_person ds (ground arith) in (a, has_yes-tail a d ds said)
]

-- Where two or more distinct people have approved, two different names are on record.
pub two_people :
    (votes : List Decision)
    → 2 ≤ distinct_yes votes
    → (a b : String) × (a ≢ b) × (has_yes a votes ≡ true) × (has_yes b votes ≡ true)
unfolding distinct_yes
two_people [] h = absurd (omega arith)
two_people (d ∷ ds) h = elim (Bool-cases (d.approved && not (has_yes d.approver ds))) [
  | inl new ↦
      let (b, said) = one_person ds (ground arith) in
      let agreed : d.approved ≡ true = ground arith in
      let unsaid : has_yes d.approver ds ≡ false = ground arith in
      (
        d.approver,
        b,
        λ same. absurd (cc (ap (λ (x : String). has_yes x ds) same)),
        has_yes-head d ds agreed,
        has_yes-tail b d ds said,
      )
  | inr old ↦
      let (a, b, ne, sa, sb) = two_people ds (ground arith) in
      (a, b, ne, has_yes-tail a d ds sa, has_yes-tail b d ds sb)
]

-- What is let through.
pub require_iff :
    (k : ℕ) (action : String) (w : World) (g : Gate)
    → (require_approved_gate (some k) action w ≡ (ok g, w))
      ↔ ((gate_at k w ≡ some g) × (g.status ≡ approved) × (g.action_type ≡ action))
unfolding require_approved_gate
require_iff k action w g = (
  λ h. ground (arith, eq_iff g.action_type action),
  λ h. ground (arith, eq_iff g.action_type action),
)

-- `require_approved_gate` returns a gate exactly if it is there under the given key, approved and
-- of the given action type; in every other case, a missing key included, it raises
-- ApprovalRequired. It never changes the world.
pub require_lem :
    (key : Option ℕ) (action : String) (w : World)
    → ((k : ℕ) (g : Gate)
        → (require_approved_gate (some k) action w ≡ (ok g, w))
          ↔ ((gate_at k w ≡ some g) × (g.status ≡ approved) × (g.action_type ≡ action)))
      × (((g : Gate) × (require_approved_gate key action w ≡ (ok g, w)))
          ⊎ ((why : Refusal) × (require_approved_gate key action w
                ≡ (err (approval_required why), w))))
unfolding require_approved_gate
require_lem none action w = (λ k g. require_iff k action w g, inr (no_gate_id, refl))
require_lem (some k) action w = (
  λ k g. require_iff k action w g,
  elim (Option-cases (gate_at k w)) [
    | inl gone ↦ inr (unknown_gate, rw gone refl)
    | inr (g, found) ↦ elim (Bool-cases (is_approved g.status)) [
      | inr unfit ↦ inr (wrong_status, rw (found, unfit) refl)
      | inl fit ↦ elim (Bool-cases (str_eq g.action_type action)) [
        | inl same ↦ inl (g, rw (found, fit, same) refl)
        | inr other ↦ inr (wrong_action, rw (found, fit, other) refl)
      ]
    ]
  ],
)

-- A lawful gate of a dual tier (`mark_churned`) that is approved carries the approvals of two
-- people of different names, and no rejection.
pub dual_approved :
    (g : Gate)
    → IsLawful g
    → is_dual (tier_of g.action_type) ≡ true
    → g.status ≡ approved
    → (any_reject g.approvals ≡ false)
      × ((a b : String) × (a ≢ b) × (has_yes a g.approvals ≡ true) × (has_yes b g.approvals ≡ true))
dual_approved g l dual done =
    let stands =
      subst (λ s. Standing s (tier_of g.action_type) g.decided_at g.cooldown_until g.approvals) done
        l in
    (stands.0, two_people g.approvals (stands.1 dual))

-- A lawful gate of a tier with a cooldown and one approver (`sf_schema_delete`) is never approved,
-- whatever votes were cast: at most it becomes `approved_primary`.
pub cooldown_never_approved :
    (g : Gate) (hours : ℕ)
    → IsLawful g
    → is_dual (tier_of g.action_type) ≡ false
    → cooldown_of (tier_of g.action_type) ≡ some hours
    → 0 < hours
    → g.status ≢ approved
cooldown_never_approved g hours l single cools long done =
    let stands =
      subst (λ s. Standing s (tier_of g.action_type) g.decided_at g.cooldown_until g.approvals) done
        l in
    elim stands.2 [
      | inl dual ↦ absurd (cc)
      | inr none_left ↦ absurd (omega (arith, none_left hours cools))
    ]

-- So no deletion gate is ever let through by `require_approved_gate`.
pub delete_never_required :
    (k : ℕ) (w : World) (g : Gate)
    → AllLawful w
    → require_approved_gate (some k) "sf_schema_delete" w ≢ (ok g, w)
unfolding tier_of
delete_never_required k w g all h =
    let (found, done, action) = (require_iff k "sf_schema_delete" w g).0 h in
    cooldown_never_approved g 24 (all k g found) (rw action refl) (rw action refl) (omega arith)
      done

-- The row after the one vote that it needs.
abbrev pub approved_by_one : ℕ → String → Gate → Gate
approved_by_one now approver g = record g {
  approved_by = some approver;
  approvals = g.approvals ++ record { approver = approver; approved = true; decided_at = now } ∷ [];
  status = approved;
  decided_at = some now;
  cooldown_until = none;
}

voted-plain :
    (now : ℕ) (approver : String) (g : Gate)
    → g.status ≡ pending
    → is_dual (tier_of g.action_type) ≡ false
    → cooldown_of (tier_of g.action_type) ≡ none
    → voted now true approver g ≡ approved_by_one now approver g
unfolding ruling
voted-plain now approver g waiting single cools = rw (waiting, single, cools)

-- One vote for a pending gate of any tier that is neither dual in the sense of the code (approver
-- `jackie_and_o`) nor cooled approves it, at any time and by anyone, and `require_approved_gate`
-- then lets it through. `contact_merge` and `account_merge` are such tiers, although their gate
-- kind is `dual_approval`; and the gate's `expires_at` may lie in the past.
pub one_vote_approves :
    (now k : ℕ) (approver : String) (w : World) (g : Gate)
    → gate_at k w ≡ some g
    → g.status ≡ pending
    → is_dual (tier_of g.action_type) ≡ false
    → cooldown_of (tier_of g.action_type) ≡ none
    → let w' = (decide_approval_gate now k true approver w).1 in
      require_approved_gate (some k) g.action_type w' ≡ (ok (approved_by_one now approver g), w')
one_vote_approves now k approver w g found waiting single cools =
    let w' = (decide_approval_gate now k true approver w).1 in
    (require_iff k g.action_type w' (approved_by_one now approver g)).1 (
      gate-decide_self now k true approver w
          ∙ ap (Option.map (voted now true approver)) found
          ∙ ap some (voted-plain now approver g waiting single cools),
      refl,
      refl,
    )
