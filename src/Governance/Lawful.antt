-- ===== src/Governance/Lawful.antt =====
-- What the row of a gate means: an invariant of every operation on gates.
use loop_revops_agents.Base.{
  ℕ, ◌+◌, ◌*◌, ◌≤◌, ◌<◌, ◌≡◌, refl, Bool, true, false, Option, none, some, List, [], ◌∷◌, ◌++◌,
  ◌||◌, not, arith, Bool-cases, Option-cases, inl, inr, ◌⊎◌, leb, leb→le, ◌==◌,
}
use loop_revops_agents.Base.Table.{find_id}
use loop_revops_agents.World.{World}
use loop_revops_agents.World.Rows.{
  hour, Status, pending, approved, approved_primary, rejected, Decision, Gate,
}
use loop_revops_agents.Governance.Tiers.{Tier, tier_of, is_dual, cooldown_of}
use loop_revops_agents.Governance.Gates.{
  any_reject, distinct_yes, ruling, after_cooldown, Ruling, settle, wait_more,
}

-- The gate with this key, as `get_approval_gate` reads it.
abbrev pub gate_at : ℕ → World → Option Gate
gate_at k w = find_id (λ g. g.id) k w.gates

-- A settled rejection has a rejection on record; an approval has none, the votes of two people
-- where the tier is dual, and no cooldown; a primary approval runs its tier's cooldown; a pending
-- gate of a dual tier has fewer than two approvers.
abbrev pub Standing : Status → Option Tier → Option ℕ → Option ℕ → List Decision → Type 0
Standing pending t decided cooldown votes =
    (any_reject votes ≡ false)
    × (is_dual t ≡ false → votes ≡ [])
    × (distinct_yes votes ≤ 1)
    × (cooldown ≡ none)
Standing approved t decided cooldown votes =
    (any_reject votes ≡ false)
    × (is_dual t ≡ true → 2 ≤ distinct_yes votes)
    × (is_dual t ≡ true ⊎ ((hours : ℕ) → cooldown_of t ≡ some hours → hours ≡ 0))
    × (cooldown ≡ none)
Standing approved_primary t decided cooldown votes =
    (hours time : ℕ) × (is_dual t ≡ false)
    × (cooldown_of t ≡ some hours)
    × (0 < hours)
    × (decided ≡ some time)
    × (cooldown ≡ some (time + hours * hour))
Standing rejected t decided cooldown votes = (any_reject votes ≡ true) × (cooldown ≡ none)

abbrev pub IsLawful : Gate → Type 0
IsLawful g = Standing g.status (tier_of g.action_type) g.decided_at g.cooldown_until g.approvals

abbrev pub AllLawful : World → Type 0
AllLawful w = (k : ℕ) (g : Gate) → gate_at k w ≡ some g → IsLawful g

pub any_reject-append :
    (ds : List Decision) (d : Decision)
    → any_reject (ds ++ d ∷ []) ≡ (any_reject ds || not d.approved)
unfolding any_reject
any_reject-append [] d = ground arith
any_reject-append (e ∷ ds) d = ground (arith, any_reject-append ds d)

-- What a ruling on the votes `votes` at the time `now` stands for.
abbrev pub Sound : Ruling → Option Tier → ℕ → List Decision → Type 0
Sound (settle s cooldown) t now votes = Standing s t (some now) cooldown votes
Sound wait_more t now votes = Standing pending t (some now) none votes

after_cooldown-Sound :
    (t : Option Tier) (now : ℕ) (votes : List Decision)
    → is_dual t ≡ false
    → any_reject votes ≡ false
    → Sound (after_cooldown now (cooldown_of t)) t now votes
after_cooldown-Sound t now votes single clean = elim (Option-cases (cooldown_of t)) [
  | inl e ↦ rw e (clean, λ h. absurd (cc), inr (λ hours h. absurd (cc)), refl)
  | inr (hours, e) ↦ elim (Bool-cases (hours == 0)) [
    | inl z ↦ rw (e, z) (clean, λ h. absurd (cc), inr (λ k h. ground arith), refl)
    | inr p ↦ rw (e, p) (hours, now, single, e, ground arith, refl, refl)
  ]
]

pub ruling-Sound :
    (t : Option Tier) (now : ℕ) (yes_vote : Bool) (earlier : List Decision) (d : Decision)
    → d.approved ≡ yes_vote
    → Standing pending t none none earlier
    → Sound (ruling t now yes_vote (earlier ++ d ∷ [])) t now (earlier ++ d ∷ [])
unfolding ruling
ruling-Sound t now false earlier d e (clean, single, few, _) =
    (ground (arith, any_reject-append earlier d), refl)
ruling-Sound t now true earlier d e (clean, single, few, _) =
    let votes = earlier ++ d ∷ [] in
    let fair : any_reject votes ≡ false = ground (arith, any_reject-append earlier d) in
    elim (Bool-cases (is_dual t)) [
      | inl dual ↦ elim (Bool-cases (leb 2 (distinct_yes votes))) [
        | inl two ↦
            rw (dual, fair, two) (fair, λ h. leb→le 2 (distinct_yes votes) two, inl dual, refl)
        | inr one ↦ rw (dual, fair, one) (fair, λ h. absurd (cc), ground arith, refl)
      ]
      | inr plain ↦ rw plain (after_cooldown-Sound t now votes plain fair)
    ]
