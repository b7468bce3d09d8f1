-- ===== src/Cooldown/Idempotent.antt =====
-- Each primary gate that is ready gets exactly one confirmation gate: a second poll finds none.
use loop_revops_agents.Base.{
  ℕ, ◌≡◌, refl, ap, ◌∙◌, true, false, List, [], ◌∷◌, ◌++◌, ◌||◌, arith, eq_iff, select,
  select-append, All, Bool-cases, inl, inr,
}
use loop_revops_agents.World.{World, Env, ok}
use loop_revops_agents.World.Rows.{Gate}
use loop_revops_agents.Cooldown.{has_child, is_ready, find_ready_primaries, elevate_all, poll}
use loop_revops_agents.Cooldown.Elevate.{child_of, children, pairs, elevate_all_lem}

has_child-append :
    (k : ℕ) (xs ys : List Gate) → has_child k (xs ++ ys) ≡ (has_child k xs || has_child k ys)
unfolding has_child
has_child-append k [] ys = refl
has_child-append k (x ∷ xs) ys = ground (arith, has_child-append k xs ys)

-- Every parent of a run has its child among the gates that the run opens.
children_complete :
    (now : ℕ) (ps gates : List Gate) → All (λ p. has_child p.id (children now ps gates) ≡ true) ps
unfolding has_child
children_complete now [] gates = tt
children_complete now (p ∷ ps) gates =
    let c = child_of now p gates in
    let rest = children now ps (gates ++ c ∷ []) in
    (
      ground (arith, eq_iff "sf_schema_delete_confirm" "sf_schema_delete_confirm"),
      weaken ps (children_complete now ps (gates ++ c ∷ [])),
    )
  where
    weaken :
        (qs : List Gate)
        → All (λ q. has_child q.id (children now ps (gates ++ child_of now p gates ∷ [])) ≡ true) qs
        → All
            (λ q.
              has_child q.id
                (child_of now p gates ∷ children now ps (gates ++ child_of now p gates ∷ []))
              ≡ true)
            qs
    weaken [] h = tt
    weaken (q ∷ qs) h = (ground (arith, h.0), weaken qs h.1)

-- A gate that the poller opens is pending, so it is no primary.
none_ready :
    (now : ℕ) (all ps gates : List Gate) → select (is_ready now all) (children now ps gates) ≡ []
unfolding select
none_ready now all [] gates = refl
none_ready now all (p ∷ ps) gates = none_ready now all ps (gates ++ child_of now p gates ∷ [])

-- No gate of the table is ready once those that were have their children.
settled :
    (now : ℕ) (before kids gs : List Gate)
    → All (λ p. has_child p.id kids ≡ true) (select (is_ready now before) gs)
    → select (is_ready now (before ++ kids)) gs ≡ []
unfolding select
settled now before kids [] h = refl
settled now before kids (g ∷ gs) h = elim (Bool-cases (is_ready now before g)) [
  | inl was ↦
      let h' : All (λ p. has_child p.id kids ≡ true) (g ∷ select (is_ready now before) gs) =
        rw was at h in
      let gone : is_ready now (before ++ kids) g ≡ false =
        ground (arith, has_child-append g.id before kids, h'.0) in
      rw gone (settled now before kids gs h'.1)
  | inr not_yet ↦
      let gone : is_ready now (before ++ kids) g ≡ false =
        ground (arith, has_child-append g.id before kids, not_yet) in
      rw gone (settled now before kids gs (rw not_yet at h))
]

-- The run reports one pair for each gate that was ready and leaves no gate ready, so that polling
-- again at the same time elevates nothing; the gates that were there are unchanged.
pub poll_once :
    (env : Env) (now : ℕ) (w : World)
    → (v : World) × (poll env now w ≡ (ok (pairs now (find_ready_primaries now w) w.gates), v))
      × (v.gates ≡ w.gates ++ children now (find_ready_primaries now w) w.gates)
      × (find_ready_primaries now v ≡ [])
      × (poll env now v ≡ (ok [], v))
unfolding poll elevate_all
poll_once env now w =
    let ps = find_ready_primaries now w in
    let kids = children now ps w.gates in
    let (v, run, gates) = elevate_all_lem env now ps w in
    let calm : find_ready_primaries now v ≡ [] =
      ap (λ (gs : List Gate). select (is_ready now gs) gs) gates
      ∙ select-append (is_ready now (w.gates ++ kids)) w.gates kids
      ∙ ap (λ (gs : List Gate). gs ++ select (is_ready now (w.gates ++ kids)) kids)
          (settled now w.gates kids w.gates (children_complete now ps w.gates))
      ∙ none_ready now (w.gates ++ kids) ps w.gates in
    (v, run, gates, calm, ap (λ (gs : List Gate). elevate_all env now gs v) calm)
