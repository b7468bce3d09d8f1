-- ===== src/Cooldown/Elevate.antt =====
-- One round of the poller appends one confirmation gate and leaves every other row alone.
use loop_revops_agents.Base.{ℕ, ◌≡◌, refl, sym, ap, ◌∙◌, Option, none, List, [], ◌∷◌, ◌++◌, arith}
use loop_revops_agents.Base.Table.{next_id, next_id-bounds, update_id-append_new}
use mathlib.Core.List.{append-nil, append_assoc}
use loop_revops_agents.World.Values.{Json, text}
use loop_revops_agents.World.{World, Env, ok, bind_step}
use loop_revops_agents.World.Rows.{Gate}
use loop_revops_agents.Governance.Tiers.{tier_of}
use loop_revops_agents.Governance.Gates.{new_gate, create_approval_gate}
use loop_revops_agents.Dispatcher.{send}
use loop_revops_agents.Cooldown.{confirmation_request, with_parent, elevate, elevate_all}

-- The confirmation gate of a parent.
abbrev pub child_of : ℕ → Gate → List Gate → Gate
child_of now parent gates =
    with_parent parent.id (new_gate now (confirmation_request parent) (next_id (λ g. g.id) gates))

gates-send : (env : Env) (c : Json) (k : Option ℕ) (w : World) → (send env c k w).1.gates ≡ w.gates
unfolding send
gates-send env c k w = ground arith

pub elevate_lem :
    (env : Env) (now : ℕ) (parent : Gate) (w : World)
    → (elevate env now parent w ≡ (ok (next_id (λ g. g.id) w.gates), (elevate env now parent w).1))
      × ((elevate env now parent w).1.gates ≡ w.gates ++ child_of now parent w.gates ∷ [])
unfolding elevate create_approval_gate tier_of
elevate_lem env now parent w =
    let n = next_id (λ (g : Gate). g.id) w.gates in
    (
      refl,
      gates-send env (text "oo-dm") none _
          ∙ update_id-append_new (λ g. g.id) n (with_parent parent.id) w.gates
              (new_gate now (confirmation_request parent) n) (next_id-bounds (λ g. g.id) w.gates)
              refl,
    )

-- The gates that a run of the loop opens, one for each parent.
abbrev pub children : ℕ → List Gate → List Gate → List Gate
children now [] gates = []
children now (p ∷ ps) gates =
    child_of now p gates ∷ children now ps (gates ++ child_of now p gates ∷ [])

abbrev pub pairs : ℕ → List Gate → List Gate → List (ℕ × ℕ)
pairs now [] gates = []
pairs now (p ∷ ps) gates =
    (p.id, next_id (λ g. g.id) gates) ∷ pairs now ps (gates ++ child_of now p gates ∷ [])

-- The loop never raises. It opens one confirmation gate for each parent, returns the pairs of their
-- keys, and leaves every other row alone.
pub elevate_all_lem :
    (env : Env) (now : ℕ) (ps : List Gate) (w : World)
    → (v : World) × (elevate_all env now ps w ≡ (ok (pairs now ps w.gates), v))
      × (v.gates ≡ w.gates ++ children now ps w.gates)
unfolding elevate_all
elevate_all_lem env now [] w = (w, refl, sym (append-nil w.gates))
elevate_all_lem env now (p ∷ ps) w =
    let w' = (elevate env now p w).1 in
    let (returned, opened) = elevate_lem env now p w in
    let (v, run, gates) = elevate_all_lem env now ps w' in
    (
      v,
      bind_step (elevate env now p) _ w returned
          ∙ bind_step (elevate_all env now ps) _ w' run
          ∙ ap (λ (gs : List Gate). (ok ((p.id, next_id (λ g. g.id) w.gates) ∷ pairs now ps gs), v))
              opened,
      gates
          ∙ ap (λ (gs : List Gate). gs ++ children now ps gs) opened
          ∙ append_assoc w.gates (child_of now p w.gates ∷ []) _,
    )
