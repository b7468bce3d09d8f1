-- ===== src/System/Handlers.antt =====
-- The poller and the loops of enrolment and of batches as sequences of steps of the system.
use loop_revops_agents.Base.{ℕ, sym, subst, none, List, [], ◌∷◌}
use loop_revops_agents.Base.Table.{next_id}
use loop_revops_agents.World.{World, Env, Result, ok, err, M, ◌>>=◌, continue}
use loop_revops_agents.World.Keeps.{Reads}
use loop_revops_agents.World.Values.{text}
use loop_revops_agents.World.Rows.{Gate}
use loop_revops_agents.Governance.Tiers.{tier_of}
use loop_revops_agents.Governance.Gates.{create_approval_gate}
use loop_revops_agents.Cooldown.{
  confirmation_request, set_parent, elevate, elevate_all, poll, find_ready_primaries,
}
use loop_revops_agents.System.{opened, linked, sent, Reach, here, next}

pub Reach-trans : (env : Env) {u v w : World} → Reach env u v → Reach env v w → Reach env u w
Reach-trans env before here = before
Reach-trans env before (next later step) = next (Reach-trans env before later) step

-- An action that comes down to steps of the system, whether it returns or raises.
abbrev pub Runs : {A : Type 0} → Env → M A → Type 0
Runs env m = (w : World) → Reach env w (m w).1

Runs-continue :
    {A B : Type 0} (env : Env) (f : A → M B) (r : Result A) (w v : World)
    → Reach env w v
    → ((a : A) → Runs env (f a))
    → Reach env w (continue r f v).1
Runs-continue env f (ok a) w v before after = Reach-trans env before (after a v)
Runs-continue env f (err e) w v before after = before

pub Runs-bind :
    {A B : Type 0} (env : Env) (m : M A) (f : A → M B)
    → Runs env m
    → ((a : A) → Runs env (f a))
    → Runs env (m >>= f)
Runs-bind env m f first later w = Runs-continue env f (m w).0 w (m w).1 (first w) later

-- An action that writes nothing comes down to no step.
pub Reads-Runs : {A : Type 0} (env : Env) (m : M A) → Reads m → Runs env m
Reads-Runs env m reads w = subst (Reach env w) (sym (reads w)) here

elevate-Runs : (env : Env) (now : ℕ) (parent : Gate) → Runs env (elevate env now parent)
unfolding elevate create_approval_gate tier_of
elevate-Runs env now parent w =
    let r = confirmation_request parent in
    let w1 = (create_approval_gate now r w).1 in
    let child = next_id (λ (g : Gate). g.id) w.gates in
    next (next (next here (opened now r w)) (linked child parent.id w1))
      (sent (text "oo-dm") none (set_parent child parent.id w1).1)

elevate_all-Runs : (env : Env) (now : ℕ) (gs : List Gate) → Runs env (elevate_all env now gs)
unfolding elevate_all
elevate_all-Runs env now [] w = here
elevate_all-Runs env now (g ∷ gs) w =
    Runs-bind env (elevate env now g)
      (λ child. elevate_all env now gs >>= λ rest. λ v. (ok ((g.id, child) ∷ rest), v))
      (elevate-Runs env now g)
      (λ child.
        Runs-bind env (elevate_all env now gs) (λ rest. λ v. (ok ((g.id, child) ∷ rest), v))
          (elevate_all-Runs env now gs) (λ rest v. here))
      w

pub poll-Runs : (env : Env) (now : ℕ) → Runs env (poll env now)
unfolding poll
poll-Runs env now w = elevate_all-Runs env now (find_ready_primaries now w) w
