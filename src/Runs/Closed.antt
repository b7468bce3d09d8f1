-- ===== src/Runs/Closed.antt =====
-- The row that a run of an agent leaves.
use mathlib.Core.Option
use loop_revops_agents.Base.{
  ℕ, ◌≡◌, ◌≢◌, refl, ap, ◌∙◌, String, Option, none, some, List, [], ◌∷◌, ◌++◌, arith, ◌==◌,
  if◌then◌else◌,
}
use loop_revops_agents.Base.Table.{
  next_id, find_id, find_id-update_self, find_id-update_ne, find_id-append, find_id-next_id,
}
use loop_revops_agents.Base.Texts.{take_text}
use loop_revops_agents.World.{World, Error, Result, ok, err, M, type_error}
use loop_revops_agents.World.Runs.{Run}
use loop_revops_agents.World.Keeps.{Keeps}
use loop_revops_agents.Runs.{
  new_run, open_run, finished_run, write_finish, give_back, or_record, start_run, run,
}

abbrev pub row_at : ℕ → World → Option Run
row_at k w = find_id (λ r. r.id) k w.runs

-- The result of a run: what the handler gives, unless that cannot be written as JSON.
abbrev pub answer : {A : Type 0} → (A → Option (Option String)) → Result A → Result A
answer dumps (err e) = err e
answer dumps (ok a) = elim (dumps a) [
  | none ↦ ok a
  | some dumped ↦ elim dumped [ none ↦ err type_error | some s ↦ ok a ]
]

-- The output column of a result.
abbrev pub output_of : Option (Option String) → Option String
output_of none = none
output_of (some none) = none
output_of (some (some s)) = some (take_text 4000 s)

-- What the row says of the result of a run.
abbrev pub closed_by :
    {A : Type 0} → (Error → String) → (A → Option (Option String)) → ℕ → Result A → Run → Run
closed_by message dumps later (ok a) = finished_run later "success" (output_of (dumps a)) none
closed_by message dumps later (err e) = finished_run later "error" none (some (message e))

row-append_ne :
    (j : ℕ) (runs : List Run) (r : Run)
    → j ≢ r.id
    → find_id (λ x. x.id) j (runs ++ r ∷ []) ≡ find_id (λ x. x.id) j runs
row-append_ne j runs r ne =
    find_id-append (λ (x : Run). x.id) j runs r ∙ unchanged (find_id (λ x. x.id) j runs)
  where
    unchanged :
        (o : Option Run)
        → ◌≡◌ {A = Option Run}
            (elim o [ none ↦ if r.id == j then some r else none | some x ↦ some x ])
            o
    unchanged none = ground arith
    unchanged (some x) = refl

module _ {A : Type 0} (message : Error → String) (dumps : A → Option (Option String))
    (later k : ℕ) where
  -- What follows the handler.
  abbrev after_handle : Result A → M A
  after_handle r u = let (r', u') = give_back dumps later k r u in or_record message later k r' u'

  -- The row and the result, where the row is written once.
  abbrev Closes : Result A → M A → Type 0
  Closes r m =
      (u : World)
      → ((m u).0 ≡ r)
        × (row_at k (m u).1 ≡ Option.map (closed_by message dumps later r) (row_at k u))
        × ((j : ℕ) → j ≢ k → row_at j (m u).1 ≡ row_at j u)

  written :
      (s : String) (o e : Option String) (u : World)
      → let v = (write_finish later k s o e u).1 in
        (row_at k v ≡ Option.map (finished_run later s o e) (row_at k u))
        × ((j : ℕ) → j ≢ k → row_at j v ≡ row_at j u)
  unfolding write_finish
  written s o e u = (
    find_id-update_self (λ (x : Run). x.id) k (finished_run later s o e) u.runs (λ x. refl),
    λ j ne.
        find_id-update_ne (λ (x : Run). x.id) j k (finished_run later s o e) u.runs (λ x. refl) ne,
  )

  after_handle-Closes : (r : Result A) → Closes (answer dumps r) (after_handle r)
  unfolding write_finish
  after_handle-Closes (err e) u =
      let (row, others) = written "error" none (some (message e)) u in (refl, row, others)
  after_handle-Closes (ok a) u = by_output (dumps a) refl
    where
      by_output :
          (d : Option (Option String))
          → dumps a ≡ d
          → let v = (after_handle (ok a) u).1 in
            ((after_handle (ok a) u).0 ≡ answer dumps (ok a))
            × (row_at k v
                ≡ Option.map (closed_by message dumps later (answer dumps (ok a))) (row_at k u))
            × ((j : ℕ) → j ≢ k → row_at j v ≡ row_at j u)
      by_output none h =
          let (row, others) = written "success" none none u in rw (answer, h, h) (refl, row, others)
      by_output (some none) h =
          let (row, others) = written "error" none (some (message type_error)) u in
          rw (answer, h) (refl, row, others)
      by_output (some (some s)) h =
          let (row, others) = written "success" (some (take_text 4000 s)) none u in
          rw (answer, h, h) (refl, row, others)

pub run_lem :
    {A : Type 0} (message : Error → String) (dumps : A → Option (Option String))
    (name trigger payload : String) (now later : ℕ) (handle : M A) (w : World)
    → Keeps (λ v. v.runs) handle
    → let k = next_id (λ (r : Run). r.id) w.runs in
      let input = some (take_text 4000 payload) in
      let (r, u) = handle (open_run name trigger input "running" now w).1 in
      let (r', v) = run message dumps name trigger (some payload) now later handle w in
      (r' ≡ answer dumps r)
      × (row_at k v
          ≡ some (
              closed_by message dumps later
                (answer dumps r)
                (new_run name trigger input "running" now k)))
      × ((j : ℕ) → j ≢ k → row_at j v ≡ row_at j w)
unfolding run start_run open_run
run_lem message dumps name trigger payload now later handle w keeps =
    let k = next_id (λ (r : Run). r.id) w.runs in
    let input = some (take_text 4000 payload) in
    let row = new_run name trigger input "running" now k in
    let w1 = (open_run name trigger input "running" now w).1 in
    let (r, u) = handle w1 in
    let (same, mine, others) = after_handle-Closes message dumps later k r u in
    let closed = closed_by message dumps later (answer dumps r) in
    let there : row_at k w1 ≡ some row =
      find_id-append (λ (x : Run). x.id) k w.runs row
      ∙ (rw (find_id-next_id (λ (x : Run). x.id) w.runs) (ground arith)) in
    (
      same,
      mine
          ∙ ap (λ (rs : List Run). Option.map closed (find_id (λ x. x.id) k rs)) (keeps w1)
          ∙ ap (Option.map closed) there,
      λ j ne.
          others j ne
          ∙ ap (λ (rs : List Run). find_id (λ x. x.id) j rs) (keeps w1)
          ∙ row-append_ne j w.runs row ne,
    )
