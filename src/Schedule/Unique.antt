-- ===== src/Schedule/Unique.antt =====
-- The jobs are told apart by their names.
use loop_revops_agents.Base.{
  ◌≡◌, refl, sym, ap, ◌∙◌, String, Bool, true, false, Option, some, List, [], ◌∷◌, arith, not, ◌&&◌,
  ◌||◌, ◌⊎◌, ◌↔◌, str_eq, eq_iff, Bool-cases, inl, inr,
}
use loop_revops_agents.Schedule.{Job, schedule, by_name, by_name_in}

-- Whether a name is that of a job of the list.
abbrev pub named : String → List Job → Bool
named n [] = false
named n (j ∷ js) = str_eq j.name n || named n js

abbrev pub all_distinct : List Job → Bool
all_distinct [] = true
all_distinct (j ∷ js) = not (named j.name js) && all_distinct js

-- The job stands in the list.
abbrev pub Member : Job → List Job → Type 0
Member j [] = ⊥
Member j (k ∷ js) = (k ≡ j) ⊎ Member j js

named-Member : (j : Job) (js : List Job) → Member j js → named j.name js ≡ true
named-Member j [] m = absurd m
named-Member j (k ∷ js) (inl e) = ground (arith, ap (λ (x : Job). x.name) e, eq_iff k.name j.name)
named-Member j (k ∷ js) (inr m) = ground (arith, named-Member j js m)

find_named :
    (j : Job) (js : List Job) → all_distinct js ≡ true → Member j js → by_name_in j.name js ≡ some j
unfolding by_name_in
find_named j [] h m = absurd m
find_named j (k ∷ js) h (inl e) =
    ground (arith, e, ap (λ (x : Job). x.name) e, eq_iff k.name j.name)
find_named j (k ∷ js) h (inr m) = elim (Bool-cases (str_eq k.name j.name)) [
  | inl same ↦
      let e : k.name ≡ j.name = (eq_iff k.name j.name).0 same in
      let hit : named k.name js ≡ true = rw e (named-Member j js m) in ground (arith, hit)
  | inr other ↦ rw other (find_named j js (ground arith) m)
]

distinct : all_distinct schedule ≡ true
unfolding schedule
distinct = refl

by_name_in-Member :
    (n : String) (js : List Job) (j : Job) → by_name_in n js ≡ some j → Member j js × (j.name ≡ n)
unfolding by_name_in
by_name_in-Member n [] j h = absurd (cc)
by_name_in-Member n (k ∷ js) j h = elim (Bool-cases (str_eq k.name n)) [
  | inl same ↦
      let h' : ◌≡◌ {A = Option Job} (some k) (some j) = rw same at h in
      let e : k ≡ j = cc in (inl e, ap (λ (x : Job). x.name) (sym e) ∙ (eq_iff k.name n).0 same)
  | inr other ↦ let (m, e) = by_name_in-Member n js j (rw other at h) in (inr m, e)
]

-- `by_name` returns a job exactly when the job is in the registry under that name: no two jobs
-- share a name, and none is out of reach.
pub by_name_lem : (n : String) (j : Job) → (by_name n ≡ some j) ↔ (Member j schedule × (j.name ≡ n))
unfolding by_name
by_name_lem n j = (
  by_name_in-Member n schedule j,
  λ p. ap (λ (x : String). by_name_in x schedule) (sym p.1) ∙ find_named j schedule distinct p.0,
)
