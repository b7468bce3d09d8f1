-- ===== src/Governance/Limits/Count.antt =====
-- The table of counters refines one counter for each bucket and window.
use loop_revops_agents.Base.{
  ℕ, ◌+◌, ◌<◌, ◌≡◌, ◌≢◌, refl, String, Bool, false, Option, none, some, List, [], ◌∷◌, ◌++◌, ◌&&◌,
  arith, ◌==◌, str_eq, eq_iff, if◌then◌else◌, All, All-append, Bool-cases, Option-cases, leb, inl,
  inr, ap, ◌∙◌, subst,
}
use loop_revops_agents.Base.Table.{next_id-bounds, update_id}
use loop_revops_agents.World.{World, ok, err, rate_limit_exceeded}
use loop_revops_agents.World.Rows.{Rate}
use loop_revops_agents.Governance.Limits.{find_rate, new_rate, with_count, count_call}

-- The calls counted for a bucket in the window that starts at a time.
abbrev pub count_of : Option Rate → ℕ
count_of none = 0
count_of (some r) = r.count

abbrev pub count_at : String → ℕ → World → ℕ
count_at bucket window w = count_of (find_rate bucket window w.rates)

-- No key twice: the table's primary key.
abbrev pub IsKeyed : List Rate → Type 0
IsKeyed [] = Unit
IsKeyed (r ∷ rs) = All (λ s. s.id ≢ r.id) rs × IsKeyed rs

update-elsewhere :
    (k c : ℕ) (rs : List Rate)
    → All (λ s. s.id ≢ k) rs
    → update_id (λ x. x.id) k (with_count c) rs ≡ rs
unfolding update_id
update-elsewhere k c [] h = refl
update-elsewhere k c (r ∷ rs) h = ground (arith, h.0, update-elsewhere k c rs h.1)

key-find :
    (b : String) (t k : ℕ) (rs : List Rate) (r : Rate)
    → All (λ s. s.id ≢ k) rs
    → find_rate b t rs ≡ some r
    → r.id ≢ k
unfolding find_rate
key-find b t k [] r h e = absurd (cc)
key-find b t k (s ∷ rs) r h e = elim (Bool-cases (str_eq s.bucket b && (s.window_start == t))) [
  | inl here ↦
      let e' : ◌≡◌ {A = Option Rate} (some s) (some r) = rw here at e in
      let same : s ≡ r = cc in λ x. h.0 (ap (λ (y : Rate). y.id) same ∙ x)
  | inr there ↦ key-find b t k rs r h.1 (rw there at e)
]

-- Writing the count of the row that was found changes that one counter.
count-update :
    (b : String) (t : ℕ) (j : String) (u c : ℕ) (rs : List Rate) (r : Rate)
    → IsKeyed rs
    → find_rate b t rs ≡ some r
    → count_of (find_rate j u (update_id (λ x. x.id) r.id (with_count c) rs))
      ≡ (if str_eq b j && (t == u) then c else count_of (find_rate j u rs))
unfolding find_rate update_id
count-update b t j u c [] r keyed h = absurd (cc)
count-update b t j u c (s ∷ rs) r keyed h =
    elim (Bool-cases (str_eq s.bucket b && (s.window_start == t))) [
      | inl here ↦
          let h' : ◌≡◌ {A = Option Rate} (some s) (some r) = rw here at h in
          let same : s ≡ r = cc in
          let others : All (λ y. y.id ≢ r.id) rs =
            subst (λ x. All (λ y. y.id ≢ x.id) rs) same keyed.0 in
          ground (
            arith,
            same,
            eq_iff s.bucket b,
            eq_iff b j,
            eq_iff s.bucket j,
            update-elsewhere r.id c rs others,
          )
      | inr there ↦
          let found : find_rate b t rs ≡ some r = rw there at h in
          let other : r.id ≢ s.id = key-find b t s.id rs r keyed.0 found in
          ground (
            arith,
            other,
            eq_iff s.bucket b,
            eq_iff b j,
            eq_iff s.bucket j,
            count-update b t j u c rs r keyed.1 found,
          )
    ]

count-append :
    (b : String) (t l : ℕ) (j : String) (u : ℕ) (rates rs : List Rate)
    → find_rate b t rs ≡ none
    → count_of (find_rate j u (rs ++ new_rate b t l rates ∷ []))
      ≡ (if str_eq b j && (t == u) then 1 else count_of (find_rate j u rs))
unfolding find_rate
count-append b t l j u rates [] h = ground arith
count-append b t l j u rates (s ∷ rs) h =
    ground
      (arith, eq_iff s.bucket b, eq_iff b j, eq_iff s.bucket j, count-append b t l j u rates rs)

All-update :
    (k i c : ℕ) (rs : List Rate)
    → All (λ s. s.id ≢ k) rs
    → All (λ s. s.id ≢ k) (update_id (λ x. x.id) i (with_count c) rs)
unfolding update_id
All-update k i c [] h = tt
All-update k i c (r ∷ rs) h = (ground (arith, h.0), All-update k i c rs h.1)

update-IsKeyed :
    (i c : ℕ) (rs : List Rate) → IsKeyed rs → IsKeyed (update_id (λ x. x.id) i (with_count c) rs)
unfolding update_id
update-IsKeyed i c [] h = tt
update-IsKeyed i c (r ∷ rs) h = (
  elim (Bool-cases (r.id == i)) [
    | inl e ↦ rw e (All-update r.id i c rs h.0)
    | inr e ↦ rw e (All-update r.id i c rs h.0)
  ],
  update-IsKeyed i c rs h.1,
)

append-IsKeyed :
    (r : Rate) (rs : List Rate) → All (λ s. s.id < r.id) rs → IsKeyed rs → IsKeyed (rs ++ r ∷ [])
append-IsKeyed r [] low h = (tt, tt)
append-IsKeyed r (s ∷ rs) low h = (
  All-append (λ x. x.id ≢ s.id) rs (r ∷ []) h.0 (λ e. absurd (omega (arith, low.0)), tt),
  append-IsKeyed r rs low.1 h.1,
)

-- What one call does in either mode, told by the counters alone.
pub count_call_lem :
    (limit : ℕ) (hard : Bool) (b : String) (t : ℕ) (w : World)
    → 0 < limit
    → IsKeyed w.rates
    → let c = count_at b t w in
      count_call limit hard b t w ≡ (
        if leb limit c && hard
        then (err rate_limit_exceeded, w)
        else (ok (c + 1), (count_call limit false b t w).1))
unfolding count_call
count_call_lem limit hard b t w pos keyed = elim (Option-cases (find_rate b t w.rates)) [
  | inl new ↦ rw new (ground arith)
  | inr (r, old) ↦ rw old (ground arith)
]

rates_new :
    (limit : ℕ) (b : String) (t : ℕ) (w : World)
    → find_rate b t w.rates ≡ none
    → (count_call limit false b t w).1.rates ≡ w.rates ++ new_rate b t limit w.rates ∷ []
unfolding count_call
rates_new limit b t w new = rw (new, count_call)

rates_old :
    (limit : ℕ) (b : String) (t : ℕ) (w : World) (r : Rate)
    → find_rate b t w.rates ≡ some r
    → (count_call limit false b t w).1.rates
      ≡ update_id (λ x. x.id) r.id (with_count (r.count + 1)) w.rates
unfolding count_call
rates_old limit b t w r old = rw (old, count_call) (ground arith)

-- An admitted call raises its own counter by one, leaves all others, and keeps the keys apart.
pub admitted_call :
    (limit : ℕ) (b : String) (t : ℕ) (w : World)
    → IsKeyed w.rates
    → let w' = (count_call limit false b t w).1 in
      IsKeyed w'.rates
      × ((j : String) (u : ℕ)
          → count_at j u w'
            ≡ (if str_eq b j && (t == u) then count_at b t w + 1 else count_at j u w))
admitted_call limit b t w keyed = elim (Option-cases (find_rate b t w.rates)) [
  | inl new ↦
      rw (rates_new limit b t w new, new)
        (
          append-IsKeyed (new_rate b t limit w.rates) w.rates (next_id-bounds (λ r. r.id) w.rates)
              keyed,
          λ j u. count-append b t limit j u w.rates w.rates new,
        )
  | inr (r, old) ↦
      rw (rates_old limit b t w r old, old)
        (
          update-IsKeyed r.id (r.count + 1) w.rates keyed,
          λ j u. count-update b t j u (r.count + 1) w.rates r keyed old,
        )
]
