-- ===== src/Base/Table.antt =====
-- A database table with an integer primary key, as the list of its rows in the order of insertion.
use Prim.Native.Nat.{ℕ, suc, ◌<◌}
use mathlib.Core.Path.{◌≡◌, refl}
use mathlib.Core.Logic.{◌≢◌, ◌⊎◌}
use mathlib.Core.Option
use mathlib.Core.Option.{Option, none, some}
use mathlib.Core.List.{List, [], ◌∷◌, ◌++◌}
use native.Mathlib.Omega.{arith}
use loop_revops_agents.Base.Lists.{All}
use loop_revops_agents.Base.Tests.{ltb, ◌==◌, if◌then◌else◌}

module _ {ℓ} {A : Type ℓ} (id : A → ℕ) where
  -- The largest key.
  pub last_id : List A → ℕ
  last_id [] = 0
  last_id (x ∷ xs) = let m = last_id xs in if ltb m (id x) then id x else m

  -- SQLite's next rowid: one more than the largest.
  unfoldable pub next_id : List A → ℕ
  unfolding last_id
  next_id xs = suc (last_id xs)

  -- `SELECT * FROM t WHERE id = :k`
  unfoldable pub find_id : ℕ → List A → Option A
  find_id k [] = none
  find_id k (x ∷ xs) = if id x == k then some x else find_id k xs

  -- `UPDATE t SET … WHERE id = :k`
  unfoldable pub update_id : ℕ → (A → A) → List A → List A
  update_id k f [] = []
  update_id k f (x ∷ xs) = (if id x == k then f x else x) ∷ update_id k f xs

  find_id-above : (k : ℕ) (xs : List A) → last_id xs < k → find_id k xs ≡ none
  unfolding last_id find_id
  find_id-above k [] h = refl
  find_id-above k (x ∷ xs) h = ground (arith, find_id-above k xs)

  last_id-bounds : (k : ℕ) (xs : List A) → last_id xs < k → All (λ x. id x < k) xs
  unfolding last_id
  last_id-bounds k [] h = tt
  last_id-bounds k (x ∷ xs) h = (ground arith, last_id-bounds k xs (ground arith))

  -- Every key of the table lies below the next one.
  pub next_id-bounds : (xs : List A) → All (λ x. id x < next_id xs) xs
  unfolding next_id
  next_id-bounds xs = last_id-bounds (suc (last_id xs)) xs (omega arith)

  -- The next key is not yet in the table.
  pub find_id-next_id : (xs : List A) → find_id (next_id xs) xs ≡ none
  unfolding next_id
  find_id-next_id xs = find_id-above (suc (last_id xs)) xs (omega arith)

  pub id-find_id : (k : ℕ) (xs : List A) (x : A) → find_id k xs ≡ some x → id x ≡ k
  unfolding find_id
  id-find_id k [] x h = ground arith
  id-find_id k (y ∷ ys) x h = ground (arith, id-find_id k ys x)

  -- A row that is there is found first.
  pub find_id-append :
      (k : ℕ) (xs : List A) (y : A)
      → find_id k (xs ++ y ∷ [])
        ≡ elim (find_id k xs) [ none ↦ if id y == k then some y else none | some x ↦ some x ]
  unfolding find_id
  find_id-append k [] y = refl
  find_id-append k (x ∷ xs) y = ground (arith, find_id-append k xs y)

  pub find_id-append_cases :
      (k : ℕ) (xs : List A) (y x : A)
      → find_id k (xs ++ y ∷ []) ≡ some x
      → (find_id k xs ≡ some x) ⊎ ((id y ≡ k) × (y ≡ x))
  unfolding find_id
  find_id-append_cases k [] y x h = ground arith
  find_id-append_cases k (z ∷ xs) y x h = ground (arith, find_id-append_cases k xs y x)

  pub find_id-append_old :
      (k : ℕ) (xs : List A) (y x : A) → find_id k xs ≡ some x → find_id k (xs ++ y ∷ []) ≡ some x
  find_id-append_old k xs y x h = rw (find_id-append k xs y, h)

  pub find_id-update_self :
      (k : ℕ) (f : A → A) (xs : List A)
      → ((x : A) → id (f x) ≡ id x)
      → find_id k (update_id k f xs) ≡ Option.map f (find_id k xs)
  unfolding find_id update_id
  find_id-update_self k f [] same = refl
  find_id-update_self k f (x ∷ xs) same = ground (arith, same x, find_id-update_self k f xs same)

  pub find_id-update_ne :
      (j k : ℕ) (f : A → A) (xs : List A)
      → ((x : A) → id (f x) ≡ id x)
      → j ≢ k
      → find_id j (update_id k f xs) ≡ find_id j xs
  unfolding find_id update_id
  find_id-update_ne j k f [] same ne = refl
  find_id-update_ne j k f (x ∷ xs) same ne =
      ground (arith, same x, find_id-update_ne j k f xs same ne)

  -- An update of a key that only the last row has.
  pub update_id-append_new :
      (k : ℕ) (f : A → A) (xs : List A) (y : A)
      → All (λ x. id x < k) xs
      → id y ≡ k
      → update_id k f (xs ++ y ∷ []) ≡ xs ++ f y ∷ []
  unfolding update_id
  update_id-append_new k f [] y low same = ground arith
  update_id-append_new k f (x ∷ xs) y low same =
      ground (arith, low.0, update_id-append_new k f xs y low.1 same)
