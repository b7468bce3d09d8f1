-- ===== src/Base/Slices.antt =====
-- A list cut into runs of a given length: `xs[i : i + n]` for `i` in `range(0, len(xs), n)`.
use Prim.Native.Nat.{ℕ, zero, suc, ◌-◌, ◌≤◌, ◌<◌}
use mathlib.Core.Path.{◌≡◌, refl, ap, ◌∙◌}
use mathlib.Core.List.{List, [], ◌∷◌, ◌++◌}
use native.Mathlib.Omega.{arith}
use loop_revops_agents.Base.Lists.{length, All}

module _ {ℓ} {A : Type ℓ} where
  abbrev pub take : ℕ → List A → List A
  take zero xs = []
  take (suc n) [] = []
  take (suc n) (x ∷ xs) = x ∷ take n xs

  abbrev pub drop : ℕ → List A → List A
  drop zero xs = xs
  drop (suc n) [] = []
  drop (suc n) (x ∷ xs) = drop n xs

  cut : ℕ → ℕ → List A → List (List A)
  cut zero n xs = []
  cut (suc fuel) n [] = []
  cut (suc fuel) n (x ∷ xs) = take n (x ∷ xs) ∷ cut fuel n (drop n (x ∷ xs))

  -- As many rounds as the list is long are enough.
  unfoldable pub slices : ℕ → List A → List (List A)
  unfolding cut
  slices n xs = cut (length xs) n xs

  abbrev pub flat : List (List A) → List A
  flat [] = []
  flat (xs ∷ xss) = xs ++ flat xss

  take-drop : (n : ℕ) (xs : List A) → take n xs ++ drop n xs ≡ xs
  take-drop zero xs = refl
  take-drop (suc n) [] = refl
  take-drop (suc n) (x ∷ xs) = rw (take-drop n xs)

  length-take : (n : ℕ) (xs : List A) → length (take n xs) ≤ n
  length-take zero xs = omega arith
  length-take (suc n) [] = omega arith
  length-take (suc n) (x ∷ xs) = omega (arith, length-take n xs)

  length-drop : (n : ℕ) (xs : List A) → length (drop n xs) ≡ length xs - n
  length-drop zero xs = omega arith
  length-drop (suc n) [] = omega arith
  length-drop (suc n) (x ∷ xs) = omega (arith, length-drop n xs)

  flat-cut : (fuel n : ℕ) (xs : List A) → 0 < n → length xs ≤ fuel → flat (cut fuel n xs) ≡ xs
  unfolding cut
  flat-cut zero n [] pos fits = refl
  flat-cut zero n (x ∷ xs) pos fits = absurd (omega arith)
  flat-cut (suc fuel) n [] pos fits = refl
  flat-cut (suc fuel) n (x ∷ xs) pos fits =
      ap {B = List A} (λ ys. take n (x ∷ xs) ++ ys)
        (flat-cut fuel n (drop n (x ∷ xs)) pos (omega (arith, length-drop n (x ∷ xs))))
      ∙ take-drop n (x ∷ xs)

  -- The slices put together are the list.
  pub flat-slices : (n : ℕ) (xs : List A) → 0 < n → flat (slices n xs) ≡ xs
  unfolding slices
  flat-slices n xs pos = flat-cut (length xs) n xs pos (omega arith)

  cut-bounds : (fuel n : ℕ) (xs : List A) → All (λ s. length s ≤ n) (cut fuel n xs)
  unfolding cut
  cut-bounds zero n xs = tt
  cut-bounds (suc fuel) n [] = tt
  cut-bounds (suc fuel) n (x ∷ xs) = (length-take n (x ∷ xs), cut-bounds fuel n (drop n (x ∷ xs)))

  -- No slice is longer than asked for.
  pub slices-bounds : (n : ℕ) (xs : List A) → All (λ s. length s ≤ n) (slices n xs)
  unfolding slices
  slices-bounds n xs = cut-bounds (length xs) n xs
