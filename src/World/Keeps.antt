-- ===== src/World/Keeps.antt =====
-- What an action leaves as it was: a part of the world, or all of it.
use loop_revops_agents.Base.{
  ◌≡◌, ◌⊎◌, refl, sym, ap, ◌∙◌, Bool, true, false, Option, none, some, inl, inr, if◌then◌else◌,
}
use loop_revops_agents.World.{
  World, Error, Result, ok, err, M, pure, or_raise, raise_if, continue, ◌>>=◌,
}

module _ {X : Type 0} (part : World → X) where
  -- The action leaves this part of the world alone, whether it returns or raises.
  abbrev pub Keeps : {A : Type 0} → M A → Type 0
  Keeps m = (w : World) → part (m w).1 ≡ part w

  continue-Keeps :
      {A B : Type 0} (f : A → M B) (r : Result A) (v w : World)
      → part v ≡ part w
      → ((a : A) → Keeps (f a))
      → part (continue r f v).1 ≡ part w
  continue-Keeps f (ok a) v w e k = k a v ∙ e
  continue-Keeps f (err x) v w e k = e

  pub Keeps-bind :
      {A B : Type 0} (m : M A) (f : A → M B) → Keeps m → ((a : A) → Keeps (f a)) → Keeps (m >>= f)
  Keeps-bind m f hm hf w = continue-Keeps f (m w).0 (m w).1 w (hm w) hf

  pub or_raise-Keeps : {A : Type 0} (o : Option A) (e : Error) → Keeps (or_raise o e)
  or_raise-Keeps none e w = refl
  or_raise-Keeps (some a) e w = refl

  pub raise_if-Keeps : (c : Bool) (e : Error) → Keeps (raise_if c e)
  raise_if-Keeps c e w = refl

  pub if-Keeps :
      {A : Type 0} (c : Bool) (m n : M A) → Keeps m → Keeps n → Keeps (if c then m else n)
  if-Keeps true m n hm hn = hm
  if-Keeps false m n hm hn = hn

  -- What is kept when the action returns a given result.
  pub kept :
      {A : Type 0} (m : M A)
      → Keeps m
      → (w v : World) {r : Result A} → m w ≡ (r, v)
      → part v ≡ part w
  kept {A} m keeps w v {r} h = ap (λ (x : Result A × World). part x.1) (sym h) ∙ keeps w

-- An action that writes nothing.
abbrev pub Reads : {A : Type 0} → M A → Type 0
Reads m = Keeps (λ w. w) m

pub Reads-Keeps : {X : Type 0} (part : World → X) {A : Type 0} (m : M A) → Reads m → Keeps part m
Reads-Keeps part m reads w = ap part (reads w)

-- Whether an action raises or returns.
pub run_cases :
    {A : Type 0} (m : M A) (w : World)
    → ((e : Error) × (v : World) × (m w ≡ (err e, v))) ⊎ ((a : A) × (v : World) × (m w ≡ (ok a, v)))
run_cases {A} m w = split (m w) refl
  where
    split :
        (r : Result A × World)
        → m w ≡ r
        → ((e : Error) × (v : World) × (m w ≡ (err e, v)))
          ⊎ ((a : A) × (v : World) × (m w ≡ (ok a, v)))
    split (err e, v) h = inl (e, v, h)
    split (ok a, v) h = inr (a, v, h)

continue-pure :
    {A B : Type 0} (f : A → B) (r : Result A) (w : World) → (continue r (λ a. pure (f a)) w).1 ≡ w
continue-pure f (ok a) w = refl
continue-pure f (err e) w = refl

-- What is done to a result afterwards does not touch the world.
pub map-world :
    {A B : Type 0} (m : M A) (f : A → B) (w : World) → ((m >>= λ a. pure (f a)) w).1 ≡ (m w).1
map-world m f w = continue-pure f (m w).0 (m w).1
