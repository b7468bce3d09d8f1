-- ===== src/Routing/Rotation.antt =====
-- Whom a lead goes to: a slot of the rotation, in turn, or the default owner.
use loop_revops_agents.Base.{
  ℕ, zero, suc, ◌+◌, ◌%◌, ◌<◌, ◌≡◌, ◌≢◌, ◌⊎◌, refl, sym, ap, subst, ◌∙◌, Bool, true, Option, none,
  some, List, [], ◌∷◌, ◌&&◌, arith, not, str_eq, eq_iff, length, get_elem?, All, str_ne, ◌++◌,
  Bool-cases, inl, inr,
}
use native.Mathlib.Nat.{mod-lt, mod-add-mod}
use loop_revops_agents.Routing.{
  Segment, ent, mm, smb, ℤ, Router, CachedUser, SfUser, Entry, Territory, Slot, RoutingResult,
  next_index, following, write_index, slots_of, usable, email_key, lookup_user, fallback_owner,
  owner_of, picked, assign_from, assign_owner, ready_router, classify_segment,
}

written : (seg : Segment) (i : ℕ) (s : Router) → (write_index seg i s).rotation seg ≡ some i
written ent i s = refl
written mm i s = refl
written smb i s = refl

elsewhere :
    (seg other : Segment) (i : ℕ) (s : Router)
    → other ≢ seg
    → (write_index seg i s).rotation other ≡ s.rotation other
elsewhere ent ent i s h = absurd (h refl)
elsewhere ent mm i s h = refl
elsewhere ent smb i s h = refl
elsewhere mm ent i s h = refl
elsewhere mm mm i s h = absurd (h refl)
elsewhere mm smb i s h = refl
elsewhere smb ent i s h = refl
elsewhere smb mm i s h = refl
elsewhere smb smb i s h = absurd (h refl)

following-lt : (n : ℕ) (last : Option ℕ) → following (suc n) last < suc n
following-lt n none = omega arith
following-lt n (some i) = mod-lt (i + 1) (omega arith)

group : (a k : ℕ) → a + 1 + k ≡ a + (1 + k)
group a k = omega arith

mod-step : (a m k : ℕ) → (a % m + 1 + k) % m ≡ (a + (1 + k)) % m
mod-step a m k = ap (λ (x : ℕ). x % m) (group (a % m) k) ∙ mod-add-mod a m (1 + k)

-- The index that the call after `k` others of a segment returns, for a rotation of a length.
abbrev pub turn : ℕ → Segment → ℕ → Router → ℕ
turn zero seg n s = (next_index seg n s).0
turn (suc k) seg n s = turn k seg n (next_index seg n s).1

-- The rotation is fair: with `n` slots and the last lead at slot `i`, the leads after it go to the
-- slots `i + 1`, `i + 2` and so on, around the rotation; and a segment's leads do not move another's.
pub turn_lem :
    (k n i : ℕ) (seg other : Segment) (s : Router)
    → s.rotation seg ≡ some i
    → other ≢ seg
    → (turn k seg (suc n) s ≡ (i + 1 + k) % suc n)
      × ((next_index seg (suc n) s).1.rotation other ≡ s.rotation other)
unfolding next_index
turn_lem zero n i seg other s h ne = (rw h (ground arith), elsewhere seg other _ s ne)
turn_lem (suc k) n i seg other s h ne =
    let s' = write_index seg (following (suc n) (s.rotation seg)) s in
    let now : s'.rotation seg ≡ some ((i + 1) % suc n) =
      written seg _ s ∙ ap (λ (o : Option ℕ). some (following (suc n) o)) h in
    let (later, _) = turn_lem k n ((i + 1) % suc n) seg other s' now ne in
    (
      later ∙ mod-step (i + 1) (suc n) k ∙ ap (λ (x : ℕ). x % suc n) (omega arith),
      elsewhere seg other _ s ne,
    )

next_index-lt : (n : ℕ) (seg : Segment) (s : Router) → (next_index seg (suc n) s).0 < suc n
unfolding next_index
next_index-lt n seg s = following-lt n (s.rotation seg)

in_range : {A : Type 0} (xs : List A) (i : ℕ) → i < length xs → (x : A) × (get_elem? xs i ≡ some x)
in_range [] i h = absurd (omega arith)
in_range (x ∷ xs) zero h = (x, refl)
in_range (x ∷ xs) (suc i) h = in_range xs i (omega arith)

all_elem :
    {A : Type 0} (P : A → Type 0) (xs : List A) (i : ℕ) (x : A)
    → All P xs
    → get_elem? xs i ≡ some x
    → P x
all_elem P [] i x h e = absurd (cc)
all_elem P (y ∷ ys) zero x h e = let same : y ≡ x = cc in subst P same h.0
all_elem P (y ∷ ys) (suc i) x h e = all_elem P ys i x h.1 e

-- An entry of the rotation that can be chosen: its email is that of a row of the cache that is not
-- older than a day, of an active user.
abbrev pub Fit : ℕ → List CachedUser → Entry → Type 0
Fit now cache entry =
    (u : CachedUser) × (email_key entry.email ≢ "")
    × (lookup_user now (email_key entry.email) cache ≡ some u)
    × (u.is_active ≡ true)
    × (u.user_id ≢ "")

-- The slot of an entry, with its user.
abbrev pub slot_for : Entry → CachedUser → Slot
slot_for entry u = record {
  email = email_key entry.email;
  slack_id = entry.slack_id;
  user_id = u.user_id;
}

-- The entry is one of the rotation.
abbrev pub In : Entry → List Entry → Type 0
In entry [] = ⊥
In entry (e ∷ es) = (entry ≡ e) ⊎ In entry es

-- A slot that comes from an entry that can be chosen.
abbrev From : ℕ → List CachedUser → List Entry → Slot → Type 0
From now cache entries slot =
    (entry : Entry) × In entry entries × (fit : Fit now cache entry) × (slot ≡ slot_for entry fit.0)

-- What the slots say of their entries: each comes from one, and none are left out.
abbrev Slots : ℕ → List CachedUser → List Entry → List Slot → Type 0
Slots now cache entries slots =
    All (From now cache entries) slots × (slots ≡ [] → All (λ e. Fit now cache e → ⊥) entries)

later-From :
    (now : ℕ) (cache : List CachedUser) (entry : Entry) (entries : List Entry) (slots : List Slot)
    → All (From now cache entries) slots
    → All (From now cache (entry ∷ entries)) slots
later-From now cache entry entries [] h = tt
later-From now cache entry entries (slot ∷ slots) h =
    let (e, there, fit, same) = h.0 in
    ((e, inr there, fit, same), later-From now cache entry entries slots h.1)

-- An entry that cannot be chosen adds no slot.
skip-Slots :
    (now : ℕ) (cache : List CachedUser) (entry : Entry) (entries : List Entry) (slots : List Slot)
    → (Fit now cache entry → ⊥)
    → Slots now cache entries slots
    → Slots now cache (entry ∷ entries) slots
skip-Slots now cache entry entries slots unfit (each, none_left) =
    (later-From now cache entry entries slots each, λ e. (unfit, none_left e))

-- The slots of an entry, by what its email finds, before those of the entries after it.
entry-Slots :
    (now : ℕ) (cache : List CachedUser) (entry : Entry) (entries : List Entry) (slots : List Slot)
    (o : Option CachedUser)
    → email_key entry.email ≢ ""
    → lookup_user now (email_key entry.email) cache ≡ o
    → Slots now cache entries slots
    → Slots now cache (entry ∷ entries) (usable entry o ++ slots)
entry-Slots now cache entry entries slots none named h rest =
    skip-Slots now cache entry entries slots (λ fit. absurd (cc (sym h ∙ fit.2))) rest
entry-Slots now cache entry entries slots (some u) named h rest =
    elim (Bool-cases (u.is_active && not (str_eq u.user_id ""))) [
      | inl fit ↦
          let live : u.is_active ≡ true = ground arith in
          let known : u.user_id ≢ "" = ground (arith, eq_iff u.user_id "") in
          rw fit (
            (
              (entry, inl refl, (u, named, h, live, known), refl),
              later-From now cache entry entries slots rest.0,
            ),
            λ e. absurd (cc),
          )
      | inr unfit ↦
          let no : Fit now cache entry → ⊥ = λ x.
            let same : u ≡ x.0 = cc (sym h ∙ x.2) in
            let live : u.is_active ≡ true = ap (λ (y : CachedUser). y.is_active) same ∙ x.3 in
            let known : u.user_id ≢ "" =
              λ e. x.4 (ap (λ (y : CachedUser). y.user_id) (sym same) ∙ e) in
            ground (arith, eq_iff u.user_id "") in
          rw unfit (skip-Slots now cache entry entries slots no rest)
    ]

slots_of-Slots :
    (now : ℕ) (cache : List CachedUser) (entries : List Entry)
    → Slots now cache entries (slots_of now cache entries)
unfolding slots_of
slots_of-Slots now cache [] = (tt, λ e. tt)
slots_of-Slots now cache (entry ∷ rest) =
    let ih = slots_of-Slots now cache rest in
    elim (Bool-cases (str_eq (email_key entry.email) "")) [
      | inl blank ↦
          let empty : email_key entry.email ≡ "" = (eq_iff (email_key entry.email) "").0 blank in
          rw blank (
            skip-Slots now cache entry rest (slots_of now cache rest) (λ fit. absurd (fit.1 empty))
              ih)
      | inr named ↦
          let found = lookup_user now (email_key entry.email) cache in
          rw named (
            entry-Slots now cache entry rest (slots_of now cache rest) found
              (str_ne (email_key entry.email) "" named) refl ih)
    ]

-- What a choice of owner from a rotation comes to.
abbrev pub Chosen : ℕ → Territory → Segment → Router → Option RoutingResult × Router → Type 0
Chosen now cfg seg s (r, v) =
    (All (λ e. Fit now s.cache e → ⊥) (cfg.rotation seg)
      × (r ≡ some (fallback_owner cfg seg))
      × (v ≡ s))
    ⊎ ((entry : Entry) × In entry (cfg.rotation seg)
        × (fit : Fit now s.cache entry) × (r ≡ some (owner_of seg (slot_for entry fit.0))))

assign_from-Chosen :
    (now : ℕ) (cfg : Territory) (seg : Segment) (slots : List Slot) (s : Router)
    → Slots now s.cache (cfg.rotation seg) slots
    → Chosen now cfg seg s (assign_from cfg seg slots s)
assign_from-Chosen now cfg seg [] s h = inl (h.1 refl, refl, refl)
assign_from-Chosen now cfg seg (slot ∷ slots) s h =
    let i = (next_index seg (length (slot ∷ slots)) s).0 in
    let (x, e) = in_range (slot ∷ slots) i (next_index-lt (length slots) seg s) in
    let (entry, there, fit, same) =
      all_elem (From now s.cache (cfg.rotation seg)) (slot ∷ slots) i x h.0 e in
    inr (entry, there, fit, ap (picked seg) e ∙ ap (λ (y : Slot). some (owner_of seg y)) same)

-- `assign_owner` always finds an owner: the list of slots is never read out of range. Either no entry
-- of the segment's rotation can be chosen, and the default owner is taken and the rotation left as
-- it is; or the owner is the active user of an entry that can be chosen. So the default owner is
-- taken exactly when no entry can be chosen.
pub assign_owner_lem :
    (now : ℕ) (count : Option ℤ) (cfg : Territory) (auto : Bool) (users : Option (List SfUser))
    (s : Router)
    → Chosen now cfg
        (classify_segment count)
        (ready_router now auto users s)
        (assign_owner now count cfg auto users s)
unfolding assign_owner
assign_owner_lem now count cfg auto users s =
    let seg = classify_segment count in
    let ready = ready_router now auto users s in
    assign_from-Chosen now cfg seg (slots_of now ready.cache (cfg.rotation seg)) ready
      (slots_of-Slots now ready.cache (cfg.rotation seg))
