-- ===== src/Schema/Stored.antt =====
-- Reading a bundle after it was written.
use loop_revops_agents.Base.{
  ◌≡◌, refl, sym, ap, ◌∙◌, ◌⊎◌, String, true, Option, none, some, List, [], ◌∷◌, ◌++◌, arith,
  str_eq, eq_iff, if◌then◌else◌, Bool-cases, Option-cases, inl, inr,
}
use mathlib.Core.Option
use loop_revops_agents.World.{World, ok, err, file_not_found, missing_key}
use loop_revops_agents.World.Values.{
  Json, null, flag, number, text, array, object, Fields, find_field,
}
use loop_revops_agents.World.Bundles.{Bundle, find_bundle, update_bundle}
use loop_revops_agents.World.Keeps.{Reads, or_raise-Keeps}
use loop_revops_agents.Schema.{load_manifest, save_manifest, dict_of, text_of, key_of, item_of}

pub str_eq_refl : (s : String) → str_eq s s ≡ true
str_eq_refl s = (eq_iff s s).1 refl

pub find_bundle-update :
    (slug : String) (f : Bundle → Bundle) (bs : List Bundle) (b : Bundle)
    → ((c : Bundle) → (f c).slug ≡ c.slug)
    → find_bundle slug bs ≡ some b
    → find_bundle slug (update_bundle slug f bs) ≡ some (f b)
unfolding find_bundle update_bundle
find_bundle-update slug f [] b same h = absurd (cc)
find_bundle-update slug f (c ∷ bs) b same h = elim (Bool-cases (str_eq c.slug slug)) [
  | inl here ↦
      let found : ◌≡◌ {A = Option Bundle} (if str_eq c.slug slug then some c else _) (some b) = h in
      rw (here, ap (λ s. str_eq s slug) (same c) ∙ here)
        (ap (Option.map f) (sym (ap (λ t. if t then some c else find_bundle slug bs) here) ∙ found))
  | inr there ↦ rw (there, there) (find_bundle-update slug f bs b same (ground (arith, there)))
]

pub find_bundle-append_new :
    (bs : List Bundle) (b : Bundle)
    → find_bundle b.slug bs ≡ none
    → find_bundle b.slug (bs ++ b ∷ []) ≡ some b
unfolding find_bundle
find_bundle-append_new [] b h = rw (str_eq_refl b.slug)
find_bundle-append_new (c ∷ bs) b h = elim (Bool-cases (str_eq c.slug b.slug)) [
  | inl here ↦ absurd (ground (arith, here))
  | inr there ↦ rw there (find_bundle-append_new bs b (ground (arith, there)))
]

-- The manifest of the bundle of this name is `manifest`.
abbrev pub Holds : String → Fields → World → Type 0
Holds slug manifest w = load_manifest slug w ≡ (ok manifest, w)

pub load-Reads : (slug : String) → Reads (load_manifest slug)
unfolding load_manifest
load-Reads slug w = elim (Option-cases (find_bundle slug w.bundles)) [
  | inl gone ↦ rw (load_manifest, gone) refl
  | inr (b, found) ↦ rw (load_manifest, found) refl
]

pub load_found :
    (slug : String) (w : World) (b : Bundle)
    → find_bundle slug w.bundles ≡ some b
    → Holds slug b.manifest w
unfolding load_manifest
load_found slug w b found = rw (load_manifest, found)

pub load_cases :
    (slug : String) (w : World)
    → (load_manifest slug w ≡ (err file_not_found, w))
      ⊎ ((b : Bundle) × (find_bundle slug w.bundles ≡ some b) × Holds slug b.manifest w)
unfolding load_manifest
load_cases slug w = elim (Option-cases (find_bundle slug w.bundles)) [
  | inl gone ↦ inl (rw (load_manifest, gone))
  | inr (b, found) ↦ inr (b, found, load_found slug w b found)
]

-- What is saved in a bundle that is there is loaded again.
pub load-save :
    (slug : String) (m : Fields) (w : World) (b : Bundle)
    → find_bundle slug w.bundles ≡ some b
    → Holds slug m (save_manifest slug m w).1
unfolding load_manifest save_manifest
load-save slug m w b found = rw (
  load_manifest,
  save_manifest,
  find_bundle-update slug (λ c. record c { manifest = m }) w.bundles b (λ c. refl) found,
)

pub dict_of-Reads : (v : Json) → Reads (dict_of v)
dict_of-Reads (object d) w = refl
dict_of-Reads null w = refl
dict_of-Reads (flag _) w = refl
dict_of-Reads (number _) w = refl
dict_of-Reads (text _) w = refl
dict_of-Reads (array _) w = refl

pub text_of-Reads : (v : Json) → Reads (text_of v)
text_of-Reads (text s) w = refl
text_of-Reads null w = refl
text_of-Reads (flag _) w = refl
text_of-Reads (number _) w = refl
text_of-Reads (object _) w = refl
text_of-Reads (array _) w = refl

pub key_of-Reads : (key : String) (d : Fields) → Reads (key_of key d)
key_of-Reads key d = or_raise-Keeps (λ w. w) (find_field key d) missing_key

pub item_of-Reads : (key : String) (v : Json) → Reads (item_of key v)
item_of-Reads key (object d) w = key_of-Reads key d w
item_of-Reads key null w = refl
item_of-Reads key (flag _) w = refl
item_of-Reads key (number _) w = refl
item_of-Reads key (text _) w = refl
item_of-Reads key (array _) w = refl
