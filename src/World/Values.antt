-- ===== src/World/Values.antt =====
-- The dictionaries that the gates and the audit log store: `json.loads (json.dumps d)` is `d`.
use loop_revops_agents.Base.{
  ℕ, String, ◌≡◌, Bool, true, false, Option, none, some, List, [], ◌∷◌, ◌==◌, arith, str_eq, not,
  if◌then◌else◌, eq_iff, suc, ◌&&◌,
}

mutual
  pub data Json : Type 0 where
    null : Json
    flag : Bool → Json
    number : ℕ → Json
    text : String → Json
    array : Items → Json
    object : Fields → Json

  pub data Items : Type 0 where
    nil : Items
    item : Json → Items → Items

  pub data Fields : Type 0 where
    end : Fields
    field : String → Json → Fields → Fields

unfoldable pub find_field : String → Fields → Option Json
find_field k end = none
find_field k (field j v rest) = if str_eq j k then some v else find_field k rest

-- `d.get(key)`: a key that is missing reads as `None`.
unfoldable pub get : String → Fields → Json
unfolding find_field
get k d = elim (find_field k d) [ none ↦ null | some v ↦ v ]

-- `{**d, key: value}`
unfoldable pub put : String → Json → Fields → Fields
put k v end = field k v end
put k v (field j w rest) = if str_eq j k then field j v rest else field j w (put k v rest)

-- Python's truth value.
abbrev pub truthy : Json → Bool
truthy null = false
truthy (flag b) = b
truthy (number n) = not (n == 0)
truthy (text s) = not (str_eq s "")
truthy (array nil) = false
truthy (array (item _ _)) = true
truthy (object end) = false
truthy (object (field _ _ _)) = true

-- `a or b`
abbrev pub or_else : Json → Json → Json
or_else a b = if truthy a then a else b

abbrev pub is_end : Fields → Bool
is_end end = true
is_end (field _ _ _) = false

-- A nullable value of a row or of a call, as JSON.
abbrev pub of_text : Option String → Json
of_text none = null
of_text (some s) = text s

abbrev pub of_id : Option ℕ → Json
of_id none = null
of_id (some n) = number n

-- `json.dumps(d) if d else None`
abbrev pub or_null : Option Fields → Option Fields
or_null none = none
or_null (some d) = if is_end d then none else some d

abbrev pub array_of : List Json → Items
array_of [] = nil
array_of (x ∷ xs) = item x (array_of xs)

abbrev pub flag_number : Bool → ℕ
flag_number true = 1
flag_number false = 0

abbrev count_fields : Fields → ℕ
count_fields end = 0
count_fields (field _ _ rest) = suc (count_fields rest)

-- Python's `==`: `True` equals 1, and the order of a dictionary's keys does not count.
unfoldable mutual
  unfolding find_field

  pub json_eq : Json → Json → Bool
  json_eq null null = true
  json_eq (flag a) (flag b) = flag_number a == flag_number b
  json_eq (flag a) (number n) = flag_number a == n
  json_eq (number m) (flag b) = m == flag_number b
  json_eq (number m) (number n) = m == n
  json_eq (text s) (text t) = str_eq s t
  json_eq (array xs) (array ys) = items_eq xs ys
  json_eq (object d) (object e) = (count_fields d == count_fields e) && fields_in d e
  json_eq _ _ = false

  pub items_eq : Items → Items → Bool
  items_eq nil nil = true
  items_eq (item x xs) (item y ys) = json_eq x y && items_eq xs ys
  items_eq _ _ = false

  pub fields_in : Fields → Fields → Bool
  fields_in end e = true
  fields_in (field k v rest) e =
      elim (find_field k e) [ none ↦ false | some u ↦ json_eq v u ] && fields_in rest e

find_field-put :
    (k j : String) (v : Json) (d : Fields)
    → find_field j (put k v d) ≡ (if str_eq k j then some v else find_field j d)
unfolding find_field put
find_field-put k j v end = ground arith
find_field-put k j v (field i w rest) =
    ground (arith, eq_iff i k, eq_iff i j, eq_iff k j, find_field-put k j v rest)

-- What is read after a write.
pub get-put :
    (k j : String) (v : Json) (d : Fields) → get j (put k v d) ≡ (if str_eq k j then v else get j d)
unfolding get
get-put k j v d = rw (find_field-put k j v d, get) (ground arith)
