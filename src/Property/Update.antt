-- ===== src/Property/Update.antt =====
-- UpdateAgg and GetValueinAgg of src/redfishresource/internal_commands.go: a value is set, appended
-- to or read at a path of keys through nested properties.
use sailfish.Base.{
  Bool, List, Option, String, [], false, if◌then◌else◌, leb_ℤ, ltb, none, pos, pos_part, some, true,
  ℕ, ℤ, ◌+◌, ◌-◌, ◌∷◌,
}
use sailfish.Property.{Fields, Value, Values, dict, list, null, prop}
use sailfish.Property.Access.{drop_values, get, put, size}
use sailfish.Property.Parse.{parse}

-- The errors of both functions, and the run-time panics of their type assertions and comparison.
pub data Fault : Type 0 where
  wrong_type not_found not_property not_map panic : Fault

pub data Result {ℓ} (A : Type ℓ) : Type ℓ where
  ok : A → Result A
  err : Fault → Result A

abbrev pub map_result {ℓ κ} : {A : Type ℓ} {B : Type κ} → (A → B) → Result A → Result B
map_result f (ok a) = ok (f a)
map_result f (err e) = err e

-- v.([]interface{})
abbrev pub as_list : Value → Option Values
as_list (list xs) = some xs
as_list _ = none

-- v.(map[string]interface{})
abbrev pub as_dict : Value → Option Fields
as_dict (dict fs) = some fs
as_dict _ = none

-- Comparing two interfaces that both hold maps panics.
abbrev pub both_maps : Value → Value → Bool
both_maps (dict fs) (dict gs) = true
both_maps _ _ = false

-- k2.Parse of what fits, by the code's slice expression, and then of the former entries again.
unfoldable pub append_metric : ℕ → Values → Values → Value
append_metric limit old new =
    if ltb limit (size old + size new)
    then parse (parse (list old) (list (drop_values (limit - size old) new))) (list old)
    else parse (parse (list old) (list new)) (list old)

-- The case of a slice: a full report is skipped, which goes on with the next key in the same map.
unfoldable pub append_at :
    Fields → String → Value → Fields → Bool → Values → ℤ → Result Fields → Result Fields
append_at loc p k m e new limit next = elim (as_list k) [
  | none ↦ err panic
  | some old ↦
      if leb_ℤ limit (pos (size old))
      then next
      else ok (put p (prop (append_metric (pos_part limit) old new) m e) loc)
]

-- The last key of a path takes the value; an equal value is left as it is, which is the same.
unfoldable pub set_at : Fields → String → Value → Fields → Bool → Value → Result Fields
set_at loc p k m e v = if both_maps k v then err panic else ok (put p (prop v m e) loc)

-- A key before the last must hold a map.
unfoldable pub descend :
    Fields → String → Value → Fields → Bool → (Fields → Result Fields) → Result Fields
descend loc p k m e next = elim (as_dict k) [
  | none ↦ err not_map
  | some inner ↦ map_result (λ fs. put p (prop (dict fs) m e) loc) (next inner)
]

abbrev pub is_last : List String → Bool
is_last [] = true
is_last (q ∷ qs) = false

-- One round of the loop at the property found under `p`.
unfoldable pub update_at :
    Fields
    → String
    → Value
    → Fields
    → Bool
    → Bool
    → Value
    → ℤ
    → (Fields → Result Fields)
    → Result Fields
unfolding append_at set_at descend
update_at loc p k m e last v limit next = elim (as_list v) [
  | some new ↦ append_at loc p k m e new limit (next loc)
  | none ↦ if last then set_at loc p k m e v else descend loc p k m e next
]

abbrev pub at_property {ℓ} :
    {A : Type ℓ} → Option Value → (Value → Fields → Bool → Result A) → Result A
at_property none found = err not_found
at_property (some (prop k m e)) found = found k m e
at_property (some _) found = err not_property

unfoldable pub update_path : Fields → List String → Value → ℤ → Result Fields
unfolding update_at
update_path loc [] v limit = ok loc
update_path loc (p ∷ ps) v limit =
    at_property (get p loc)
      (λ k m e. update_at loc p k m e (is_last ps) v limit (λ l. update_path l ps v limit))

-- UpdateAgg(a, pathSlice, v, appendLimit), as the new Value of a.Properties.
unfoldable pub update_agg : Value → List String → Value → ℤ → Result Value
unfolding update_path
update_agg tree path v limit = elim (as_dict tree) [
  | none ↦ err wrong_type
  | some loc ↦ map_result dict (update_path loc path v limit)
]

unfoldable pub get_path : Fields → List String → Result Value
get_path loc [] = ok null
get_path loc (p ∷ ps) = at_property (get p loc) (λ k m e.
    if is_last ps
    then ok k
    else elim (as_dict k) [ none ↦ err not_map | some inner ↦ get_path inner ps ])

-- GetValueinAgg(a, pathSlice)
unfoldable pub get_value : Value → List String → Result Value
unfolding get_path
get_value tree path = elim (as_dict tree) [ none ↦ err wrong_type | some loc ↦ get_path loc path ]
