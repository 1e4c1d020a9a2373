-- ===== src/Mapper/Sets.antt =====
-- The functions "addtoset" and "removefromset" of src/ocp/awesome_mapper2/functions.go, on a property
-- of a model that holds a set as a slice of texts.
use sailfish.Base.{
  Bool, List, Option, String, [], drop, false, if◌then◌else◌, length, none, some, str_eq, suc, take,
  zero, ℕ, ◌++◌, ◌-◌, ◌||◌, ◌∷◌,
}

-- A property: a []string, a []interface{} of which some items are texts, or something else. none is
-- a missing property or nil.
pub data Held : Type 0 where
  strings : List String → Held
  interfaces : List (Option String) → Held
  other_type : Held

-- The items that are texts.
unfoldable pub only_strings : List (Option String) → List String
only_strings [] = []
only_strings (none ∷ rest) = only_strings rest
only_strings (some s ∷ rest) = s ∷ only_strings rest

unfoldable pub has_string : String → List String → Bool
has_string s [] = false
has_string s (t ∷ ts) = str_eq t s || has_string s ts

unfoldable pub members : Option Held → List String
unfolding only_strings
members none = []
members (some (strings l)) = l
members (some (interfaces l)) = only_strings l
members (some other_type) = []

-- addtoset, with arguments of the right types.
unfoldable pub add_to_set : Option Held → String → List String
unfolding members has_string
add_to_set v str = let l = members v in if has_string str l then l else l ++ (str ∷ [])

-- matchIdx, none for -1.
unfoldable pub match_idx : String → List String → Option ℕ
match_idx s [] = none
match_idx s (t ∷ ts) =
    if str_eq t s then some 0 else elim (match_idx s ts) [ none ↦ none | some i ↦ some (suc i) ]

-- The slice that removefromset reads: only a []string counts.
unfoldable pub string_slice : Option Held → List String
string_slice (some (strings l)) = l
string_slice v = []

-- What `append(vStr[:i], xs...)` leaves in the array of vStr, whose length does not change.
unfoldable pub overwrite : ℕ → List String → List String → List String
overwrite i xs [] = []
overwrite (suc i) xs (y ∷ v) = y ∷ overwrite i xs v
overwrite zero [] (y ∷ v) = y ∷ v
overwrite zero (x ∷ xs) (y ∷ v) = x ∷ overwrite zero xs v

-- What removefromset returns, and what the model's property is then: the slice that it returns
-- shares the array of the property's slice.
pub record Removal : Type 0 where
  pub result : List String
  pub held : Option Held

unfoldable pub cut_out : ℕ → List String → Removal
unfolding overwrite
cut_out i v =
    let array = overwrite i (drop (suc i) v) v in
    record { result = take (length v - 1) array; held = some (strings array) }

-- removefromset, with arguments of the right types.
unfoldable pub remove_from_set : Option Held → String → Removal
unfolding string_slice match_idx cut_out
remove_from_set v str = elim (match_idx str (string_slice v)) [
  | none ↦ record { result = string_slice v; held = v }
  | some i ↦ cut_out i (string_slice v)
]
