-- ===== src/Query/Filter.antt =====
-- processFilterOneObject and handleCollectionFilter: which members of a collection a $filter keeps.
use sailfish.Property.Access.{append, drop_values, get, size, take_values}
use sailfish.Base.{
  Bool, List, Option, String, [], eqb_ℤ, false, if◌then◌else◌, leb_ℤ, length, ltb, ltb_ℤ, none, pos,
  some, str_eq, true, ℕ, ℤ, ◌&&◌, ◌+◌, ◌==◌, ◌∷◌,
}
use sailfish.Property.{Fields, Value, Values, cons, dict, list, nil, null, number, text}
use sailfish.Resource.Escape.{split}
use sailfish.Query.Text.{atoi, contains}

pub data Comparator : Type 0 where
  eq lt gt ge le contained : Comparator

pub record FilterTest : Type 0 where
  pub category : String
  pub search_term : String
  pub comparator : Comparator

-- getValueWithPath: a missing value and a null one are the same here.
unfoldable pub get_value_with_path : Fields → List String → Option Value
get_value_with_path fs [] = none
get_value_with_path fs (p ∷ []) = elim (get p fs) as (λ x. Option Value) [
  | some null ↦ none
  | o ↦ o
]
get_value_with_path fs (p ∷ q ∷ path) = elim (get p fs) as (λ x. Option Value) [
  | some (dict inner) ↦ get_value_with_path inner (q ∷ path)
  | _ ↦ none
]

-- getCategoryValue: the path, or else a field of a log entry.
unfoldable pub get_category_value : Fields → String → Option Value
unfolding get_value_with_path
get_category_value fs c = elim (get_value_with_path fs (split b'/' c)) as (λ x. Option Value) [
  | some v ↦ some v
  | none ↦ get_value_with_path fs ("Oem" ∷ "Dell" ∷ c ∷ [])
]

-- sevInteger
unfoldable pub sev_integer : String → ℕ
sev_integer s =
    if str_eq s "Fatal"
    then 4
    else if str_eq s "Critical"
    then 3
    else if str_eq s "Warning"
    then 2
    else if str_eq s "OK"
    then 1
    else 0

-- The switch on the comparator; the search for a part of a text has no case in it.
abbrev pub compares : Comparator → ℤ → ℤ → Bool
compares ge a b = leb_ℤ b a
compares gt a b = ltb_ℤ b a
compares le a b = leb_ℤ a b
compares lt a b = ltb_ℤ a b
compares eq a b = eqb_ℤ a b
compares contained a b = false

abbrev pub or_time : Option ℤ → Option ℤ → Option ℤ
or_time (some t) o = some t
or_time none o = o

-- The loop over a slice of texts; another item panics.
unfoldable pub any_contains : Values → String → Option Bool
unfolding contains
any_contains nil term = some false
any_contains (cons (text s) xs) term =
    let rest = any_contains xs term in if contains term s then some true else rest
any_contains (cons _ xs) term = none

-- `time_parse` is time.Parse of the standard library, of a layout and a text, as an instant counted
-- from Go's zero time.
module _ (time_parse : String → String → Option ℤ) where
  unfoldable pub parse_either : String → Option ℤ
  parse_either s =
      or_time (time_parse "2006-01-02T15:04:05Z07:00" s) (time_parse "2006-01-02T15:04:05-0700" s)

  -- A member's time that cannot be read is the zero time; a search time that cannot be read fits none.
  unfoldable pub keep_created : String → FilterTest → Bool
  unfolding parse_either
  keep_created member t = elim (parse_either t.search_term) [
    | none ↦ false
    | some search ↦
        compares t.comparator (elim (parse_either member) as (λ x. ℤ) [ none ↦ pos 0 | some m ↦ m ])
          search
  ]

  unfoldable pub keep_text : String → FilterTest → Bool
  unfolding sev_integer keep_created contains
  keep_text member t =
      if str_eq t.category "Severity"
      then ltb 0 (sev_integer member)
        && (ltb 0 (sev_integer t.search_term)
            && compares t.comparator (pos (sev_integer member)) (pos (sev_integer t.search_term)))
      else if str_eq t.category "Created"
      then keep_created member t
      else contains t.search_term member

  -- Whether one test keeps a value; nothing if it panics.
  unfoldable pub keep_value : Value → FilterTest → Option Bool
  unfolding keep_text any_contains atoi
  keep_value (text s) t = some (keep_text s t)
  keep_value (number n) t =
      some ((atoi t.search_term).1 && compares t.comparator n (atoi t.search_term).0)
  keep_value (list xs) t = any_contains xs t.search_term
  keep_value _ t = some true

  -- processFilterOneObject
  unfoldable pub process_filter_one_object : Fields → List FilterTest → Option Bool
  unfolding get_category_value keep_value
  process_filter_one_object fs [] = some true
  process_filter_one_object fs (t ∷ ts) =
      elim (get_category_value fs t.category) as (λ x. Option Bool) [
        | none ↦ some false
        | some v ↦ elim (keep_value v t) as (λ x. Option Bool) [
          | some true ↦ process_filter_one_object fs ts
          | o ↦ o
        ]
      ]

-- The loop that collects the indices of the members to keep. It ends at a member that is no map.
pub data Kept : Type 0 where
  indices : List ℕ → Kept
  not_a_map : Kept
  panicked : Kept

abbrev pub add_index : ℕ → Kept → Kept
add_index i (indices is) = indices (i ∷ is)
add_index i not_a_map = not_a_map
add_index i panicked = panicked

unfoldable pub keep_from : (Fields → Option Bool) → ℕ → Values → Kept
keep_from test i nil = indices []
keep_from test i (cons (dict fs) ms) =
    let rest = keep_from test (i + 1) ms in
    elim (test fs) as (λ x. Kept) [
      | some true ↦ add_index i rest
      | some false ↦ rest
      | none ↦ panicked
    ]
keep_from test i (cons _ ms) = not_a_map

-- membersArr[index] for each index
unfoldable pub members_at : List ℕ → Values → Values
members_at [] ms = nil
members_at (i ∷ is) ms = append (take_values 1 (drop_values i ms)) (members_at is ms)

-- handleCollectionFilter with the array of tests that createFilterArray makes, none for a syntax
-- error; nothing if it panics.
unfoldable pub handle_collection_filter :
    (Fields → List FilterTest → Option Bool) → Option (List FilterTest) → Values → Option Values
unfolding keep_from members_at
handle_collection_filter process none ms = some nil
handle_collection_filter process (some []) ms = some ms
handle_collection_filter process (some (t ∷ ts)) ms =
    elim (keep_from (λ fs. process fs (t ∷ ts)) 0 ms) as (λ x. Option Values) [
      | panicked ↦ none
      | not_a_map ↦ some ms
      | indices keep ↦ some (if length keep == size ms then ms else members_at keep ms)
    ]
