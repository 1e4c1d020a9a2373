-- ===== src/Query/Page.antt =====
-- handleCollectionQueryOptions: the page of a collection that $skip and $top select.
use sailfish.Property.Access.{delete, drop_values, get, put, size, take_values}
use sailfish.Base.{
  Bool, Option, String, if◌then◌else◌, leb_ℤ, ltb, ltb_ℤ, none, pos, pos_part, some, sub_ℕ, ℕ, ℤ,
  ◌&&◌, ◌+◌, ◌-◌, ◌^◌,
}
use sailfish.Property.{Fields, Value, Values, dict, list, number, text}
use sailfish.Query.Text.{int_bound, url_string}

-- The fields of RedfishAuthorizationProperty that hold query options.
pub record Options : Type 0 where
  pub do_filter : Bool
  pub filter : String
  pub do_skip : Bool
  pub skip : ℤ
  pub do_top : Bool
  pub top : ℤ
  pub path : String
  pub encode : String

-- What becomes of the results: a page, the same results, or a slice expression that panics.
pub data Answer : Type 0 where
  page : Fields → Answer
  unchanged : Answer
  panicked : Answer

-- The int of 64 bits that a sum of two natural ints is.
abbrev pub wrapped : ℕ → ℤ
wrapped n = if ltb n int_bound then pos n else sub_ℕ n (2 ^ 64)

unfoldable pub beginning_of : Options → ℕ → ℕ
beginning_of a len =
    if a.do_skip && ltb_ℤ (pos 0) a.skip
    then (if ltb_ℤ a.skip (pos len) then pos_part a.skip else len)
    else 0

-- Whether the page ends before the collection does.
unfoldable pub is_cut : Options → ℕ → ℕ → Bool
is_cut a beginning len =
    (a.do_top && ltb_ℤ (pos 0) a.top) && ltb_ℤ (wrapped (pos_part a.top + beginning)) (pos len)

-- membersArr[beginning:end]
unfoldable pub slice : ℕ → ℤ → Values → Option Values
slice beginning stop members =
    if leb_ℤ (pos beginning) stop && leb_ℤ stop (pos (size members))
    then some (take_values (pos_part stop - beginning) (drop_values beginning members))
    else none

-- The end of the slice expression.
unfoldable pub stop_of : Options → ℕ → ℕ → ℤ
unfolding is_cut
stop_of a beginning len =
    if is_cut a beginning len then wrapped (pos_part a.top + beginning) else pos len

-- The results without the page, whose copy leaves "members" out. The options that are set for the
-- next page go to a.Query, but the link is made from a.Encode.
unfoldable pub linked_of : Options → Fields → ℕ → ℕ → Fields
unfolding is_cut
linked_of a res beginning len =
    let counted = put "Members@odata.count" (number (pos len)) (delete "members" res) in
    if is_cut a beginning len
    then put "Members@odata.nextlink" (text (url_string a.path a.encode)) counted
    else counted

abbrev pub answer_of : Fields → Option Values → Answer
answer_of linked none = panicked
answer_of linked (some shown) = page (put "Members" (list shown) linked)

unfoldable pub page_of : Options → Fields → Values → Answer
unfolding beginning_of stop_of linked_of slice
page_of a res members =
    let beginning = beginning_of a (size members) in
    answer_of (linked_of a res beginning (size members))
      (slice beginning (stop_of a beginning (size members)) members)

-- The members after the filter, if there is one; none is a panic of the filter.
abbrev pub filtered : (String → Values → Option Values) → Options → Values → Option Values
filtered keep a members = if a.do_filter then keep a.filter members else some members

-- A collection is a map with a slice under "Members"; `keep` is handleCollectionFilter.
unfoldable pub handle_collection_query_options :
    (String → Values → Option Values) → Options → Value → Answer
unfolding page_of
handle_collection_query_options keep a (dict res) = elim (get "Members" res) [
  | some (list members) ↦ elim (filtered keep a members) [
    | none ↦ panicked
    | some kept ↦ page_of a res kept
  ]
  | _ ↦ unchanged
]
handle_collection_query_options keep a _ = unchanged
