-- ===== src/Witness/Querying.antt =====
-- Pages of a collection.
use sailfish.Property.Access.{get}
use sailfish.Base.{Option, String, [], arith, false, none, pos, refl, some, true, ℤ, ◌∷◌, ◌≡◌}
use sailfish.Property.{Fields, Value, Values, cons, dict, end, field, list, nil, number, text}
use sailfish.Query.Page.{Options, handle_collection_query_options, page}
use sailfish.Query.Window.{handle_collection_query_options-window}
use sailfish.Resource.Escape.{split}
use sailfish.Query.Filter.{FilterTest, gt, process_filter_one_object}
use sailfish.Query.Kept.{AreTested}
use sailfish.Query.Options.{setup_options}

abbrev three_members : Values
three_members = cons (text "a") (cons (text "b") (cons (text "c") nil))

-- ?$skip=1&$top=1
abbrev second : Options
second = record {
  do_filter = false;
  filter = "";
  do_skip = true;
  skip = pos 1;
  do_top = true;
  top = pos 1;
  path = "/redfish/v1/Chassis";
  encode = "";
}

second_test : setup_options (("$skip", "1") ∷ ("$top", "1") ∷ []) "/redfish/v1/Chassis" ≡ second
unfolding setup_options
second_test = refl

found : get "Members" (field "Members" (list three_members) end) ≡ some (list three_members)
unfolding get
found = refl

-- The same page of what a filter leaves, which takes the first member out.
abbrev second_filtered : Options
second_filtered = record second { do_filter = true; filter = "rest" }

abbrev without_first : String → Values → Option Values
without_first f nil = none
without_first f (cons v vs) = some vs

handle_collection_query_options-window_example :
    (fs : Fields) × (handle_collection_query_options without_first second_filtered
        (dict (field "Members" (list three_members) end))
      ≡ page fs)
    × (get "Members" fs ≡ some (list (cons (text "c") nil)))
    × (get "Members@odata.count" fs ≡ some (number (pos 2)))
handle_collection_query_options-window_example =
    handle_collection_query_options-window without_first second_filtered
      (field "Members" (list three_members) end) three_members
      (cons (text "b") (cons (text "c") nil)) found refl (omega arith)

abbrev entry : String → Value
entry severity = dict (field "Severity" (text severity) end)

abbrev entries : Values
entries = cons (entry "OK") (cons (entry "Fatal") (cons (entry "Warning") nil))

-- $filter=Severity gt OK
abbrev above_ok : FilterTest
above_ok = record { category = "Severity"; search_term = "OK"; comparator = gt }

abbrev no_time : String → String → Option ℤ
no_time layout s = none

entries_tested : AreTested (λ fs. process_filter_one_object no_time fs (above_ok ∷ [])) entries
unfolding process_filter_one_object split get
entries_tested = (λ e. cc e, (λ e. cc e, (λ e. cc e, tt)))
