-- ===== src/Witness/Trees.antt =====
-- Property trees, requests and privileges.
use sailfish.Property.Access.{append, get, put, size}
use sailfish.Base.{[], arith, false, if◌then◌else◌, ltb, pos, refl, ◌+◌, ◌-◌, ◌∷◌, ◌≡◌}
use sailfish.Property.{Values, cons, dict, end, list, nil, null, number, prop, text}
use sailfish.Property.Parse.{list_of, parse, strip_suffix}
use sailfish.Property.Flatten.{flatten}
use sailfish.Property.RoundTrip.{ArePlain, flatten-parse}
use sailfish.Property.Update.{append_metric, get_value, ok, update_agg}
use sailfish.Property.UpdateLaws.{get_value-update_agg}
use sailfish.Property.Metric.{append_metric-entries, kept, wrap}
use sailfish.Witness.Data.{chassis_properties, status_tree}

chassis-ArePlain : ArePlain chassis_properties
unfolding strip_suffix
chassis-ArePlain = (refl, refl, tt, (refl, refl, (tt, tt), tt))

flatten-parse_example : flatten (parse null (dict chassis_properties)) ≡ dict chassis_properties
flatten-parse_example = flatten-parse (dict chassis_properties) chassis-ArePlain

update_status :
    update_agg (status_tree (text "OK")) ("Status" ∷ "Health" ∷ []) (text "Critical") (pos 0)
    ≡ ok (status_tree (text "Critical"))
unfolding update_agg get put
update_status = refl

get_value-update_agg_example :
    get_value (status_tree (text "Critical")) ("Status" ∷ "Health" ∷ []) ≡ ok (text "Critical")
get_value-update_agg_example =
    get_value-update_agg (status_tree (text "OK")) (status_tree (text "Critical"))
      ("Status" ∷ "Health" ∷ []) (text "Critical") (pos 0) (λ e. cc e) refl update_status

abbrev one_metric : Values
one_metric = cons (prop (number (pos 1)) end false) nil

abbrev new_metrics : Values
new_metrics = cons (number (pos 2)) (cons (number (pos 3)) (cons (number (pos 4)) nil))

append_metric-entries_example :
    (append_metric 3 one_metric new_metrics
      ≡ list (append (append one_metric (wrap (kept 3 one_metric new_metrics))) (wrap one_metric)))
    × (size (list_of (append_metric 3 one_metric new_metrics))
        ≡ size one_metric
          + size one_metric
          + (if ltb 3 (size one_metric + 3) then size one_metric + 3 - 3 else 3))
append_metric-entries_example = append_metric-entries 3 one_metric new_metrics (omega arith)
