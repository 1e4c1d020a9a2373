-- ===== src/Property/Metric.antt =====
-- How UpdateAgg appends metric values to a report that has an append limit.
use sailfish.Base.{
  Bool-cases, ap, arith, false, if◌then◌else◌, inl, inr, ltb, refl, suc, sym, ℕ, ◌+◌, ◌-◌, ◌<◌, ◌∙◌,
  ◌≡◌,
}
use sailfish.Property.{Values, cons, end, list, nil, null, prop}
use sailfish.Property.Access.{
  append, append-nil, append_assoc, drop_values, size, size-append, size-drop_values,
}
use sailfish.Property.Parse.{list_of, parse, parse_values}
use sailfish.Property.Update.{append_metric}

-- The entries of a slice as Parse stores them.
abbrev pub wrap : Values → Values
unfolding parse
wrap nil = nil
wrap (cons v vs) = cons (prop (parse null v) end false) (wrap vs)

size-wrap : (xs : Values) → size (wrap xs) ≡ size xs
unfolding parse
size-wrap nil = refl
size-wrap (cons v vs) = ap suc (size-wrap vs)

parse_values-wrap : (into xs : Values) → parse_values into xs ≡ append into (wrap xs)
unfolding parse
parse_values-wrap into nil = sym (append-nil into)
parse_values-wrap into (cons v vs) =
    parse_values-wrap (append into (cons (prop (parse null v) end false) nil)) vs
    ∙ append_assoc into (cons (prop (parse null v) end false) nil) (wrap vs)

-- The part of a new slice that the code keeps.
abbrev pub kept : ℕ → Values → Values → Values
kept limit old new =
    if ltb limit (size old + size new) then drop_values (limit - size old) new else new

append_metric-kept :
    (limit : ℕ) (old new : Values)
    → append_metric limit old new
      ≡ list (append (append old (wrap (kept limit old new))) (wrap old))
unfolding append_metric parse
append_metric-kept limit old new = elim (Bool-cases (ltb limit (size old + size new))) [
  | inl over ↦ rw (
    over,
    parse_values-wrap old (drop_values (limit - size old) new),
    parse_values-wrap (append old (wrap (drop_values (limit - size old) new))) old,
  )
  | inr fits ↦ rw (fits, parse_values-wrap old new, parse_values-wrap (append old (wrap new)) old)
]

-- An append to a report with room leaves the former entries, the new ones, of which more than the
-- limit allows leave only those behind the first that there is room for, and the former entries a
-- second time, the last two as Parse stores them: so many entries in all, whatever the limit is.
pub append_metric-entries :
    (limit : ℕ) (old new : Values)
    → size old < limit
    → (append_metric limit old new
        ≡ list (append (append old (wrap (kept limit old new))) (wrap old)))
      × (size (list_of (append_metric limit old new))
          ≡ size old
            + size old
            + (if ltb limit (size old + size new) then size old + size new - limit else size new))
unfolding append_metric
append_metric-entries limit old new h = (
  append_metric-kept limit old new,
  rw (append_metric-kept limit old new) (
      ground (
        arith,
        size-append (append old (wrap (kept limit old new))) (wrap old),
        size-append old (wrap (kept limit old new)),
        size-wrap (kept limit old new),
        size-wrap old,
        size-drop_values (limit - size old) new,
      )),
)
