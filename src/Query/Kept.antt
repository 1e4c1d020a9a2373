-- ===== src/Query/Kept.antt =====
-- The filter of a collection against the plain one.
use sailfish.Property.Access.{append, drop_values, size}
use sailfish.Base.{
  Bool, List, Option, [], ap, arith, false, if-cases, if◌then◌else◌, length, none, refl, some, sym,
  true, ℕ, ◌+◌, ◌==◌, ◌∷◌, ◌≡◌, ◌≢◌, ◌≤◌,
}
use sailfish.Property.{Fields, Value, Values, cons, dict, nil}
use sailfish.Query.Filter.{FilterTest, handle_collection_filter, indices, keep_from, members_at}

abbrev pub is_kept : Option Bool → Bool
is_kept (some b) = b
is_kept none = false

-- The members that pass a test, in their order.
abbrev pub selected : (Fields → Option Bool) → Values → Values
selected test nil = nil
selected test (cons (dict fs) ms) =
    if is_kept (test fs) then cons (dict fs) (selected test ms) else selected test ms
selected test (cons _ ms) = selected test ms

-- Every member is a map, and the test does not panic on it.
abbrev pub AreTested : (Fields → Option Bool) → Values → Type 0
AreTested test nil = Unit
AreTested test (cons (dict fs) ms) = (test fs ≢ none) × AreTested test ms
AreTested test (cons _ ms) = ⊥

drop-append : (pre ms : Values) → drop_values (size pre) (append pre ms) ≡ ms
drop-append nil ms = refl
drop-append (cons x pre) ms = drop-append pre ms

size-append_one : (pre : Values) (x : Value) → size (append pre (cons x nil)) ≡ size pre + 1
size-append_one nil x = omega arith
size-append_one (cons y pre) x = omega (arith, size-append_one pre x)

append-one :
    (pre : Values) (x : Value) (ms : Values)
    → append (append pre (cons x nil)) ms ≡ append pre (cons x ms)
append-one nil x ms = refl
append-one (cons y pre) x ms = ap (cons y) (append-one pre x ms)

-- What the loop finds behind the members `pre`.
abbrev Found : (Fields → Option Bool) → Values → Values → List ℕ → Type 0
Found test pre ms is =
    (keep_from test (size pre) ms ≡ indices is)
    × (members_at is (append pre ms) ≡ selected test ms)
    × (length is ≤ size ms)
    × (length is ≡ size ms → selected test ms ≡ ms)

loop_step :
    (test : Fields → Option Bool) (pre : Values) (fs : Fields) (ms : Values) (is : List ℕ)
    (o : Option Bool)
    → test fs ≡ o
    → o ≢ none
    → Found test (append pre (cons (dict fs) nil)) ms is
    → (js : List ℕ) × Found test pre (cons (dict fs) ms) js
unfolding keep_from members_at
loop_step test pre fs ms is none e ne f = absurd (ne refl)
loop_step test pre fs ms is (some true) e ne (k, m, l, s) =
    let k' : keep_from test (size pre + 1) ms ≡ indices is =
      rw (size-append_one pre (dict fs)) at k in
    let m' : members_at is (append pre (cons (dict fs) ms)) ≡ selected test ms =
      rw (append-one pre (dict fs) ms) at m in
    (
      size pre ∷ is,
      (
        rw (e, keep_from) (rw k' refl),
        rw (e, drop-append pre (cons (dict fs) ms), m') refl,
        omega (arith, l),
        λ q. rw e (ap (cons (dict fs)) (s (omega (arith, q)))),
      ),
    )
loop_step test pre fs ms is (some false) e ne (k, m, l, s) =
    let k' : keep_from test (size pre + 1) ms ≡ indices is =
      rw (size-append_one pre (dict fs)) at k in
    let m' : members_at is (append pre (cons (dict fs) ms)) ≡ selected test ms =
      rw (append-one pre (dict fs) ms) at m in
    (is, (rw (e, keep_from) k', rw e m', omega (arith, l), λ q. absurd (omega (arith, q, l))))

loop_all :
    (test : Fields → Option Bool) (pre ms : Values)
    → AreTested test ms
    → (is : List ℕ) × Found test pre ms is
unfolding keep_from members_at
loop_all test pre nil h = ([], (refl, refl, omega arith, λ e. refl))
loop_all test pre (cons (dict fs) ms) (ne, h) =
    let (is, f) = loop_all test (append pre (cons (dict fs) nil)) ms h in
    loop_step test pre fs ms is (test fs) refl ne f
loop_all test pre (cons _ ms) h = absurd h

-- The loop over indices keeps the members that pass the tests, in their order, and no others: it
-- is the plain filter, where every member is a map on which no test panics.
pub handle_collection_filter-selected :
    (process : Fields → List FilterTest → Option Bool) (t : FilterTest) (ts : List FilterTest)
    (ms : Values)
    → AreTested (λ fs. process fs (t ∷ ts)) ms
    → handle_collection_filter process (some (t ∷ ts)) ms
      ≡ some (selected (λ fs. process fs (t ∷ ts)) ms)
unfolding handle_collection_filter
handle_collection_filter-selected process t ts ms h =
    let test : Fields → Option Bool = λ fs. process fs (t ∷ ts) in
    let (is, (k, m, l, s)) = loop_all test nil ms h in
    rw (k, handle_collection_filter)
      (ap some (
        if-cases (λ z. z ≡ selected test ms) (length is == size ms) ms (members_at is ms)
          (λ y. sym (s (ground (arith, y)))) (λ n. m)))
