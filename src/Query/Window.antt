-- ===== src/Query/Window.antt =====
-- Which members a page shows.
use sailfish.Property.Access.{
  drop_values, drop_values-min, get, get-put, put, size, size-drop_values, take_values,
  take_values-all,
}
use Prim.Native.Nat.{min}
use sailfish.Base.{
  Bool-cases, Option, String, ap, arith, if◌then◌else◌, inl, inr, ltb, ltb_ℤ, none, pos, pos_part,
  some, true, ℕ, ℤ, ◌&&◌, ◌+◌, ◌-◌, ◌<◌, ◌==◌, ◌∙◌, ◌≡◌, ◌≤◌,
}
use sailfish.Property.{Fields, Values, dict, list, number}
use sailfish.Query.Text.{int_bound}
use sailfish.Query.Page.{
  Options, answer_of, beginning_of, filtered, handle_collection_query_options, is_cut, linked_of,
  page, page_of, panicked, slice, stop_of, wrapped,
}

-- How many members the options leave out at the front, and how many they show at most; 0 stands
-- for no limit.
abbrev pub skipped : Options → ℕ
skipped a = if a.do_skip then pos_part a.skip else 0

abbrev pub limit : Options → ℕ
limit a = if a.do_top then pos_part a.top else 0

-- The members from `start` on, at most `count` of them.
abbrev pub window : ℕ → ℕ → Values → Values
window start count members =
    if count == 0 then drop_values start members else take_values count (drop_values start members)

beginning_of-min : (a : Options) (len : ℕ) → beginning_of a len ≡ min (skipped a) len
unfolding beginning_of
beginning_of-min a len = ground arith

is_cut-limit :
    (a : Options) (b len : ℕ)
    → limit a + b < int_bound
    → is_cut a b len ≡ (ltb 0 (limit a) && ltb (limit a + b) len)
unfolding is_cut
is_cut-limit a b len h = ground (arith, h)

slice-some :
    (b e : ℕ) (members : Values)
    → b ≤ e
    → e ≤ size members
    → slice b (pos e) members ≡ some (take_values (e - b) (drop_values b members))
unfolding slice
slice-some b e members h k = ground (arith, h, k)

slice-window :
    (start count b : ℕ) (members : Values)
    → b ≡ min start (size members)
    → count + b < int_bound
    → slice b
        (if ltb 0 count && ltb (count + b) (size members)
          then wrapped (count + b)
          else pos (size members))
        members
      ≡ some (window start count members)
slice-window start count b members e h =
    elim (Bool-cases (ltb 0 count && ltb (count + b) (size members))) [
      | inl y ↦
          ground (arith, y, e, h, slice-some b (count + b) members, drop_values-min start members)
      | inr n ↦ ground (
        arith,
        n,
        e,
        h,
        slice-some b (size members) members,
        drop_values-min start members,
        take_values-all (size members - b) (drop_values b members),
        take_values-all count (drop_values b members),
        size-drop_values b members,
      )
    ]

stop_of-limit :
    (a : Options) (b len : ℕ)
    → limit a + b < int_bound
    → stop_of a b len
      ≡ (if ltb 0 (limit a) && ltb (limit a + b) len then wrapped (limit a + b) else pos len)
unfolding stop_of
stop_of-limit a b len h = ground (arith, h, is_cut-limit a b len h)

slice-page :
    (a : Options) (members : Values)
    → limit a + size members < int_bound
    → slice
        (beginning_of a (size members))
        (stop_of a (beginning_of a (size members)) (size members))
        members
      ≡ some (window (skipped a) (limit a) members)
slice-page a members h =
    let e = beginning_of-min a (size members) in
    let fits : limit a + beginning_of a (size members) < int_bound = omega (arith, e, h) in
    ap (λ z. slice (beginning_of a (size members)) z members)
      (stop_of-limit a (beginning_of a (size members)) (size members) fits)
    ∙ slice-window (skipped a) (limit a) (beginning_of a (size members)) members e fits

get-linked_of :
    (a : Options) (res : Fields) (b len : ℕ)
    → get "Members@odata.count" (linked_of a res b len) ≡ some (number (pos len))
unfolding linked_of
get-linked_of a res b len = elim (Bool-cases (is_cut a b len)) [
  | inl y ↦ rw y (simp get-put)
  | inr n ↦ rw n (simp get-put)
]

-- A collection's page holds, of the members that the filter keeps, those after the skipped ones, at
-- most as many as the limit says, and the number of all that the filter keeps; the filter is not to
-- panic, and the sum of the limit and that number is to be an int.
pub handle_collection_query_options-window :
    (keep : String → Values → Option Values) (a : Options) (res : Fields) (members kept : Values)
    → get "Members" res ≡ some (list members)
    → filtered keep a members ≡ some kept
    → limit a + size kept < int_bound
    → (fs : Fields) × (handle_collection_query_options keep a (dict res) ≡ page fs)
      × (get "Members" fs ≡ some (list (window (skipped a) (limit a) kept)))
      × (get "Members@odata.count" fs ≡ some (number (pos (size kept))))
unfolding handle_collection_query_options page_of
handle_collection_query_options-window keep a res members kept found passed h =
    let linked = linked_of a res (beginning_of a (size kept)) (size kept) in
    (
      put "Members" (list (window (skipped a) (limit a) kept)) linked,
      rw (found, handle_collection_query_options)
          (rw (passed) (ap (answer_of linked) (slice-page a kept h))),
      simp get-put,
      get-put "Members" "Members@odata.count" (list (window (skipped a) (limit a) kept)) linked
          ∙ get-linked_of a res (beginning_of a (size kept)) (size kept),
    )

slice-none : (b : ℕ) (z : ℤ) (members : Values) → ltb_ℤ z (pos 0) ≡ true → slice b z members ≡ none
unfolding slice
slice-none b z members h = ground (arith, h)

stop_of-negative :
    (a : Options) (b len : ℕ)
    → b < int_bound
    → limit a < int_bound
    → int_bound ≤ limit a + b
    → ltb_ℤ (stop_of a b len) (pos 0) ≡ true
unfolding stop_of is_cut
stop_of-negative a b len g h k = ground (arith, g, h, k)

-- A page that begins so far on that the sum with the limit is no int: the slice expression panics.
pub page_of-panicked :
    (a : Options) (res : Fields) (members : Values)
    → size members < int_bound
    → limit a < int_bound
    → int_bound ≤ limit a + min (skipped a) (size members)
    → page_of a res members ≡ panicked
unfolding page_of
page_of-panicked a res members h k over =
    let e = beginning_of-min a (size members) in
    let b = beginning_of a (size members) in
    ap (answer_of (linked_of a res b (size members))) (
      slice-none b (stop_of a b (size members)) members
        (stop_of-negative a b (size members) (omega (arith, e, h)) k (omega (arith, e, over))))
