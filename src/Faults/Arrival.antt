-- ===== src/Faults/Arrival.antt =====
-- A removal that arrives before the fault that it removes.
use sailfish.Base.{
  Bool-cases, Dict, List, Option-cases, String, [], ap, arith, drop, eq_refl, false, if-cases,
  if◌then◌else◌, inl, inr, length, length-append, none, not, refl, some, str_eq, suc, sym, true, ℕ,
  ◌++◌, ◌+◌, ◌<>◌, ◌==◌, ◌||◌, ◌∷◌, ◌≡◌, ◌≤◌,
}
use sailfish.Faults.Entries.{FaultEntryAddData, FaultEntryRmData}
use sailfish.Faults.{
  add_fault_entry, answered_nil, bury, data_arg, fault_lim, in_array, in_array_index,
  remove_fault_entry, text_arg,
}
use sailfish.Store.Tree.{get_aggregate_id}
use mathlib.Core.List.{append_assoc}

-- At most k items stand behind the name.
abbrev HasTail : String → ℕ → List String → Type 0
HasTail name k t =
    (front : List String) × (back : List String) × (t ≡ front ++ name ∷ back) × (length back ≤ k)

in_array-append :
    (a : String) (xs ys : List String) → in_array a (xs ++ ys) ≡ (in_array a xs || in_array a ys)
unfolding in_array
in_array-append a [] ys = refl
in_array-append a (x ∷ xs) ys = ground (arith, in_array-append a xs ys)

in_array_index-found :
    (a : String) (t : List String) → in_array a t ≡ true → (i : ℕ) × (in_array_index a t ≡ some i)
unfolding in_array in_array_index
in_array_index-found a [] h = cc h
in_array_index-found a (b ∷ t) h = elim (Bool-cases (str_eq b a)) [
  | inl e ↦ (0, rw e refl)
  | inr e ↦ let (i, n) = in_array_index-found a t (ground (arith, h, e)) in (suc i, rw (e, n) refl)
]

HasTail-in_array :
    (name : String) (k : ℕ) (t : List String) → HasTail name k t → in_array name t ≡ true
unfolding in_array
HasTail-in_array name k t (front, back, e, _) =
    rw e (ground (arith, in_array-append name front (name ∷ back), eq_refl name))

HasTail-drop :
    (name : String) (k : ℕ) (t : List String)
    → k ≤ 8
    → length t ≡ fault_lim
    → HasTail name k t
    → HasTail name k (drop 1 t)
HasTail-drop name k t b l ([], back, e, n) = ground (arith, b, l, e, n, ap length e)
HasTail-drop name k t b l (x ∷ front, back, e, n) = (front, back, rw e refl, n)

HasTail-append :
    (name other : String) (k : ℕ) (t : List String)
    → HasTail name k t
    → HasTail name (suc k) (t ++ (other ∷ []))
HasTail-append name other k t (front, back, e, n) = (
  front,
  back ++ (other ∷ []),
  rw e (append_assoc front (name ∷ back) (other ∷ [])),
  omega (arith, n, length-append back (other ∷ [])),
)

HasTail-more : (name : String) (k : ℕ) (t : List String) → HasTail name k t → HasTail name (suc k) t
HasTail-more name k t (front, back, e, n) = (front, back, e, omega (arith, n))

HasTail-bury :
    (name other : String) (k : ℕ) (t : List String)
    → k ≤ 8
    → HasTail name k t
    → HasTail name (suc k) (bury other t)
unfolding bury
HasTail-bury name other k t b h =
    let kept : HasTail name k (if length t == fault_lim then drop 1 t else t) =
      if-cases (HasTail name k) (length t == fault_lim) (drop 1 t) t
        (λ e. HasTail-drop name k t b (ground (arith, e)) h) (λ e. h) in
    if-cases (HasTail name (suc k))
      (not (in_array other (if length t == fault_lim then drop 1 t else t)))
      ((if length t == fault_lim then drop 1 t else t) ++ (other ∷ []))
      (if length t == fault_lim then drop 1 t else t)
      (λ e. HasTail-append name other k (if length t == fault_lim then drop 1 t else t) kept)
      (λ e. HasTail-more name k (if length t == fault_lim then drop 1 t else t) kept)

-- The arguments of a removal, and the tree as it is when the removal reads it.
pub record RemovalCall : Type 0 where
  pub tree_read : Dict String
  pub log_uri : String
  pub entry : FaultEntryRmData

-- The tombstones after a row of removals.
abbrev pub remove_each : List RemovalCall → List String → List String
remove_each [] t = t
remove_each (r ∷ rs) t =
    remove_each rs
      (remove_fault_entry r.tree_read (text_arg r.log_uri) (data_arg r.entry) t).tombstones

HasTail-remove :
    (tree : Dict String) (log_uri name : String) (r : FaultEntryRmData) (k : ℕ) (t : List String)
    → k ≤ 8
    → HasTail name k t
    → HasTail name (suc k) (remove_fault_entry tree (text_arg log_uri) (data_arg r) t).tombstones
unfolding remove_fault_entry
HasTail-remove tree log_uri name r k t b h =
    elim (Option-cases (get_aggregate_id tree (log_uri <> ("/" <> r.name)))) [
      | inl e ↦ rw (e, remove_fault_entry) (HasTail-bury name r.name k t b h)
      | inr (id, e) ↦ rw (e, remove_fault_entry) (HasTail-more name k t h)
    ]

HasTail-remove_each :
    (name : String) (rs : List RemovalCall) (k : ℕ) (t : List String)
    → k + length rs ≤ 9
    → HasTail name k t
    → in_array name (remove_each rs t) ≡ true
HasTail-remove_each name [] k t b h = HasTail-in_array name k t h
HasTail-remove_each name (r ∷ rs) k t b h =
    HasTail-remove_each name rs (suc k)
      (remove_fault_entry r.tree_read (text_arg r.log_uri) (data_arg r.entry) t).tombstones
      (omega (arith, b))
      (HasTail-remove r.tree_read r.log_uri name r.entry k t (omega (arith, b)) h)

in_array-drop :
    (a : String) (t : List String) → in_array a t ≡ false → in_array a (drop 1 t) ≡ false
unfolding in_array
in_array-drop a [] h = refl
in_array-drop a (b ∷ t) h = ground (arith, h)

HasTail-new :
    (name : String) (t : List String) → in_array name t ≡ false → HasTail name 0 (bury name t)
unfolding bury
HasTail-new name t h =
    let kept : List String = if length t == fault_lim then drop 1 t else t in
    let e : in_array name kept ≡ false =
      if-cases (λ l. in_array name l ≡ false) (length t == fault_lim) (drop 1 t) t
        (λ _. in_array-drop name t h) (λ _. h) in
    (kept, [], rw e refl, omega arith)

module _ (c_time : String → String) where
  -- A removal of a fault that is not in the tree and whose name is no tombstone yet, then at most
  -- nine other removals, each under a log URI and on a tree of its own, then the arrival of the fault
  -- itself, whatever the tree then is: it is swallowed. The function sends no command and returns nil.
  pub add_fault_entry-late :
      (tree : Dict String) (uuid log_uri : String) (f : FaultEntryAddData) (r : RemovalCall)
      (others : List RemovalCall) (t : List String)
      → r.entry.name ≡ f.name
      → get_aggregate_id r.tree_read (r.log_uri <> ("/" <> r.entry.name)) ≡ none
      → in_array r.entry.name t ≡ false
      → length others ≤ 9
      → let last =
          add_fault_entry c_time tree uuid
            (text_arg log_uri)
            (data_arg f)
            (remove_each (r ∷ others) t) in
        (last.sent ≡ []) × (last.answer ≡ answered_nil)
  unfolding add_fault_entry remove_fault_entry
  add_fault_entry-late tree uuid log_uri f r others t same gone new few =
      let after : List String =
        (remove_fault_entry r.tree_read (text_arg r.log_uri) (data_arg r.entry) t).tombstones in
      let tail : HasTail f.name 0 after =
        rw (gone, remove_fault_entry, sym same) (HasTail-new r.entry.name t new) in
      let (i, e) =
        in_array_index-found f.name (remove_each others after)
          (HasTail-remove_each f.name others 0 after (omega (arith, few)) tail) in
      rw (e, add_fault_entry) (refl, refl)
