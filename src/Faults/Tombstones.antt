-- ===== src/Faults/Tombstones.antt =====
-- The list of tombstones: its bound, and what is left of it once a tombstone has been met.
use sailfish.Base.{
  Dict, List, Option-cases, String, [], ap, arith, drop, get_elem?, if◌then◌else◌, inl, inr, leb,
  length, length-append, length-drop, length-take, ltb, none, refl, some, suc, take, zero, ℕ, ◌&&◌,
  ◌-◌, ◌<>◌, ◌<◌, ◌==◌, ◌∷◌, ◌≡◌, ◌≤◌,
}
use sailfish.Faults.Entries.{FaultEntryAddData, FaultEntryRmData}
use sailfish.Faults.{
  Arg, add_fault_entry, answered_nil, bury, copy_down, copy_loop, data_arg, fault_lim,
  in_array_index, other_arg, remove_fault_entry, set_elem, take_out, text_arg,
}
use sailfish.Store.Tree.{get_aggregate_id}

length-set_elem : (n : ℕ) (x : String) (t : List String) → length (set_elem n x t) ≡ length t
unfolding set_elem
length-set_elem n x [] = refl
length-set_elem zero x (y ∷ t) = refl
length-set_elem (suc n) x (y ∷ t) = ap suc (length-set_elem n x t)

get_elem?-set_elem :
    (n : ℕ) (x : String) (t : List String) (j : ℕ)
    → n < length t
    → get_elem? (set_elem n x t) j ≡ (if j == n then some x else get_elem? t j)
unfolding set_elem
get_elem?-set_elem n x [] j h = ground (arith, h)
get_elem?-set_elem zero x (y ∷ t) zero h = refl
get_elem?-set_elem zero x (y ∷ t) (suc j) h = ground arith
get_elem?-set_elem (suc n) x (y ∷ t) zero h = ground arith
get_elem?-set_elem (suc n) x (y ∷ t) (suc j) h =
    ground (arith, get_elem?-set_elem n x t j (omega (arith, h)))

pub get_elem?-found :
    (t : List String) (n : ℕ) → n < length t → (x : String) × (get_elem? t n ≡ some x)
get_elem?-found [] n h = ground (arith, h)
get_elem?-found (x ∷ t) zero h = (x, refl)
get_elem?-found (x ∷ t) (suc n) h = get_elem?-found t n (omega (arith, h))

length-copy_down : (n : ℕ) (t : List String) → length (copy_down n t) ≡ length t
unfolding copy_down
length-copy_down n t = elim (Option-cases (get_elem? t n)) [
  | inl e ↦ rw (e, copy_down) refl
  | inr (x, e) ↦ rw (e, copy_down) (length-set_elem (n - 1) x t)
]

length-copy_loop : (n i : ℕ) (t : List String) → length (copy_loop n i t) ≡ length t
unfolding copy_loop
length-copy_loop zero i t = refl
length-copy_loop (suc n) i t =
    ground (arith, length-copy_loop n i (copy_down (suc n) t), length-copy_down (suc n) t)

get_elem?-copy_down :
    (n : ℕ) (t : List String) (j : ℕ)
    → suc n < length t
    → get_elem? (copy_down (suc n) t) j ≡ (if j == n then get_elem? t (suc n) else get_elem? t j)
unfolding copy_down
get_elem?-copy_down n t j h =
    let (x, e) = get_elem?-found t (suc n) h in
    rw (e, copy_down) (ground (arith, get_elem?-set_elem (suc n - 1) x t j (omega (arith, h)), e))

-- After the loop from n down to i, the item at n stands at every position from i to n.
get_elem?-copy_loop :
    (n i : ℕ) (t : List String) (j : ℕ)
    → n < length t
    → get_elem? (copy_loop n i t) j ≡ (if leb i j && ltb j n then get_elem? t n else get_elem? t j)
unfolding copy_loop
get_elem?-copy_loop zero i t j h = ground arith
get_elem?-copy_loop (suc n) i t j h = ground (
  arith,
  get_elem?-copy_loop n i (copy_down (suc n) t) j (omega (arith, h, length-copy_down (suc n) t)),
  get_elem?-copy_down n t j h,
  get_elem?-copy_down n t n h,
)

get_elem?-take :
    (n : ℕ) (t : List String) (j : ℕ)
    → get_elem? (take n t) j ≡ (if ltb j n then get_elem? t j else none)
get_elem?-take zero t j = ground arith
get_elem?-take (suc n) [] j = ground arith
get_elem?-take (suc n) (x ∷ t) zero = ground arith
get_elem?-take (suc n) (x ∷ t) (suc j) = ground (arith, get_elem?-take n t j)

get_elem?-take_out :
    (i : ℕ) (t : List String) (j : ℕ)
    → 0 < length t
    → get_elem? (take_out i t) j ≡ (
        if ltb j (length t - 1)
        then (if leb i j then get_elem? t (length t - 1) else get_elem? t j)
        else none)
unfolding take_out
get_elem?-take_out i t j h = ground (
  arith,
  get_elem?-take (length t - 1) (copy_loop (length t - 1) i t) j,
  get_elem?-copy_loop (length t - 1) i t j (omega (arith, h)),
)

pub length-take_out : (i : ℕ) (t : List String) → length (take_out i t) ≡ length t - 1
unfolding take_out
length-take_out i t = omega (
  arith,
  length-take (length t - 1) (copy_loop (length t - 1) i t),
  length-copy_loop (length t - 1) i t,
)

length-bury :
    (name : String) (t : List String) → length t ≤ fault_lim → length (bury name t) ≤ fault_lim
unfolding bury
length-bury name t h = ground (
  arith,
  length-drop 1 t,
  length-append (if length t == fault_lim then drop 1 t else t) (name ∷ []),
)

pub in_array_index-bound :
    (a : String) (t : List String) (i : ℕ) → in_array_index a t ≡ some i → i < length t
unfolding in_array_index
in_array_index-bound a [] i h = cc h
in_array_index-bound a (b ∷ t) zero h = omega arith
in_array_index-bound a (b ∷ t) (suc i) h = ground (arith, in_array_index-bound a t i)

length-remove_fault_entry :
    (tree : Dict String) (a r : Arg FaultEntryRmData) (t : List String)
    → length t ≤ fault_lim
    → length (remove_fault_entry tree a r t).tombstones ≤ fault_lim
unfolding remove_fault_entry
length-remove_fault_entry tree (text_arg l) (data_arg f) t h =
    elim (Option-cases (get_aggregate_id tree (l <> ("/" <> f.name)))) [
      | inl e ↦ rw (e, remove_fault_entry) (length-bury f.name t h)
      | inr (id, e) ↦ rw (e, remove_fault_entry) h
    ]
length-remove_fault_entry tree (text_arg l) (text_arg f) t h = h
length-remove_fault_entry tree (text_arg l) other_arg t h = h
length-remove_fault_entry tree (data_arg l) f t h = h
length-remove_fault_entry tree other_arg f t h = h

module _ (c_time : String → String) where
  length-add_fault_entry :
      (tree : Dict String) (uuid : String) (b f : Arg FaultEntryAddData) (t : List String)
      → length t ≤ fault_lim
      → length (add_fault_entry c_time tree uuid b f t).tombstones ≤ fault_lim
  unfolding add_fault_entry
  length-add_fault_entry tree uuid (text_arg l) (data_arg f) t h =
      elim (Option-cases (in_array_index f.name t)) [
        | inr (i, e) ↦ rw (e, add_fault_entry) (omega (arith, h, length-take_out i t))
        | inl e ↦ elim (Option-cases (get_aggregate_id tree (l <> ("/" <> f.name)))) [
          | inl n ↦ rw (e, n, add_fault_entry) h
          | inr (id, n) ↦ rw (e, n, add_fault_entry) h
        ]
      ]
  length-add_fault_entry tree uuid (text_arg l) (text_arg f) t h = h
  length-add_fault_entry tree uuid (text_arg l) other_arg t h = h
  length-add_fault_entry tree uuid (data_arg l) f t h = h
  length-add_fault_entry tree uuid other_arg f t h = h

  -- Neither function lets the tombstones grow beyond fault_lim, whatever its arguments are.
  pub tombstones-bound :
      (tree : Dict String) (uuid : String) (a r : Arg FaultEntryRmData)
      (b f : Arg FaultEntryAddData) (t : List String)
      → length t ≤ fault_lim
      → (length (remove_fault_entry tree a r t).tombstones ≤ fault_lim)
        × (length (add_fault_entry c_time tree uuid b f t).tombstones ≤ fault_lim)
  tombstones-bound tree uuid a r b f t h =
      (length-remove_fault_entry tree a r t h, length-add_fault_entry tree uuid b f t h)

  -- A fault whose name is a tombstone at position i, in a list t of tombstones: the function sends
  -- nothing and returns nil, the list gets one shorter, the tombstones before i stay, and every
  -- position from i on holds the last tombstone of t.
  pub add_fault_entry-tombstoned :
      (tree : Dict String) (uuid log_uri : String) (f : FaultEntryAddData) (t : List String) (i : ℕ)
      → in_array_index f.name t ≡ some i
      → let r = add_fault_entry c_time tree uuid (text_arg log_uri) (data_arg f) t in
        (r.sent ≡ [])
        × (r.answer ≡ answered_nil)
        × ((j : ℕ)
            → get_elem? r.tombstones j ≡ (
                if ltb j (length t - 1)
                then (if leb i j then get_elem? t (length t - 1) else get_elem? t j)
                else none))
  unfolding add_fault_entry
  add_fault_entry-tombstoned tree uuid log_uri f t i h =
      rw (h, add_fault_entry)
        (
          refl,
          refl,
          λ j. get_elem?-take_out i t j (omega (arith, in_array_index-bound f.name t i h)),
        )
