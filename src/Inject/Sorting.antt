-- ===== src/Inject/Sorting.antt =====
-- The sort of the queue by event numbers.
use sailfish.Base.{List, [], arith, refl, ◌∷◌, ◌≡◌, ◌≤ℤ◌}
use sailfish.Inject.Queue.{Injected, insert_sorted, sort}

module _ {E : Type 0} where
  abbrev pub IsSorted : List (Injected E) → Type 0
  IsSorted [] = Unit
  IsSorted (x ∷ []) = Unit
  IsSorted (x ∷ y ∷ q) = (x.event_seq ≤ℤ y.event_seq) × IsSorted (y ∷ q)

  insert_sorted-IsSorted :
      (e : Injected E) (q : List (Injected E)) → IsSorted q → IsSorted (insert_sorted e q)
  unfolding insert_sorted
  insert_sorted-IsSorted e [] h = tt
  insert_sorted-IsSorted e (x ∷ []) h = ground arith
  insert_sorted-IsSorted e (x ∷ y ∷ q) h = ground (arith, insert_sorted-IsSorted e (y ∷ q) h.1)

  pub sort-IsSorted : (q : List (Injected E)) → IsSorted (sort q)
  unfolding sort
  sort-IsSorted [] = tt
  sort-IsSorted (x ∷ q) = insert_sorted-IsSorted x (sort q) (sort-IsSorted q)

  pub sort-sorted : (q : List (Injected E)) → IsSorted q → sort q ≡ q
  unfolding sort
  sort-sorted [] h = refl
  sort-sorted (x ∷ []) h = refl
  sort-sorted (x ∷ y ∷ q) h = rw (sort-sorted (y ∷ q) h.1) (ground (arith, h.0))

  pub sort_idem : (q : List (Injected E)) → sort (sort q) ≡ sort q
  sort_idem q = sort-sorted (sort q) (sort-IsSorted q)
