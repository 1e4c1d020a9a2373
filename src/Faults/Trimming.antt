-- ===== src/Faults/Trimming.antt =====
-- What trimming leaves of a log.
use sailfish.Store.World.{World}
use sailfish.Base.{
  Bool, Bool-cases, Dict, List, Option-cases, String, [], ap, arith, eq_iff, inl, inr, lookup, refl,
  some, str_eq, true, ℤ, ◌&&◌, ◌++◌, ◌||◌, ◌∷◌, ◌≡◌, ◌≤ℤ◌,
}
use sailfish.Store.Tree.{find_matching_uris, has_aggregate_id}
use sailfish.Faults.{in_array}
use sailfish.Faults.Log.{Texts, log_index, under}

pub in_array-append :
    (a : String) (xs ys : List String) → in_array a (xs ++ ys) ≡ (in_array a xs || in_array a ys)
unfolding in_array
in_array-append a [] ys = refl
in_array-append a (x ∷ xs) ys = ground (arith, in_array-append a xs ys)

pub in_array-find_matching_uris :
    (m : String → Bool) (tree : Dict String) (v : String)
    → in_array v (find_matching_uris m tree) ≡ (has_aggregate_id tree v && m v)
unfolding in_array find_matching_uris has_aggregate_id lookup
in_array-find_matching_uris m [] v = refl
in_array-find_matching_uris m ((u, id) ∷ tree) v = elim (Bool-cases (str_eq u v)) [
  | inl e ↦
      let same : m u ≡ m v = ap m ((eq_iff u v).0 e) in
      ground (arith, e, same, in_array-find_matching_uris m tree v)
  | inr e ↦ ground (arith, e, in_array-find_matching_uris m tree v)
]

pub has_aggregate_id-found :
    (tree : Dict String) (v : String)
    → has_aggregate_id tree v ≡ true
    → (id : String) × (lookup v tree ≡ some id)
unfolding has_aggregate_id
has_aggregate_id-found tree v h = elim (Option-cases (lookup v tree)) [
  | inl e ↦ cc (rw (e, has_aggregate_id) at h)
  | inr (id, e) ↦ (id, e)
]

module _ (lib : Texts) where
  -- Each number in the list is at most n.
  abbrev AreAtMost : ℤ → List String → Type 0
  AreAtMost n [] = Unit
  AreAtMost n (u ∷ uris) = (log_index lib u ≤ℤ n) × AreAtMost n uris

  abbrev IsNewestFirst : List String → Type 0
  IsNewestFirst [] = Unit
  IsNewestFirst (u ∷ uris) = AreAtMost (log_index lib u) uris × IsNewestFirst uris

  pub in_array-under :
      (log_uri : String) (tree : Dict String) (v : String)
      → in_array v (under lib log_uri tree)
        ≡ (has_aggregate_id tree v && str_eq (lib.dir v) log_uri)
  unfolding under
  in_array-under log_uri tree v =
      in_array-find_matching_uris (λ uri. str_eq (lib.dir uri) log_uri) tree v
