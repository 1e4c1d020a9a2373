-- ===== src/Inventory/Listing.antt =====
-- What the mappings of a scan hold: lists of names, each by the tuple of a component.
use sailfish.Base.{
  Bool, Bool-cases, Dict, List, Option, String, [], any, arith, eq_iff, false, inl, inr, lookup,
  lookup-insert, none, refl, some, str_eq, subst, true, ◌&&◌, ◌++◌, ◌||◌, ◌∙◌, ◌∷◌, ◌≡◌,
}
use sailfish.Faults.{in_array}
use sailfish.Faults.Trimming.{in_array-append}
use sailfish.Inventory.{add_sorted, insert_string, listed_at, sort_strings}

in_array-insert_string :
    (v x : String) (xs : List String)
    → in_array v (insert_string x xs) ≡ (str_eq x v || in_array v xs)
unfolding in_array insert_string
in_array-insert_string v x [] = refl
in_array-insert_string v x (y ∷ ys) = ground (arith, in_array-insert_string v x ys)

in_array-sort_strings :
    (v : String) (xs : List String) → in_array v (sort_strings xs) ≡ in_array v xs
unfolding in_array sort_strings
in_array-sort_strings v [] = refl
in_array-sort_strings v (x ∷ xs) =
    ground (arith, in_array-insert_string v x (sort_strings xs), in_array-sort_strings v xs)

abbrev pub is_found {ℓ} : {A : Type ℓ} → Option A → Bool
is_found none = false
is_found (some a) = true

-- Key and name of each thing that is added.
abbrev pub Pairs : Type 0
Pairs = List (String × String)

abbrev pub is_mentioned : String → Pairs → Bool
is_mentioned key ps = any (λ p. str_eq p.0 key) ps

abbrev pub is_listed : String → String → Pairs → Bool
is_listed key x ps = any (λ p. str_eq p.0 key && str_eq p.1 x) ps

abbrev pub add_pairs : Pairs → Dict (List String) → Dict (List String)
add_pairs [] d = d
add_pairs ((key, x) ∷ ps) d = add_pairs ps (add_sorted key x d)

in_array-added :
    (x y : String) (arr : List String)
    → in_array y (sort_strings (arr ++ (x ∷ []))) ≡ (in_array y arr || str_eq x y)
unfolding in_array
in_array-added x y arr =
    in_array-sort_strings y (arr ++ (x ∷ [])) ∙ (in_array-append y arr (x ∷ []) ∙ ground arith)

in_array-found :
    (x : String) (o : Option (List String)) → in_array x (listed_at o) ≡ true → is_found o ≡ true
unfolding in_array
in_array-found x none h = h
in_array-found x (some arr) h = refl

in_array-add_sorted :
    (key other x y : String) (d : Dict (List String))
    → in_array y (listed_at (lookup other (add_sorted key x d)))
      ≡ (in_array y (listed_at (lookup other d)) || (str_eq key other && str_eq x y))
unfolding add_sorted
in_array-add_sorted key other x y d = elim (Bool-cases (in_array x (listed_at (lookup key d)))) [
  | inl e ↦ elim (Bool-cases (str_eq key other)) [
    | inr b ↦ rw (e, b) (ground arith)
    | inl same ↦ elim (Bool-cases (str_eq x y)) [
      | inr b ↦ rw (e, b) (ground arith)
      | inl agree ↦
          let there : in_array y (listed_at (lookup other d)) ≡ true =
            subst (λ z. in_array z (listed_at (lookup other d)) ≡ true) ((eq_iff x y).0 agree)
              (subst (λ k. in_array x (listed_at (lookup k d)) ≡ true) ((eq_iff key other).0 same)
                e) in
          rw (e, there) (ground arith)
    ]
  ]
  | inr e ↦ elim (Bool-cases (str_eq key other)) [
    | inr b ↦
        rw (e, b, lookup-insert key other (sort_strings (listed_at (lookup key d) ++ (x ∷ []))) d)
          (ground arith)
    | inl same ↦
        rw
          (e, lookup-insert key other (sort_strings (listed_at (lookup key d) ++ (x ∷ []))) d, same)
          (in_array-added x y (listed_at (lookup key d))
            ∙ subst
                (λ k.
                  (in_array y (listed_at (lookup key d)) || str_eq x y)
                  ≡ (in_array y (listed_at (lookup k d)) || (true && str_eq x y)))
                ((eq_iff key other).0 same) (ground arith))
  ]
]

is_found-add_sorted :
    (key other x : String) (d : Dict (List String))
    → is_found (lookup other (add_sorted key x d)) ≡ (is_found (lookup other d) || str_eq key other)
unfolding add_sorted
is_found-add_sorted key other x d = elim (Bool-cases (in_array x (listed_at (lookup key d)))) [
  | inl e ↦ elim (Bool-cases (str_eq key other)) [
    | inr b ↦ rw (e, b) (ground arith)
    | inl same ↦
        let there : is_found (lookup other d) ≡ true =
          subst (λ k. is_found (lookup k d) ≡ true) ((eq_iff key other).0 same)
            (in_array-found x (lookup key d) e) in
        rw (e, there) (ground arith)
  ]
  | inr e ↦ elim (Bool-cases (str_eq key other)) [
    | inr b ↦
        rw (e, b, lookup-insert key other (sort_strings (listed_at (lookup key d) ++ (x ∷ []))) d)
          (ground arith)
    | inl same ↦
        rw
          (e, lookup-insert key other (sort_strings (listed_at (lookup key d) ++ (x ∷ []))) d, same)
          (ground arith)
  ]
]

pub in_array-add_pairs :
    (ps : Pairs) (d : Dict (List String)) (key x : String)
    → in_array x (listed_at (lookup key (add_pairs ps d)))
      ≡ (in_array x (listed_at (lookup key d)) || is_listed key x ps)
in_array-add_pairs [] d key x = ground arith
in_array-add_pairs ((k, y) ∷ ps) d key x =
    in_array-add_pairs ps (add_sorted k y d) key x ∙ ground (arith, in_array-add_sorted k key y x d)

pub is_found-add_pairs :
    (ps : Pairs) (d : Dict (List String)) (key : String)
    → is_found (lookup key (add_pairs ps d)) ≡ (is_found (lookup key d) || is_mentioned key ps)
is_found-add_pairs [] d key = ground arith
is_found-add_pairs ((k, y) ∷ ps) d key =
    is_found-add_pairs ps (add_sorted k y d) key ∙ ground (arith, is_found-add_sorted k key y d)
