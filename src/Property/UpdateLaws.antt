-- ===== src/Property/UpdateLaws.antt =====
-- What UpdateAgg does to the values that GetValueinAgg reads.
use sailfish.Property.Update.{
  Fault, Result, as_list, at_property, descend, err, get_path, get_value, map_result, ok, set_at,
  update_agg, update_at, update_path,
}
use sailfish.Base.{
  Bool, List, Option, String, [], arith, eq_refl, false, inl, inr, none, refl, some, str_eq, sym, ℤ,
  ◌∙◌, ◌∷◌, ◌≡◌, ◌≢◌, ◌⊎◌,
}
use sailfish.Property.{Fields, Value, boolean, dict, list, null, number, prop, text}
use sailfish.Property.Access.{get, get-put, put}

-- The value found at a key is a property, or the update and the read both fail.
at_property-ok {ℓ} :
    {A : Type ℓ} (o : Option Value) (f : Value → Fields → Bool → Result A) {a : A}
    → at_property o f ≡ ok a
    → (k : Value) × (m : Fields) × (e : Bool) × (o ≡ some (prop k m e)) × (f k m e ≡ ok a)
at_property-ok none f h = cc
at_property-ok (some (prop k m e)) f h = (k, m, e, refl, h)
at_property-ok (some null) f h = cc
at_property-ok (some (boolean b)) f h = cc
at_property-ok (some (number n)) f h = cc
at_property-ok (some (text s)) f h = cc
at_property-ok (some (list xs)) f h = cc
at_property-ok (some (dict fs)) f h = cc

Result-cases {ℓ} :
    {A : Type ℓ} (r : Result A) → ((a : A) × (r ≡ ok a)) ⊎ ((x : Fault) × (r ≡ err x))
Result-cases (ok a) = inl (a, refl)
Result-cases (err x) = inr (x, refl)

map_result-ok {ℓ} :
    {A : Type ℓ} {B : Type ℓ} (f : A → B) (r : Result A) {b : B}
    → map_result f r ≡ ok b
    → (a : A) × (r ≡ ok a) × (b ≡ f a)
map_result-ok f (ok a) h = (a, refl, ground arith)
map_result-ok f (err x) h = cc

set_at-ok :
    (loc : Fields) (p : String) (k : Value) (m : Fields) (e : Bool) (v : Value) {l : Fields}
    → set_at loc p k m e v ≡ ok l
    → l ≡ put p (prop v m e) loc
unfolding set_at
set_at-ok loc p k m e v h = ground arith

descend-ok :
    (loc : Fields) (p : String) (k : Value) (m : Fields) (e : Bool) (next : Fields → Result Fields)
    {l : Fields}
    → descend loc p k m e next ≡ ok l
    → (inner fs : Fields) × (k ≡ dict inner)
      × (next inner ≡ ok fs)
      × (l ≡ put p (prop (dict fs) m e) loc)
unfolding descend
descend-ok loc p (dict inner) m e next h = elim (Result-cases (next inner)) [
  | inl (fs, q) ↦ (inner, fs, refl, q, ground arith)
  | inr (x, q) ↦ cc (rw q at h)
]
descend-ok loc p null m e next h = cc
descend-ok loc p (boolean b) m e next h = cc
descend-ok loc p (number n) m e next h = cc
descend-ok loc p (text s) m e next h = cc
descend-ok loc p (list xs) m e next h = cc
descend-ok loc p (prop v m' e') m e next h = cc

get_at_put : (p : String) (v : Value) (loc : Fields) → get p (put p v loc) ≡ some v
get_at_put p v loc = simp (get-put, eq_refl)

-- After a plain value has been written at a path, the same path reads that value.
get_path-update_path :
    (path : List String) (loc l : Fields) (v : Value) (limit : ℤ)
    → path ≢ []
    → as_list v ≡ none
    → update_path loc path v limit ≡ ok l
    → get_path l path ≡ ok v
unfolding update_path get_path
get_path-update_path [] loc l v limit ne nl h = absurd (ne refl)
get_path-update_path (p ∷ []) loc l v limit ne nl h =
    let (k, m, e, found, h') = at_property-ok (get p loc) _ h in
    rw (set_at-ok loc p k m e v (rw (nl, update_at) at h'), get_at_put) refl
get_path-update_path (p ∷ q ∷ qs) loc l v limit ne nl h =
    let (k, m, e, found, h') = at_property-ok (get p loc) _ h in
    let (inner, fs, isd, sub, res) = descend-ok loc p k m e _ (rw (nl, update_at) at h') in
    rw (res, get_at_put) (get_path-update_path (q ∷ qs) inner fs v limit (λ x. cc) nl sub)

-- Two paths that part at some key.
abbrev pub Diverge : List String → List String → Type 0
Diverge [] q = ⊥
Diverge (a ∷ p) [] = ⊥
Diverge (a ∷ p) (b ∷ q) = (str_eq a b ≡ false) ⊎ ((a ≡ b) × Diverge p q)

get_path-put_ne :
    (a b : String) (q : List String) (v : Value) (loc : Fields)
    → str_eq a b ≡ false
    → get_path (put a v loc) (b ∷ q) ≡ get_path loc (b ∷ q)
unfolding get_path
get_path-put_ne a b q v loc ne = rw (get-put a b v loc, ne) refl

-- Under the key that a path shares with the update, the read goes on in the new map.
get_path-put_self :
    (a b : String) (q : List String) (fs : Fields) (m : Fields) (e : Bool) (loc : Fields)
    → get_path (put a (prop (dict fs) m e) loc) (a ∷ b ∷ q) ≡ get_path fs (b ∷ q)
unfolding get_path
get_path-put_self a b q fs m e loc = rw (get_at_put a (prop (dict fs) m e) loc) refl

get_path_found :
    (a b : String) (q : List String) (fs : Fields) (m : Fields) (e : Bool) (loc : Fields)
    → get a loc ≡ some (prop (dict fs) m e)
    → get_path loc (a ∷ b ∷ q) ≡ get_path fs (b ∷ q)
unfolding get_path
get_path_found a b q fs m e loc found = rw found refl

-- A path that parts from the updated one reads what it read before.
get_path-update_path_ne :
    (p q : List String) (loc l : Fields) (v : Value) (limit : ℤ)
    → Diverge p q
    → as_list v ≡ none
    → update_path loc p v limit ≡ ok l
    → get_path l q ≡ get_path loc q
unfolding update_path
get_path-update_path_ne [] q loc l v limit d nl h = absurd d
get_path-update_path_ne (a ∷ p) [] loc l v limit d nl h = absurd d
get_path-update_path_ne (a ∷ []) (b ∷ q) loc l v limit (inr d) nl h = absurd d.1
get_path-update_path_ne (a ∷ []) (b ∷ q) loc l v limit (inl ne) nl h =
    let (k, m, e, found, h') = at_property-ok (get a loc) _ h in
    rw (set_at-ok loc a k m e v (rw (nl, update_at) at h'))
      (get_path-put_ne a b q (prop v m e) loc ne)
get_path-update_path_ne (a ∷ c ∷ p) (b ∷ q) loc l v limit (inl ne) nl h =
    let (k, m, e, found, h') = at_property-ok (get a loc) _ h in
    let (inner, fs, isd, sub, res) = descend-ok loc a k m e _ (rw (nl, update_at) at h') in
    rw res (get_path-put_ne a b q (prop (dict fs) m e) loc ne)
get_path-update_path_ne (a ∷ c ∷ p) (b ∷ []) loc l v limit (inr d) nl h = absurd d.1
get_path-update_path_ne (a ∷ c ∷ p) (b ∷ b' ∷ q) loc l v limit (inr d) nl h =
    let (k, m, e, found, h') = at_property-ok (get a loc) _ h in
    let (inner, fs, isd, sub, res) = descend-ok loc a k m e _ (rw (nl, update_at) at h') in
    rw (res, ← d.0)
      (get_path-put_self a b' q fs m e loc
        ∙ get_path-update_path_ne (c ∷ p) (b' ∷ q) inner fs v limit d.1 nl sub
        ∙ sym (get_path_found a b' q inner m e loc (rw isd at found)))

-- After UpdateAgg has succeeded with a value that is no slice, at a path that is not empty,
-- GetValueinAgg reads that value at the same path.
pub get_value-update_agg :
    (tree tree' : Value) (path : List String) (v : Value) (limit : ℤ)
    → path ≢ []
    → as_list v ≡ none
    → update_agg tree path v limit ≡ ok tree'
    → get_value tree' path ≡ ok v
unfolding update_agg get_value
get_value-update_agg (dict loc) tree' path v limit ne nl h =
    let (l, e, t) = map_result-ok dict (update_path loc path v limit) h in
    rw t (get_path-update_path path loc l v limit ne nl e)
get_value-update_agg _ tree' path v limit ne nl h = cc

-- After UpdateAgg has succeeded with a value that is no slice, GetValueinAgg reads at every path
-- that parts from the updated one what it read before.
pub get_value-update_agg_ne :
    (tree tree' : Value) (p q : List String) (v : Value) (limit : ℤ)
    → Diverge p q
    → as_list v ≡ none
    → update_agg tree p v limit ≡ ok tree'
    → get_value tree' q ≡ get_value tree q
unfolding update_agg get_value
get_value-update_agg_ne (dict loc) tree' p q v limit d nl h =
    let (l, e, t) = map_result-ok dict (update_path loc p v limit) h in
    rw t (get_path-update_path_ne p q loc l v limit d nl e)
get_value-update_agg_ne _ tree' p q v limit d nl h = cc
