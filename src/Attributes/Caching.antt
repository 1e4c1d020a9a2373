-- ===== src/Attributes/Caching.antt =====
-- The cache of models by fqdd against the mapping that it is made from.
use sailfish.Base.{
  Bool-cases, Dict, List, String, [], ap, eq_iff, if◌then◌else◌, inl, inr, insert, lookup,
  lookup-insert, refl, str_eq, sym, ◌++◌, ◌∙◌, ◌∷◌, ◌≡◌,
}
use sailfish.Attributes.{
  Service, cache_all, cache_fqdds, cache_model, close_mapping, models_at, models_of, new_mapping,
  update_cache,
}
use mathlib.Core.List.{append_assoc, append-nil}

-- The model, once for each time that the fqdd stands in the list.
abbrev pub once_each : String → String → List String → List String
once_each mdl fqdd [] = []
once_each mdl fqdd (f ∷ fs) =
    if str_eq f fqdd then mdl ∷ once_each mdl fqdd fs else once_each mdl fqdd fs

-- The models of an fqdd, by the mapping.
abbrev pub owners : String → Dict (List String) → List String
owners fqdd [] = []
owners fqdd ((mdl, fqdds) ∷ rest) = once_each mdl fqdd fqdds ++ owners fqdd rest

lookup-cache_model :
    (mdl fqdd f : String) (cache : Dict (List String))
    → models_at (lookup fqdd (cache_model mdl f cache))
      ≡ models_at (lookup fqdd cache) ++ once_each mdl fqdd (f ∷ [])
unfolding cache_model
lookup-cache_model mdl fqdd f cache =
    ap models_at (lookup-insert f fqdd (models_at (lookup f cache) ++ (mdl ∷ [])) cache)
    ∙ elim (Bool-cases (str_eq f fqdd)) [
      | inl e ↦ rw e (ap (λ t. models_at (lookup t cache) ++ (mdl ∷ [])) ((eq_iff f fqdd).0 e))
      | inr e ↦ rw e (sym (append-nil (models_at (lookup fqdd cache))))
    ]

once_each-append :
    (mdl fqdd : String) (fs gs : List String)
    → once_each mdl fqdd (fs ++ gs) ≡ once_each mdl fqdd fs ++ once_each mdl fqdd gs
once_each-append mdl fqdd [] gs = refl
once_each-append mdl fqdd (f ∷ fs) gs = elim (Bool-cases (str_eq f fqdd)) [
  | inl e ↦ rw (e, once_each-append mdl fqdd fs gs) refl
  | inr e ↦ rw (e, once_each-append mdl fqdd fs gs) refl
]

lookup-cache_fqdds :
    (mdl fqdd : String) (fs : List String) (cache : Dict (List String))
    → models_at (lookup fqdd (cache_fqdds mdl fs cache))
      ≡ models_at (lookup fqdd cache) ++ once_each mdl fqdd fs
unfolding cache_fqdds
lookup-cache_fqdds mdl fqdd [] cache = sym (append-nil (models_at (lookup fqdd cache)))
lookup-cache_fqdds mdl fqdd (f ∷ fs) cache =
    lookup-cache_fqdds mdl fqdd fs (cache_model mdl f cache)
    ∙ (ap (λ l. l ++ once_each mdl fqdd fs) (lookup-cache_model mdl fqdd f cache)
        ∙ (append_assoc (models_at (lookup fqdd cache)) (once_each mdl fqdd (f ∷ []))
              (once_each mdl fqdd fs)
            ∙ ap (λ l. models_at (lookup fqdd cache) ++ l)
                (sym (once_each-append mdl fqdd (f ∷ []) fs))))

lookup-cache_all :
    (fqdd : String) (mapping : Dict (List String)) (cache : Dict (List String))
    → models_at (lookup fqdd (cache_all mapping cache))
      ≡ models_at (lookup fqdd cache) ++ owners fqdd mapping
unfolding cache_all
lookup-cache_all fqdd [] cache = sym (append-nil (models_at (lookup fqdd cache)))
lookup-cache_all fqdd ((mdl, fs) ∷ rest) cache =
    lookup-cache_all fqdd rest (cache_fqdds mdl fs cache)
    ∙ (ap (λ l. l ++ owners fqdd rest) (lookup-cache_fqdds mdl fqdd fs cache)
        ∙ append_assoc (models_at (lookup fqdd cache)) (once_each mdl fqdd fs) (owners fqdd rest))

-- After a new mapping, an event on an fqdd reaches exactly the models that are mapped to it, each as
-- often as the fqdd stands in its list and in the order of the mapping. A closed mapping changes
-- nothing in that: its model is reached as before.
pub models_of-new_mapping :
    (m fqdd : String) (fqdds : List String) (s : Service)
    → (models_of fqdd (new_mapping m fqdds s) ≡ owners fqdd (insert m fqdds s.forward_mapping))
      × (models_of fqdd (close_mapping m (new_mapping m fqdds s))
          ≡ owners fqdd (insert m fqdds s.forward_mapping))
unfolding models_of new_mapping update_cache close_mapping lookup
models_of-new_mapping m fqdd fqdds s = (
  lookup-cache_all fqdd (insert m fqdds s.forward_mapping) [],
  lookup-cache_all fqdd (insert m fqdds s.forward_mapping) [],
)
