-- ===== src/Attributes.antt =====
-- src/dell-resources/attributes/controller-new.go and src/dell-resources/attributedef: the attributes
-- of models, the events that change them, and requests to change them.
pub mod Request
pub mod Collecting
pub mod Answering
pub mod Caching
use sailfish.Base.{Dict, List, Option, String, [], delete, insert, lookup, none, some, ◌++◌, ◌∷◌}

-- Service: the fqdds of each model, and the models of each fqdd. A model is known by a name.
pub record Service : Type 0 where
  pub forward_mapping : Dict (List String)
  pub cache : Dict (List String)

abbrev pub models_at : Option (List String) → List String
models_at none = []
models_at (some mdls) = mdls

-- s.cache[fqdd] = append(mdls, mdl)
unfoldable pub cache_model : String → String → Dict (List String) → Dict (List String)
unfolding insert lookup
cache_model mdl fqdd cache = insert fqdd (models_at (lookup fqdd cache) ++ (mdl ∷ [])) cache

unfoldable pub cache_fqdds : String → List String → Dict (List String) → Dict (List String)
unfolding cache_model
cache_fqdds mdl [] cache = cache
cache_fqdds mdl (fqdd ∷ fqdds) cache = cache_fqdds mdl fqdds (cache_model mdl fqdd cache)

unfoldable pub cache_all : Dict (List String) → Dict (List String) → Dict (List String)
unfolding cache_fqdds
cache_all [] cache = cache
cache_all ((mdl, fqdds) ∷ rest) cache = cache_all rest (cache_fqdds mdl fqdds cache)

-- updateCache
unfoldable pub update_cache : Service → Service
unfolding cache_all
update_cache s = record s { cache = cache_all s.forward_mapping [] }

-- NewMapping
unfoldable pub new_mapping : String → List String → Service → Service
unfolding update_cache insert
new_mapping m fqdds s =
    update_cache (record s { forward_mapping = insert m fqdds s.forward_mapping })

-- Close of a breadcrumb.
unfoldable pub close_mapping : String → Service → Service
unfolding delete
close_mapping m s = record s { forward_mapping = delete m s.forward_mapping }

-- The models whose attribute an event on an fqdd changes.
unfoldable pub models_of : String → Service → List String
unfolding lookup
models_of fqdd s = models_at (lookup fqdd s.cache)
