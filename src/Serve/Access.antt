-- ===== src/Serve/Access.antt =====
-- Who reaches which resource.
use mathlib.Core.List.{Mem}
use sailfish.Base.{
  Bool, Dict, Option, Option-cases, String, arith, false, inl, inr, lookup, none, refl, some, subst,
  true, ℕ, ◌≡◌, ◌⊎◌,
}
use sailfish.Http.{map_string_to_http_req}
use sailfish.Http.Privileges.{is_authorized, is_authorized_iff}
use sailfish.Resource.{Aggregate}
use sailfish.Resource.Commands.{privileges_of}
use sailfish.Store.Db.{Codec, Database}
use sailfish.Store.Repo.{find_entity, load}
use sailfish.Store.Tree.{Domain, get_aggregate_id, strip_slashes}
use sailfish.Store.Tree.Consistency.{IsConsistent, StandsAt-some}
use sailfish.Serve.{
  Request, admit_command, answer, check_etag, find_command, forwarded, gate, required_privileges,
  search_path,
}

-- One of the user's privileges is among those that the resource requires for the method.
abbrev pub MayAccess : Request → Aggregate → Type 0
MayAccess r a = ∥ (
    (p : String) × Mem p r.user_privileges
    × Mem p
        (required_privileges (privileges_of (map_string_to_http_req r.method) a.privilege_map))) ∥₁

answer-forwarded :
    (b : Bool) (o : Option ℕ) (a a' : Aggregate) (name other : String)
    → answer b o a name ≡ forwarded a' other
    → (b ≡ true) × (a ≡ a')
answer-forwarded false o a a' name other h = cc h
answer-forwarded true (some status) a a' name other h = cc h
answer-forwarded true none a a' name other h = (refl, cc h)

admit_command-MayAccess :
    (o : Option String) (etag : String) (r : Request) (a a' : Aggregate) (name : String)
    → admit_command o etag r a ≡ forwarded a' name
    → (a ≡ a') × MayAccess r a
unfolding admit_command
admit_command-MayAccess none etag r a a' name h = cc h
admit_command-MayAccess (some other) etag r a a' name h =
    let required =
      required_privileges (privileges_of (map_string_to_http_req r.method) a.privilege_map) in
    let (y, e) =
      answer-forwarded (is_authorized r.user_privileges required) (check_etag etag r) a a' other
        name h in
    (e, (is_authorized_iff r.user_privileges required).0 y)

get_aggregate_id-cases :
    (tree : Dict String) (uri id : String)
    → get_aggregate_id tree uri ≡ some id
    → (lookup uri tree ≡ some id) ⊎ (lookup (strip_slashes uri) tree ≡ some id)
unfolding get_aggregate_id
get_aggregate_id-cases tree uri id h = ground (arith, h)

module _ {Bytes : Type 0} (db : Database Bytes) (codec : Codec Bytes) (namespace : String)
    (registered : String → Bool) (etag_of : Aggregate → String) where
  -- The aggregate that is loaded for an entry of the tree stands at its URI.
  loaded_at :
      (d : Domain db.State) (uri id : String)
      → IsConsistent db codec namespace d
      → lookup uri d.tree ≡ some id
      → (load db codec namespace d.repo id).resource_uri ≡ uri
  unfolding load
  loaded_at d uri id c h =
      let (a, f, e) =
        StandsAt-some id uri (find_entity db codec namespace d.repo id) (c uri id h) in
      rw (f, load) e

  -- Over a consistent tree, a request that reaches a command operates on a resource that stands at
  -- the requested path, or at the path without the slashes at its end, and its user has one of the
  -- privileges that this resource requires for the method.
  pub gate-MayAccess :
      (d : Domain db.State) (r : Request) (a : Aggregate) (name : String)
      → IsConsistent db codec namespace d
      → gate db codec namespace registered etag_of d r ≡ forwarded a name
      → ((a.resource_uri ≡ r.path) ⊎ (a.resource_uri ≡ strip_slashes r.path)) × MayAccess r a
  unfolding gate
  gate-MayAccess d r a name c h = elim (Option-cases (get_aggregate_id d.tree r.path)) [
    | inl z ↦ cc (rw (z, gate) at h)
    | inr (id, z) ↦
        let a' = load db codec namespace d.repo id in
        let (e, m) =
          admit_command-MayAccess (find_command registered (search_path a' r.method)) (etag_of a') r
            a' a name (rw (z, gate) at h) in
        let at : (a'.resource_uri ≡ r.path) ⊎ (a'.resource_uri ≡ strip_slashes r.path) =
          elim (get_aggregate_id-cases d.tree r.path id z) [
            | inl found ↦ inl (loaded_at d r.path id c found)
            | inr found ↦ inr (loaded_at d (strip_slashes r.path) id c found)
          ] in
        subst
          (λ x.
            ((x.resource_uri ≡ r.path) ⊎ (x.resource_uri ≡ strip_slashes r.path)) × MayAccess r x)
          e (at, m)
  ]
