-- ===== src/Witness/Serving.antt =====
-- A request for a resource that requires a privilege.
use sailfish.Base.{Bool, String, [], insert, lookup, none, refl, str_eq, ◌∷◌, ◌≡◌, ◌⊎◌}
use sailfish.Property.{cons, list, nil, text}
use sailfish.Http.{http_get, http_req_number, map_string_to_http_req}
use sailfish.Http.Privileges.{is_authorized}
use sailfish.Resource.{Aggregate}
use sailfish.Resource.Commands.{privileges_of}
use sailfish.Store.Db.{Database, plain_codec, table_database, table_put}
use sailfish.Store.Repo.{find_entity, load}
use sailfish.Store.Tree.{Domain, drop_older, get_aggregate_id, notify_created, strip_slashes}
use sailfish.Store.Tree.Consistency.{IsConsistent, notify_created-IsConsistent}
use sailfish.Serve.{Request, forwarded, gate}
use sailfish.Serve.Access.{MayAccess, gate-MayAccess}
use sailfish.Witness.Data.{named_resource}

abbrev tables : Database Aggregate
tables = table_database Aggregate

abbrev guarded : Aggregate
guarded = record named_resource { privilege_map = (http_get, list (cons (text "Login") nil)) ∷ [] }

-- The repository with that resource, before its creation event.
abbrev before : Domain tables.State
before = record { tree = []; repo = table_put (λ n j. none) "default" "c1" guarded; closed = [] }

abbrev after : Domain tables.State
after = notify_created tables plain_codec "default" before "c1" "/redfish/v1/Chassis"

after-IsConsistent : IsConsistent tables plain_codec "default" after
unfolding find_entity lookup
after-IsConsistent =
    notify_created-IsConsistent tables plain_codec "default" before "c1" "/redfish/v1/Chassis"
      (λ uri id h. cc h) (refl, refl)

-- A request with a slash at its end.
abbrev get_chassis : Request
get_chassis = record {
  path = "/redfish/v1/Chassis/";
  method = "GET";
  if_none_match = "";
  if_match = "";
  user_privileges = "Login" ∷ [];
}

abbrev plain_get : String → Bool
plain_get name = str_eq name "R:GET"

get_forwarded :
    gate tables plain_codec "default" plain_get (λ a. "") after get_chassis
    ≡ forwarded guarded "R:GET"
unfolding gate get_aggregate_id notify_created drop_older lookup insert load find_entity
    map_string_to_http_req privileges_of http_req_number is_authorized
get_forwarded = refl

gate-MayAccess_example :
    ((guarded.resource_uri ≡ get_chassis.path)
      ⊎ (guarded.resource_uri ≡ strip_slashes get_chassis.path))
    × MayAccess get_chassis guarded
gate-MayAccess_example =
    gate-MayAccess tables plain_codec "default" plain_get (λ a. "") after get_chassis guarded
      "R:GET" after-IsConsistent get_forwarded
