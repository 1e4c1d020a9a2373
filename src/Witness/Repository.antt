-- ===== src/Witness/Repository.antt =====
-- The repository and the tree, over the database that is a function.
use sailfish.Base.{Dict, String, [], arith, inl, lookup, none, refl, some, ◌≡◌}
use sailfish.Resource.{Aggregate}
use sailfish.Store.Db.{Database, plain_codec, table_database, table_put}
use sailfish.Store.Repo.{find_entity, save_entity}
use sailfish.Store.Tree.{Domain, drop_older, notify_created, notify_removed}
use sailfish.Store.Tree.Consistency.{
  IsConsistent, StandsAt, notify_created-IsConsistent, notify_removed-IsConsistent,
}
use sailfish.Witness.Data.{named_resource}

abbrev pub tables : Database Aggregate
tables = table_database Aggregate

-- The database with one saved resource.
abbrev one_saved : tables.State
one_saved = table_put (λ n j. none) "default" "c1" named_resource

save_named : save_entity tables plain_codec "default" (λ n j. none) named_resource ≡ inl one_saved
unfolding save_entity
save_named = refl

-- The tree with that resource, and before its creation event.
abbrev domain : Dict String → Domain tables.State
domain tree = record { tree = tree; repo = one_saved; closed = [] }

found_named : find_entity tables plain_codec "default" one_saved "c1" ≡ some named_resource
unfolding find_entity
found_named = refl

named_stands :
    StandsAt "c1" "/redfish/v1/Chassis" (find_entity tables plain_codec "default" one_saved "c1")
named_stands = rw found_named (refl, refl)

empty-IsConsistent : IsConsistent tables plain_codec "default" (domain [])
unfolding lookup
empty-IsConsistent uri id h = cc h

notify_created-IsConsistent_example :
    IsConsistent tables plain_codec "default"
      (notify_created tables plain_codec "default" (domain []) "c1" "/redfish/v1/Chassis")
notify_created-IsConsistent_example =
    notify_created-IsConsistent tables plain_codec "default" (domain []) "c1" "/redfish/v1/Chassis"
      empty-IsConsistent named_stands

notify_removed-IsConsistent_example : IsConsistent tables plain_codec "default" (
    notify_removed tables plain_codec "default"
      (notify_created tables plain_codec "default" (domain []) "c1" "/redfish/v1/Chassis")
      "c1"
      "/redfish/v1/Chassis")
unfolding notify_created drop_older lookup find_entity
notify_removed-IsConsistent_example =
    notify_removed-IsConsistent tables plain_codec "default"
      (notify_created tables plain_codec "default" (domain []) "c1" "/redfish/v1/Chassis") "c1"
      "/redfish/v1/Chassis"
      (notify_created-IsConsistent tables plain_codec "default" (domain []) "c1"
        "/redfish/v1/Chassis" empty-IsConsistent named_stands)
      (λ a f. ground arith)
