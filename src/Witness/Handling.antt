-- ===== src/Witness/Handling.antt =====
-- The command handler, over the database that is a function.
use sailfish.Base.{Bool, [], arith, false, none, refl, some, true, ◌++◌, ◌∷◌, ◌≡◌}
use sailfish.Property.{end}
use sailfish.Resource.{
  Aggregate, events_to_publish, new_aggregate, resource_created, resource_removed,
}
use sailfish.Resource.Commands.{
  Command, aggregate_id, create_redfish_resource, created, done, failed, handle,
  remove_redfish_resource, update_redfish_resource_properties2,
}
use sailfish.Store.Db.{Database, plain_codec, table_database}
use sailfish.Store.Repo.{find_entity, load}
use sailfish.Store.Handler.{
  HandlerState, crashed, handle_command, is_saved, returned, save_own, set_own,
}
use sailfish.Store.Tree.{Domain, expand_uri, notify}
use sailfish.Store.Creation.{expand_uri-create, new_resource}
use sailfish.Store.Handler.Blocked.{run_commands, run_commands-store}
use sailfish.Store.Handler.Overlap.{overlap_in_order, overlap_in_order_crashed}
use sailfish.Witness.Data.{chassis}

abbrev tables : Database Aggregate
tables = table_database Aggregate

abbrev anything : Command → Bool
anything c = true

-- An idle handler on an empty repository.
abbrev idle : HandlerState tables.State
idle = record { store = λ n j. none; cmd_slice = []; next = 0; bus = [] }

abbrev create : Command
create = create_redfish_resource chassis

-- The same command without an identifier of its resource.
abbrev update_missing : Command
update_missing = update_redfish_resource_properties2 "c2" end

creation_succeeds :
    handle create (load tables plain_codec "default" idle.store (aggregate_id create))
    ≡ done (created chassis new_aggregate)
unfolding handle load find_entity
creation_succeeds = refl

update_fails :
    handle update_missing
      (load tables plain_codec "default" idle.store (aggregate_id update_missing))
    ≡ failed new_aggregate
unfolding handle load find_entity
update_fails = refl

removal_succeeds :
    handle (remove_redfish_resource "c1") (load tables plain_codec "default" idle.store "c1")
    ≡ done (record new_aggregate { events = resource_removed "c1" "" ∷ [] })
unfolding handle load find_entity
removal_succeeds = refl

-- A handler whose slice has the entry of a failed command.
abbrev blocked : HandlerState tables.State
blocked = record {
  store = λ n j. none;
  cmd_slice = record { ptr = 0; agg = new_aggregate; save2db = 2 } ∷ [];
  next = 1;
  bus = [];
}

-- The same handler after one creation.
abbrev still_blocked : HandlerState tables.State
still_blocked = record {
  store = λ n j. none;
  cmd_slice =
      record { ptr = 0; agg = new_aggregate; save2db = 2 }
      ∷ record {
        ptr = 1;
        agg = record (created chassis new_aggregate) { events = [] };
        save2db = 1;
      }
      ∷ [];
  next = 2;
  bus = (created chassis new_aggregate).events;
}

run_blocked :
    run_commands tables plain_codec "default" anything (create ∷ []) blocked
    ≡ returned false still_blocked
unfolding run_commands handle_command is_saved aggregate_id handle load find_entity
    events_to_publish set_own save_own
run_blocked = refl

run_commands-store_example : still_blocked.store ≡ blocked.store
run_commands-store_example =
    run_commands-store tables plain_codec "default" anything (create ∷ []) blocked still_blocked
      false (omega arith) run_blocked

overlap_in_order_crashed_example :
    overlap_in_order tables plain_codec "default" create create idle ≡ crashed
unfolding is_saved
overlap_in_order_crashed_example =
    overlap_in_order_crashed tables plain_codec "default" create create idle
      (created chassis new_aggregate) (created chassis new_aggregate) refl refl refl
      creation_succeeds creation_succeeds

-- The tree before the creation.
abbrev bare : Domain tables.State
bare = record { tree = []; repo = λ n j. none; closed = [] }

nothing_found : find_entity tables plain_codec "default" idle.store chassis.id ≡ none
unfolding find_entity
nothing_found = refl

expand_uri-create_example :
    (h' : HandlerState tables.State) × (handle_command tables plain_codec "default" anything create
        idle
      ≡ returned false h')
    × (h'.bus ≡ idle.bus ++ (resource_created "c1" "/redfish/v1/Chassis" ∷ []))
    × (expand_uri tables plain_codec "default"
          (notify tables plain_codec "default"
            (record bare { repo = h'.store })
            (resource_created "c1" "/redfish/v1/Chassis"))
          "/redfish/v1/Chassis"
        ≡ some (new_resource chassis))
expand_uri-create_example =
    expand_uri-create tables plain_codec "default" anything chassis idle bare (new_resource chassis)
      (λ e. cc e) (λ e. cc e) refl refl nothing_found refl
