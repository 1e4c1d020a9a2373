-- ===== src/Subscription/Replay.antt =====
-- A fault from its arrival (src/dell-ec/lcl.go) to the alert that a new subscription is sent
-- (src/ocp/eventservice/entrypoint.go), through the command handler and the tree.
use sailfish.Base.{Bool, Dict, List, String, [], false, none, refl, some, true, ◌<>◌, ◌∷◌, ◌≡◌, ◌≢◌}
use sailfish.Property.Parse.{dict_of}
use sailfish.Property.Flatten.{flatten}
use sailfish.Resource.{Aggregate, new_aggregate, resource_created}
use sailfish.Resource.Commands.{Command, create_redfish_resource}
use sailfish.Store.Db.{Codec, Database}
use sailfish.Store.Repo.{find_entity}
use sailfish.Store.Tree.{Domain, expand_uri, get_aggregate_id, notify}
use sailfish.Store.Handler.{HandlerState, handle_command, returned}
use sailfish.Store.Creation.{expand_uri-create, new_resource}
use sailfish.Faults.{add_fault_entry, data_arg, in_array_index, text_arg}
use sailfish.Faults.Entries.{FaultEntryAddData, fault_resource}
use sailfish.Subscription.Faults.{alert, fault_event, fault_event-created, made}

module _ {Bytes : Type 0} (db : Database Bytes) (codec : Codec Bytes) (namespace : String)
    (check : Command → Bool) (c_time : String → String) where
  -- A fault that is no tombstone and not in the tree, on an idle handler, under an identifier that
  -- is not empty and not in the repository, by a namespace with a name, a check that the creation
  -- passes and an encoder that takes the resource: the function sends one creation, which returns
  -- with no error; once the tree has its event, the URI of the fault leads to a resource that is
  -- replayed as the alert of the fault.
  pub replay-add_fault_entry :
      (tree : Dict String) (uuid log_uri : String) (f : FaultEntryAddData) (t : List String)
      (h : HandlerState db.State) (d : Domain db.State) (b : Bytes)
      → in_array_index f.name t ≡ none
      → get_aggregate_id tree (log_uri <> ("/" <> f.name)) ≡ none
      → namespace ≢ ""
      → uuid ≢ ""
      → check (create_redfish_resource (fault_resource c_time uuid log_uri f)) ≡ true
      → h.cmd_slice ≡ []
      → find_entity db codec namespace h.store uuid ≡ none
      → codec.encode (new_resource (fault_resource c_time uuid log_uri f)) ≡ some b
      → let c = create_redfish_resource (fault_resource c_time uuid log_uri f) in
        ((add_fault_entry c_time tree uuid (text_arg log_uri) (data_arg f) t).sent ≡ c ∷ [])
        × ((h' : HandlerState db.State) × (handle_command db codec namespace check c h
              ≡ returned false h')
            × ((a : Aggregate) × (expand_uri db codec namespace
                    (notify db codec namespace
                      (record d { repo = h'.store })
                      (resource_created uuid (log_uri <> ("/" <> f.name))))
                    (log_uri <> ("/" <> f.name))
                  ≡ some a)
                × (fault_event (dict_of (flatten a.value)) ≡ made (alert c_time f))))
  unfolding add_fault_entry fault_resource
  replay-add_fault_entry tree uuid log_uri f t h d b i g ns ne ok idle fresh enc =
      let (h', run, _, leads) =
        expand_uri-create db codec namespace check (fault_resource c_time uuid log_uri f) h d b ns
          ne ok idle fresh enc in
      (
        rw (i, g, add_fault_entry) refl,
        (
          h',
          run,
          (
            new_resource (fault_resource c_time uuid log_uri f),
            leads,
            fault_event-created c_time uuid log_uri f new_aggregate refl,
          ),
        ),
      )
