-- ===== src/Store/Creation.antt =====
-- A new resource from the command to the look-up of its URI.
use sailfish.Base.{
  Bool, Dict, String, [], ap, arith, eq_iff, eq_refl, false, inl, insert, lookup, lookup-insert,
  none, refl, some, true, ◌++◌, ◌+◌, ◌∙◌, ◌∷◌, ◌≡◌, ◌≢◌,
}
use sailfish.Resource.{Aggregate, new_aggregate, publish_event, resource_created}
use sailfish.Resource.Commands.{
  Command, CreateRedfishResource, aggregate_id, create_redfish_resource, created, done, handle,
  handle_create,
}
use sailfish.Store.Db.{Codec, Database}
use sailfish.Store.Repo.{find_entity, find_entity-save_entity, load, save_entity, save_or_drop}
use sailfish.Store.Handler.{HandlerState, handle_command, is_saved, returned}
use sailfish.Store.Handler.Sequence.{handle_command-done}
use sailfish.Store.Tree.{Domain, expand_uri, get_aggregate_id, notify, notify_created}
use sailfish.Store.Tree.Consistency.{find-drop_older}

-- The resource as it is saved.
abbrev pub new_resource : CreateRedfishResource → Aggregate
new_resource c = record (created c new_aggregate) { events = [] }

new_resource-id : (c : CreateRedfishResource) → (new_resource c).id ≡ c.id
unfolding created publish_event
new_resource-id c = refl

created-events :
    (c : CreateRedfishResource)
    → (created c new_aggregate).events ≡ resource_created c.id c.resource_uri ∷ []
unfolding created publish_event
created-events c = refl

get_aggregate_id-insert :
    (tree : Dict String) (uri id : String) → get_aggregate_id (insert uri id tree) uri ≡ some id
unfolding get_aggregate_id
get_aggregate_id-insert tree uri id = ground (arith, lookup-insert uri uri id tree, eq_refl uri)

module _ {Bytes : Type 0} (db : Database Bytes) (codec : Codec Bytes) (namespace : String)
    (check : Command → Bool) where
  create-done :
      (c : CreateRedfishResource) (s : db.State)
      → find_entity db codec namespace s c.id ≡ none
      → handle (create_redfish_resource c) (load db codec namespace s c.id)
        ≡ done (created c new_aggregate)
  unfolding handle handle_create load
  create-done c s f = rw (f, load) refl

  save_or_drop-new :
      (c : CreateRedfishResource) (s : db.State) (b : Bytes)
      → c.id ≢ ""
      → codec.encode (new_resource c) ≡ some b
      → save_entity db codec namespace s (new_resource c)
        ≡ inl (save_or_drop db codec namespace s (new_resource c))
  unfolding save_or_drop
  save_or_drop-new c s b ne e =
      ground (arith, e, eq_iff c.id "", eq_iff (new_resource c).id "", new_resource-id c)

  find-new :
      (c : CreateRedfishResource) (s : db.State) (b : Bytes)
      → namespace ≢ ""
      → c.id ≢ ""
      → codec.encode (new_resource c) ≡ some b
      → find_entity db codec namespace (save_or_drop db codec namespace s (new_resource c)) c.id
        ≡ some (new_resource c)
  find-new c s b ns ne e =
      find_entity-save_entity db codec namespace s
        (save_or_drop db codec namespace s (new_resource c)) (new_resource c) c.id ns
        (save_or_drop-new c s b ne e)
      ∙ rw (new_resource-id c, eq_refl c.id) refl

  expand_uri-notify :
      (d : Domain db.State) (id uri : String) (a : Aggregate)
      → find_entity db codec namespace d.repo id ≡ some a
      → expand_uri db codec namespace (notify db codec namespace d (resource_created id uri)) uri
        ≡ some a
  unfolding expand_uri notify notify_created load
  expand_uri-notify d id uri a f =
      rw
        (
          get_aggregate_id-insert d.tree uri id,
          expand_uri,
          load,
          find-drop_older db codec namespace (lookup uri d.tree) id id d.repo (λ _. refl),
          f,
        )
        refl

  -- A creation that passes the check, on an idle handler, of an identifier that is not empty and
  -- not in the repository, by a namespace with a name and an encoder that takes the resource: the
  -- command returns with no error and publishes the creation event, and once the tree has that
  -- event, the URI of the command leads to the new resource.
  pub expand_uri-create :
      (c : CreateRedfishResource) (h : HandlerState db.State) (d : Domain db.State) (b : Bytes)
      → namespace ≢ ""
      → c.id ≢ ""
      → check (create_redfish_resource c) ≡ true
      → h.cmd_slice ≡ []
      → find_entity db codec namespace h.store c.id ≡ none
      → codec.encode (new_resource c) ≡ some b
      → (h' : HandlerState db.State) × (handle_command db codec namespace check
            (create_redfish_resource c)
            h
          ≡ returned false h')
        × (h'.bus ≡ h.bus ++ (resource_created c.id c.resource_uri ∷ []))
        × (expand_uri db codec namespace
              (notify db codec namespace
                (record d { repo = h'.store })
                (resource_created c.id c.resource_uri))
              c.resource_uri
            ≡ some (new_resource c))
  unfolding is_saved aggregate_id
  expand_uri-create c h d b ns ne ok idle f e = (
    record {
      store = save_or_drop db codec namespace h.store (new_resource c);
      cmd_slice = [];
      next = h.next + 1;
      bus = h.bus ++ (created c new_aggregate).events;
    },
    handle_command-done db codec namespace check (create_redfish_resource c) h
        (created c new_aggregate) ok refl idle (create-done c h.store f),
    ap (λ es. h.bus ++ es) (created-events c),
    expand_uri-notify (record d { repo = save_or_drop db codec namespace h.store (new_resource c) })
        c.id c.resource_uri (new_resource c) (find-new c h.store b ns ne e),
  )
