-- ===== src/Store/World.antt =====
-- A command and what follows from it: HandleCommand of src/redfishresource/aggregate.go, whose events
-- Notify of src/redfishresource/handler.go has handled when the command is over.
use sailfish.Base.{
  Bool, Bool-cases, Dict, List, Option, String, [], ap, arith, drop, eq_iff, eq_refl, false,
  if◌then◌else◌, inl, inr, length, lookup, lookup-delete, none, refl, some, str_eq, subst, sym,
  true, ◌++◌, ◌∙◌, ◌∷◌, ◌≡◌,
}
use sailfish.Resource.{Aggregate, Event, publish_event, resource_removed}
use sailfish.Resource.Commands.{
  Command, aggregate_id, handle, handle_remove, remove_redfish_resource,
}
use sailfish.Store.Db.{Codec, Database}
use sailfish.Store.Repo.{find_entity, find_entity-remove_entity, load, remove_entity}
use sailfish.Store.Tree.{notify, notify_all, notify_removed, removed_tree, strip_slashes}
use sailfish.Store.Handler.{HandlerState, Return, crashed, handle_command, is_saved, returned}
use sailfish.Store.Handler.Sequence.{handle_command-unsaved}

-- The command handler and the domain's tree, which share the repository.
pub record World (State : Type 0) : Type 0 where
  pub handler : HandlerState State
  pub tree : Dict String
  pub closed : List String

drop-append : {A : Type 0} (xs ys : List A) → drop (length xs) (xs ++ ys) ≡ ys
drop-append [] ys = refl
drop-append (x ∷ xs) ys = drop-append xs ys

some-injective : (x y : Aggregate) → ◌≡◌ {A = Option Aggregate} (some x) (some y) → x ≡ y
some-injective x y h = cc h

module _ {Bytes : Type 0} (db : Database Bytes) (codec : Codec Bytes) (namespace : String) where
  -- The events of a command reach the tree.
  unfoldable pub announce : List Event → World db.State → World db.State
  unfolding notify_all
  announce events w =
      let d =
        notify_all db codec namespace events
          (record { tree = w.tree; repo = w.handler.store; closed = w.closed }) in
      record { handler = record w.handler { store = d.repo }; tree = d.tree; closed = d.closed }

  after_return : World db.State → Return db.State → Option (World db.State)
  after_return w crashed = none
  after_return w (returned error h) =
      some (announce (drop (length w.handler.bus) h.bus) (record w { handler = h }))

  module _ (check : Command → Bool) where
    -- HandleCommand, whose error the callers here drop; none is a panic.
    unfoldable pub send_command : Command → World db.State → Option (World db.State)
    unfolding handle_command after_return
    send_command cmd w = after_return w (handle_command db codec namespace check cmd w.handler)

    -- The aggregate of an identifier stands at the URI, and has no events left.
    abbrev pub Rests : String → Option Aggregate → Type 0
    Rests uri none = ⊥
    Rests uri (some a) = (a.resource_uri ≡ uri) × (a.events ≡ [])

    -- Each identifier of the tree passes the check of a removal, and its aggregate stands at the URI,
    -- which ends in no slash.
    abbrev pub IsSettled : World db.State → Type 0
    IsSettled w =
        (uri id : String)
        → lookup uri w.tree ≡ some id
        → Rests uri (find_entity db codec namespace w.handler.store id)
          × (strip_slashes uri ≡ uri)
          × (check (remove_redfish_resource id) ≡ true)

    Rests-some :
        (uri : String) (o : Option Aggregate)
        → Rests uri o
        → (a : Aggregate) × (o ≡ some a) × (a.resource_uri ≡ uri) × (a.events ≡ [])
    Rests-some uri none h = absurd h
    Rests-some uri (some a) h = (a, refl, h.0, h.1)

    after_removal : String → String → World db.State → World db.State
    after_removal id uri w = announce (resource_removed id uri ∷ []) (record w {
      handler = record w.handler { bus = w.handler.bus ++ (resource_removed id uri ∷ []) };
    })

    tree-after_removal :
        (id uri : String) (w : World db.State)
        → (after_removal id uri w).tree ≡ removed_tree w.tree id uri
    unfolding after_removal announce notify_all notify notify_removed
    tree-after_removal id uri w = refl

    store-after_removal :
        (id uri : String) (w : World db.State)
        → (after_removal id uri w).handler.store
          ≡ remove_entity db codec namespace w.handler.store id
    unfolding after_removal announce notify_all notify notify_removed
    store-after_removal id uri w = refl

    removal-events :
        (id uri : String) (a : Aggregate)
        → a.resource_uri ≡ uri
        → a.events ≡ []
        → (publish_event a (resource_removed id a.resource_uri)).events
          ≡ resource_removed id uri ∷ []
    unfolding publish_event
    removal-events id uri a at no_events = rw (at, no_events) refl

    send_command-removal :
        (id uri : String) (w : World db.State)
        → IsSettled w
        → lookup uri w.tree ≡ some id
        → send_command (remove_redfish_resource id) w ≡ some (after_removal id uri w)
    unfolding send_command after_return after_removal is_saved handle handle_remove aggregate_id
        load
    send_command-removal id uri w settled here =
        let (rests, _, ok) = settled uri id here in
        let (a, is, at, no_events) =
          Rests-some uri (find_entity db codec namespace w.handler.store id) rests in
        let a' : Aggregate = publish_event a (resource_removed id a.resource_uri) in
        let run : handle_command db codec namespace check (remove_redfish_resource id) w.handler
            ≡ returned false (record w.handler { bus = w.handler.bus ++ a'.events }) =
          handle_command-unsaved db codec namespace check (remove_redfish_resource id) w.handler a'
            ok refl (rw (is, load) refl) in
        ap (after_return w) run
        ∙ ap
            (λ es. after_return w (returned false (record w.handler { bus = w.handler.bus ++ es })))
            (removal-events id uri a at no_events)
        ∙ ap
            (λ es. some (
              announce es (record w {
                handler = record w.handler {
                  bus = w.handler.bus ++ (resource_removed id uri ∷ []);
                };
              })))
            (drop-append w.handler.bus (resource_removed id uri ∷ []))

    pub lookup-removed_tree :
        (tree : Dict String) (id uri v : String)
        → lookup uri tree ≡ some id
        → lookup v (removed_tree tree id uri) ≡ (if str_eq uri v then none else lookup v tree)
    unfolding removed_tree
    lookup-removed_tree tree id uri v here =
        rw (here, removed_tree, eq_refl id) (lookup-delete uri v tree)

    Rests-kept :
        (id id' uri : String) (s : db.State)
        → str_eq id id' ≡ false
        → Rests uri (find_entity db codec namespace s id')
        → Rests uri (find_entity db codec namespace (remove_entity db codec namespace s id) id')
    Rests-kept id id' uri s other h =
        subst (Rests uri)
          (sym (find_entity-remove_entity db codec namespace s id id' ∙ rw (other) refl)) h

    -- A removal of a resource that the tree has: its URI leaves the tree, the other ones stay, and
    -- the world is as settled as before.
    pub removal-IsSettled :
        (id uri : String) (w : World db.State)
        → IsSettled w
        → lookup uri w.tree ≡ some id
        → (w' : World db.State) × (send_command (remove_redfish_resource id) w ≡ some w')
          × ((v : String) → lookup v w'.tree ≡ (if str_eq uri v then none else lookup v w.tree))
          × IsSettled w'
    removal-IsSettled id uri w settled here =
        let gone : (v : String)
            → lookup v (after_removal id uri w).tree
              ≡ (if str_eq uri v then none else lookup v w.tree) =
          λ v.
            ap (lookup v) (tree-after_removal id uri w)
            ∙ lookup-removed_tree w.tree id uri v here in
        (
          after_removal id uri w,
          send_command-removal id uri w settled here,
          gone,
          λ uri' id' found.
              let (other, before) =
                still uri uri' id' (lookup uri' w.tree) (sym (gone uri') ∙ found) in
              let (rests, plain, ok) = settled uri' id' before in
              (
                subst (λ s. Rests uri' (find_entity db codec namespace s id'))
                    (sym (store-after_removal id uri w))
                    (Rests-kept id id' uri' w.handler.store (differ uri' id' other before) rests),
                plain,
                ok,
              ),
        )
      where
        still :
            (uri uri' id' : String) (o : Option String)
            → (if str_eq uri uri' then none else o) ≡ some id'
            → (str_eq uri uri' ≡ false) × (o ≡ some id')
        still uri uri' id' o h = ground (arith, h)

        differ :
            (uri' id' : String)
            → str_eq uri uri' ≡ false
            → lookup uri' w.tree ≡ some id'
            → str_eq id id' ≡ false
        differ uri' id' other before = elim (Bool-cases (str_eq id id')) [
          | inr b ↦ b
          | inl b ↦
              let same : id' ≡ id = sym ((eq_iff id id').0 b) in
              let (a, is, at, _) = Rests-some uri _ (settled uri id here).0 in
              let (a', is', at', _) = Rests-some uri' _ (settled uri' id' before).0 in
              let one : a' ≡ a =
                some-injective a' a
                  (sym is' ∙ (ap (find_entity db codec namespace w.handler.store) same ∙ is)) in
              let agree : uri ≡ uri' = sym at ∙ (sym (ap (λ x. x.resource_uri) one) ∙ at') in
              absurd (ground (arith, other, (eq_iff uri uri').1 agree))
        ]
