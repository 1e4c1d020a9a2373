-- ===== src/Store/Handler.antt =====
-- CommandHandler of src/redfishresource/aggregate.go. A command runs in two parts, between which
-- commands of other requests may run: up to the entry in cmdSlice, and from there to its end.
pub mod Sequence
pub mod Blocked
pub mod Overlap
use sailfish.Base.{
  Bool, List, Option, String, [], false, if◌then◌else◌, none, not, some, true, ℕ, ◌++◌, ◌+◌, ◌==◌,
  ◌∷◌,
}
use sailfish.Resource.{Aggregate, Event, events_to_publish}
use sailfish.Resource.Commands.{
  Command, aggregate_id, create_redfish_resource, done, failed, handle, http_delete, panicked,
  remove_redfish_resource, remove_redfish_resource_property, update_metric_redfish_resource,
  update_redfish_resource_properties, update_redfish_resource_properties2,
}
use sailfish.Store.Db.{Codec, Database}
use sailfish.Store.Repo.{load, save_or_drop}

-- aggregateStoreStatus. `ptr` stands for its address, by which Save2DB tells the entries apart.
pub record Status : Type 0 where
  pub ptr : ℕ
  pub agg : Aggregate
  pub save2db : ℕ

-- The command handler's state with the repository and the events published on its bus, the oldest
-- first. `next` is an address that no entry has.
pub record HandlerState (State : Type 0) : Type 0 where
  pub store : State
  pub cmd_slice : List Status
  pub next : ℕ
  pub bus : List Event

-- How HandleCommand ends: it returns, with an error or none, or the program panics.
pub data Return (State : Type 0) : Type 0 where
  returned : Bool → HandlerState State → Return State
  crashed : Return State

-- A command between its two parts: the loaded aggregate, and the address of its entry if the
-- command is one of those that are saved.
pub record Running : Type 0 where
  pub agg : Aggregate
  pub entry : Option ℕ

-- The types of commands whose aggregate is saved.
unfoldable pub is_saved : Command → Bool
is_saved (create_redfish_resource c) = true
is_saved (update_redfish_resource_properties id fs) = true
is_saved (update_redfish_resource_properties2 id fs) = true
is_saved (update_metric_redfish_resource id fs limit) = true
is_saved (remove_redfish_resource_property id p) = true
is_saved (remove_redfish_resource id) = false
is_saved (http_delete id cmd) = false

-- Writes to the entry at an address: the handler changes the aggregate that the entry points to.
unfoldable pub set_entry : ℕ → Aggregate → ℕ → List Status → List Status
set_entry ptr a status [] = []
set_entry ptr a status (e ∷ es) =
    let rest = set_entry ptr a status es in
    if e.ptr == ptr then record e { agg = a; save2db = status } ∷ es else e ∷ rest

unfoldable pub set_own : Option ℕ → Aggregate → ℕ → List Status → List Status
unfolding set_entry
set_own none a status es = es
set_own (some ptr) a status es = set_entry ptr a status es

module _ {Bytes : Type 0} (db : Database Bytes) (codec : Codec Bytes) (namespace : String) where
  -- The loop of Save2DB: what is left of the slice, and the new store.
  unfoldable pub drain : db.State → List Status → db.State × List Status
  drain s [] = (s, [])
  drain s (e ∷ es) =
      let saved = drain (save_or_drop db codec namespace s e.agg) es in
      let skipped = drain s es in
      if e.save2db == 1 then saved else if e.save2db == 2 then skipped else (s, e ∷ es)

  -- Save2DB by the command whose entry is `ptr`: h.cmdSlice[0] panics on an empty slice.
  unfoldable pub save_2_db : ℕ → HandlerState db.State → Return db.State
  unfolding drain
  save_2_db ptr h = elim h.cmd_slice [
    | [] ↦ crashed
    | e ∷ es ↦
        if not (e.ptr == ptr)
        then returned false h
        else (let (s, left) = drain h.store (e ∷ es) in
            returned false (record h { store = s; cmd_slice = left }))
  ]

  unfoldable pub save_own : Option ℕ → HandlerState db.State → Return db.State
  unfolding save_2_db
  save_own none h = returned false h
  save_own (some ptr) h = save_2_db ptr h

  -- HandleCommand up to the entry in the slice.
  unfoldable pub begin : Command → HandlerState db.State → Running × HandlerState db.State
  begin cmd h =
      let a = load db codec namespace h.store (aggregate_id cmd) in
      if is_saved cmd
      then (
        record { agg = a; entry = some h.next },
        record h {
          cmd_slice = h.cmd_slice ++ (record { ptr = h.next; agg = a; save2db = 1 } ∷ []);
          next = h.next + 1;
        },
      )
      else (record { agg = a; entry = none }, h)

  publish : List Event → Return db.State → Return db.State
  publish events crashed = crashed
  publish events (returned e h) = returned e (record h { bus = h.bus ++ events })

  -- From there to the end. A failed command marks its entry and leaves it in the slice.
  unfoldable pub finish : Command → Running → HandlerState db.State → Return db.State
  unfolding save_own publish set_own
  finish cmd r h = elim (handle cmd r.agg) [
    | panicked ↦ crashed
    | failed a ↦ returned true (record h { cmd_slice = set_own r.entry a 2 h.cmd_slice })
    | done a ↦
        let (events, a') = events_to_publish a in
        publish events
          (save_own r.entry (record h { cmd_slice = set_own r.entry a' 1 h.cmd_slice }))
  ]

  -- HandleCommand with no other command in between. `check` is CheckCommand of the event library,
  -- which refuses commands whose required fields are empty.
  unfoldable pub handle_command :
      (Command → Bool) → Command → HandlerState db.State → Return db.State
  unfolding begin finish
  handle_command check cmd h =
      if check cmd then (let (r, h') = begin cmd h in finish cmd r h') else returned true h
