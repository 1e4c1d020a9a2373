-- ===== src/Store/Handler/Sequence.antt =====
-- Commands that run one after the other.
use sailfish.Base.{Bool, String, [], arith, false, true, ◌++◌, ◌+◌, ◌≡◌}
use sailfish.Resource.{Aggregate, events_to_publish}
use sailfish.Resource.Commands.{Command, aggregate_id, done, handle}
use sailfish.Store.Db.{Codec, Database}
use sailfish.Store.Repo.{load, save_or_drop}
use sailfish.Store.Handler.{
  HandlerState, drain, handle_command, is_saved, returned, save_2_db, set_entry,
}

module _ {Bytes : Type 0} (db : Database Bytes) (codec : Codec Bytes) (namespace : String)
    (check : Command → Bool) where
  -- A command that passes the check, is of a kind that is saved, and succeeds, on an idle handler:
  -- its aggregate is saved without the events, the events are published in their order, and the
  -- handler is idle again.
  pub handle_command-done :
      (cmd : Command) (h : HandlerState db.State) (a : Aggregate)
      → check cmd ≡ true
      → is_saved cmd ≡ true
      → h.cmd_slice ≡ []
      → handle cmd (load db codec namespace h.store (aggregate_id cmd)) ≡ done a
      → handle_command db codec namespace check cmd h
        ≡ returned false (record {
          store = save_or_drop db codec namespace h.store (record a { events = [] });
          cmd_slice = [];
          next = h.next + 1;
          bus = h.bus ++ a.events;
        })
  unfolding handle_command save_2_db drain set_entry events_to_publish
  handle_command-done cmd h a ok saved idle d = ground arith

  -- A command that passes the check, is of a kind that is not saved, and succeeds: its events are
  -- published, and nothing else changes.
  pub handle_command-unsaved :
      (cmd : Command) (h : HandlerState db.State) (a : Aggregate)
      → check cmd ≡ true
      → is_saved cmd ≡ false
      → handle cmd (load db codec namespace h.store (aggregate_id cmd)) ≡ done a
      → handle_command db codec namespace check cmd h
        ≡ returned false (record h { bus = h.bus ++ a.events })
  unfolding handle_command events_to_publish
  handle_command-unsaved cmd h a ok unsaved d = ground arith
