-- ===== src/Store/Handler/Overlap.antt =====
-- Two commands that overlap.
use sailfish.Base.{String, [], arith, false, true, ◌++◌, ◌+◌, ◌≡◌}
use sailfish.Resource.{Aggregate, events_to_publish}
use sailfish.Resource.Commands.{Command, aggregate_id, done, handle}
use sailfish.Store.Db.{Codec, Database}
use sailfish.Store.Repo.{load, save_or_drop}
use sailfish.Store.Handler.{
  HandlerState, Return, begin, crashed, drain, finish, is_saved, returned, save_2_db, set_entry,
}

abbrev pub then_finish {ℓ} :
    {State : Type 0} {A : Type ℓ} → Return State → (HandlerState State → A) → A → A
then_finish (returned e h) f z = f h
then_finish crashed f z = z

module _ {Bytes : Type 0} (db : Database Bytes) (codec : Codec Bytes) (namespace : String) where
  -- Both commands begin on an idle handler, and then end in the order in which they began, or in
  -- the other order.
  unfoldable pub overlap_in_order : Command → Command → HandlerState db.State → Return db.State
  overlap_in_order c d h =
      let (r, h₁) = begin db codec namespace c h in
      let (t, h₂) = begin db codec namespace d h₁ in
      then_finish (finish db codec namespace c r h₂) (λ h₃. finish db codec namespace d t h₃)
        crashed

  unfoldable pub overlap_reversed : Command → Command → HandlerState db.State → Return db.State
  overlap_reversed c d h =
      let (r, h₁) = begin db codec namespace c h in
      let (t, h₂) = begin db codec namespace d h₁ in
      then_finish (finish db codec namespace d t h₂) (λ h₃. finish db codec namespace c r h₃)
        crashed

  -- Two commands of kinds that are saved begin on an idle handler, both succeed, and end in the
  -- order in which they began: the first drains the slice with the entry of the other, which then
  -- indexes an empty slice, and the program panics.
  pub overlap_in_order_crashed :
      (c d : Command) (h : HandlerState db.State) (a b : Aggregate)
      → is_saved c ≡ true
      → is_saved d ≡ true
      → h.cmd_slice ≡ []
      → handle c (load db codec namespace h.store (aggregate_id c)) ≡ done a
      → handle d (load db codec namespace h.store (aggregate_id d)) ≡ done b
      → overlap_in_order c d h ≡ crashed
  unfolding overlap_in_order begin finish save_2_db drain set_entry events_to_publish
  overlap_in_order_crashed c d h a b sc sd idle hc hd = ground arith

  -- Two commands of kinds that are saved begin on an idle handler, both succeed, and end in the
  -- other order: the second to end saves both aggregates, in the order in which they began, and the
  -- handler is idle again.
  pub overlap_reversed-saved :
      (c d : Command) (h : HandlerState db.State) (a b : Aggregate)
      → is_saved c ≡ true
      → is_saved d ≡ true
      → h.cmd_slice ≡ []
      → handle c (load db codec namespace h.store (aggregate_id c)) ≡ done a
      → handle d (load db codec namespace h.store (aggregate_id d)) ≡ done b
      → overlap_reversed c d h
        ≡ returned false (record {
          store =
              save_or_drop db codec namespace
                (save_or_drop db codec namespace h.store (record a { events = [] }))
                (record b { events = [] });
          cmd_slice = [];
          next = h.next + 1 + 1;
          bus = (h.bus ++ b.events) ++ a.events;
        })
  unfolding overlap_reversed begin finish save_2_db drain set_entry events_to_publish
  overlap_reversed-saved c d h a b sc sd idle hc hd = ground arith
