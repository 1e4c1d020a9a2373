-- ===== src/Store/Handler/Blocked.antt =====
-- A failed command leaves its entry at the head of the slice, and from then on no command that
-- runs on its own is ever saved.
use sailfish.Base.{
  Bool, List, String, [], arith, false, inl, inr, refl, true, ℕ, ◌+◌, ◌<◌, ◌∙◌, ◌∷◌, ◌≡◌, ◌⊎◌,
}
use sailfish.Resource.{Aggregate, events_to_publish}
use sailfish.Resource.Commands.{Command, aggregate_id, failed, handle}
use sailfish.Store.Db.{Codec, Database}
use sailfish.Store.Repo.{load}
use sailfish.Store.Handler.{
  HandlerState, Return, Status, crashed, handle_command, is_saved, returned, save_2_db, set_entry,
}

Return-cases :
    {State : Type 0} (r : Return State)
    → (r ≡ crashed) ⊎ ((e : Bool) × (h : HandlerState State) × (r ≡ returned e h))
Return-cases crashed = inl refl
Return-cases (returned e h) = inr (e, h, refl)

abbrev pub HeadBelow : ℕ → List Status → Type 0
HeadBelow n [] = ⊥
HeadBelow n (e ∷ es) = e.ptr < n

module _ {Bytes : Type 0} (db : Database Bytes) (codec : Codec Bytes) (namespace : String)
    (check : Command → Bool) where
  -- The head of the slice is an entry that was made before.
  abbrev pub IsBlocked : HandlerState db.State → Type 0
  IsBlocked h = HeadBelow h.next h.cmd_slice

  -- A command that passes the check, is of a kind that is saved, and fails, on an idle handler,
  -- leaves the handler blocked: the head of the slice is an entry that was made before, which no
  -- later command owns.
  pub failed-IsBlocked :
      (cmd : Command) (h : HandlerState db.State) (a : Aggregate)
      → check cmd ≡ true
      → is_saved cmd ≡ true
      → h.cmd_slice ≡ []
      → handle cmd (load db codec namespace h.store (aggregate_id cmd)) ≡ failed a
      → (h' : HandlerState db.State) × (handle_command db codec namespace check cmd h
          ≡ returned true h')
        × IsBlocked h'
  unfolding handle_command set_entry
  failed-IsBlocked cmd h a ok saved idle f = (
    record {
      store = h.store;
      cmd_slice = record { ptr = h.next; agg = a; save2db = 2 } ∷ [];
      next = h.next + 1;
      bus = h.bus;
    },
    ground arith,
    ground arith,
  )

  -- Whatever commands follow one another, the ones that return.
  unfoldable pub run_commands : List Command → HandlerState db.State → Return db.State
  run_commands [] h = returned false h
  run_commands (c ∷ cs) h = elim (handle_command db codec namespace check c h) [
    | crashed ↦ crashed
    | returned e h' ↦ run_commands cs h'
  ]

  handle_command-IsBlocked :
      (cmd : Command) (h h' : HandlerState db.State) (e : Bool)
      → IsBlocked h
      → handle_command db codec namespace check cmd h ≡ returned e h'
      → (h'.store ≡ h.store) × IsBlocked h'
  unfolding handle_command save_2_db set_entry events_to_publish
  handle_command-IsBlocked cmd h h' e b r = ground arith

  -- Once blocked, a handler saves nothing more: after any commands that run one after the other
  -- the store is what it was, whether they succeed or fail.
  pub run_commands-store :
      (cs : List Command) (h h' : HandlerState db.State) (e : Bool)
      → IsBlocked h
      → run_commands cs h ≡ returned e h'
      → h'.store ≡ h.store
  unfolding run_commands
  run_commands-store [] h h' e b r = ground arith
  run_commands-store (c ∷ cs) h h' e b r =
      elim (Return-cases (handle_command db codec namespace check c h)) [
        | inl z ↦ cc (rw (z, run_commands) at r)
        | inr (e₁, h₁, z) ↦
            let (same, b₁) = handle_command-IsBlocked c h h₁ e₁ b z in
            run_commands-store cs h₁ h' e b₁ (rw (z, run_commands) at r) ∙ same
      ]
