-- ===== src/Witness/Publishing.antt =====
-- The publisher with its limit at one event.
use sailfish.Base.{String, [], arith, inl, pos, refl, some, true, ◌++◌, ◌∷◌, ◌≡◌}
use sailfish.EventService.Publisher.{
  RedfishEvent, Step, external_redfish_event, int, receive, received, started, take_step,
  tree_event,
}
use sailfish.EventService.Timer.{IsTimed, receive-stuck, take_step-IsTimed}
use sailfish.EventService.History.{accepted, history, history-take_step}
use sailfish.EventService.Repeats.{IsClean, take_step-IsClean}

abbrev update : String → RedfishEvent
update uri = record (tree_event "ResourceUpdated" uri) { message_id = "TST101" }

abbrev limit_one : Step
limit_one = received (update "/a") (some (int (pos 1)))

take_step-IsTimed_example : IsTimed (take_step limit_one started)
take_step-IsTimed_example =
    take_step-IsTimed limit_one started (omega arith) (refl, omega arith, inl refl)

receive-stuck_example :
    ((receive (update "/a") (some (int (pos 0))) started).stuck ≡ true)
    × ((receive (update "/a") (some (int (pos 0))) started).bus
        ≡ [] ++ (external_redfish_event 0 (update "/a" ∷ []) ∷ []))
receive-stuck_example = receive-stuck (update "/a") (pos 0) started (omega arith) refl refl refl

history-take_step_example :
    history (take_step limit_one started) ≡ history started ++ accepted limit_one started
history-take_step_example = history-take_step limit_one started

take_step-IsClean_example : IsClean (take_step limit_one (take_step limit_one started))
take_step-IsClean_example =
    take_step-IsClean limit_one (take_step limit_one started)
      (take_step-IsClean limit_one started (tt, tt))
