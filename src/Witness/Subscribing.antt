-- ===== src/Witness/Subscribing.antt =====
-- Subscriptions and their events.
use sailfish.Base.{
  Bool, Option, String, [], false, if◌then◌else◌, leb, lookup, none, not, refl, some, str_eq, true,
  ℕ, ◌&&◌, ◌<>◌, ◌==◌, ◌||◌, ◌∷◌, ◌≡◌,
}
use sailfish.Property.{Fields, end}
use sailfish.Property.Access.{get}
use sailfish.Property.Parse.{dict_of}
use sailfish.Property.Flatten.{flatten}
use sailfish.Resource.{Aggregate, resource_created}
use sailfish.Resource.Commands.{Command, create_redfish_resource}
use sailfish.Store.Db.{plain_codec}
use sailfish.Store.Repo.{find_entity}
use sailfish.Store.Tree.{Domain, expand_uri, get_aggregate_id, notify}
use sailfish.Store.Handler.{HandlerState, handle_command, returned}
use sailfish.Store.Creation.{new_resource}
use sailfish.EventService.Publisher.{RedfishEvent}
use sailfish.Faults.{add_fault_entry, data_arg, in_array_index, text_arg}
use sailfish.Faults.Entries.{fault_resource}
use sailfish.Subscription.{
  SubscriptionCtx, default_types, external_event, external_metric, make_external_redfish_event,
  removed,
}
use sailfish.Subscription.Matching.{make_external_redfish_event-matching, matching}
use sailfish.Subscription.Delivery.{Posts, send_event, send_event-IsOutcome}
use sailfish.Subscription.Life.{
  Life, take_event, take_event-removed, take_events, take_events-unreplayed,
}
use sailfish.Subscription.Faults.{alert, fault_event, made}
use sailfish.Subscription.Replay.{replay-add_fault_entry}
use sailfish.Witness.Repository.{tables}
use sailfish.Witness.Faulty.{fan_fault, same_time}

abbrev plain_marshal : String → String → RedfishEvent → Option String
plain_marshal context uuid e = some (context <> e.message)

abbrev plain_metric : Fields → Option String
plain_metric fs = some "metric"

abbrev fan_alert : RedfishEvent
fan_alert = alert same_time fan_fault

abbrev twice_alerts : SubscriptionCtx
twice_alerts = record {
  first_event = true;
  destination = "https://host/";
  protocol = "Redfish";
  event_types = "Alert" ∷ "Alert" ∷ [];
  context = "ctx:";
}

make_external_redfish_event-matching_example :
    make_external_redfish_event plain_marshal plain_metric twice_alerts (fan_alert ∷ []) "u"
    ≡ matching plain_marshal plain_metric "ctx:" "u"
        (default_types ("Alert" ∷ "Alert" ∷ []))
        (fan_alert ∷ [])
make_external_redfish_event-matching_example =
    make_external_redfish_event-matching plain_marshal plain_metric twice_alerts (fan_alert ∷ [])
      "u"

-- The third attempt is accepted.
abbrev third_time : ℕ → Option ℕ
third_time n = if leb n 1 then (if n == 0 then none else some 500) else some 204

third_accepted :
    send_event third_time true ≡ some (record { attempts = 3; slept = 6; log_sent = true })
unfolding send_event
third_accepted = refl

send_event-IsOutcome_example : Posts third_time true (send_event third_time true)
send_event-IsOutcome_example = send_event-IsOutcome third_time true

abbrev life : String → Life
life protocol = record {
  sub_ctx = record twice_alerts { protocol = protocol };
  is_cancelled = false;
  jc = [];
}

-- The faults are a panic at all times, and one event at all times.
take_events-unreplayed_example :
    take_events plain_marshal plain_metric "u"
      (λ n. none)
      0
      (external_metric (some end) ∷ external_event (some (fan_alert ∷ [])) ∷ [])
      (life "Redfish")
    ≡ take_events plain_marshal plain_metric "u"
        (λ n. some (fan_alert ∷ []))
        0
        (external_metric (some end) ∷ external_event (some (fan_alert ∷ [])) ∷ [])
        (life "Redfish")
take_events-unreplayed_example =
    take_events-unreplayed plain_marshal plain_metric "u" (λ n. none) (λ n. some (fan_alert ∷ [])) 0
      (external_metric (some end)) (external_event (some (fan_alert ∷ [])) ∷ []) (life "Redfish")
      refl

take_event-removed_example :
    (l' : Life) × (take_event plain_marshal plain_metric "u" none removed (life "SNMP") ≡ some l')
    × (l'.jc ≡ [])
    × (l'.is_cancelled
        ≡ (false || (str_eq "SNMP" "Redfish" && not (str_eq twice_alerts.destination ""))))
take_event-removed_example = take_event-removed plain_marshal plain_metric "u" none (life "SNMP")

abbrev one_job : Life
one_job = record (life "Redfish") {
  sub_ctx = record twice_alerts { first_event = false };
  jc =
      record {
        destination = "https://host/";
        eventlist = record { id = "unknown"; body = "metric" } ∷ [];
      }
      ∷ [];
}

one_metric :
    take_events plain_marshal plain_metric "u"
      (λ n. none)
      0
      (external_metric (some end) ∷ [])
      (life "Redfish")
    ≡ some one_job
unfolding take_events get
one_metric = refl

abbrev all_pass : Command → Bool
all_pass c = true

abbrev at_rest : HandlerState tables.State
at_rest = record { store = λ n j. none; cmd_slice = []; next = 0; bus = [] }

abbrev empty_domain : Domain tables.State
empty_domain = record { tree = []; repo = λ n j. none; closed = [] }

no_tombstone : in_array_index "b" [] ≡ none
unfolding in_array_index
no_tombstone = refl

nothing_there : get_aggregate_id [] ("/f" <> ("/" <> "b")) ≡ none
unfolding get_aggregate_id lookup
nothing_there = refl

no_entity : find_entity tables plain_codec "default" (λ n j. none) "u1" ≡ none
unfolding find_entity
no_entity = refl

replay-add_fault_entry_example :
    let c = create_redfish_resource (fault_resource same_time "u1" "/f" fan_fault) in
    ((add_fault_entry same_time [] "u1" (text_arg "/f") (data_arg fan_fault) []).sent ≡ c ∷ [])
    × ((h' : HandlerState tables.State) × (handle_command tables plain_codec "default" all_pass c
            at_rest
          ≡ returned false h')
        × ((a : Aggregate) × (expand_uri tables plain_codec "default"
                (notify tables plain_codec "default"
                  (record empty_domain { repo = h'.store })
                  (resource_created "u1" ("/f" <> ("/" <> "b"))))
                ("/f" <> ("/" <> "b"))
              ≡ some a)
            × (fault_event (dict_of (flatten a.value)) ≡ made (alert same_time fan_fault))))
replay-add_fault_entry_example =
    replay-add_fault_entry tables plain_codec "default" all_pass same_time [] "u1" "/f" fan_fault []
      at_rest empty_domain (new_resource (fault_resource same_time "u1" "/f" fan_fault))
      no_tombstone nothing_there (λ e. cc e) (λ e. cc e) refl refl no_entity refl
