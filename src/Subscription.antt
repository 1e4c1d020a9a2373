-- ===== src/Subscription.antt =====
-- src/ocp/eventservice/entrypoint.go and work.go: what a subscription does with each event, and the
-- queue of the jobs that post events to its destination.
pub mod Matching
pub mod Delivery
pub mod Life
pub mod Faults
pub mod Replay
use sailfish.Base.{
  Bool, List, Option, String, [], false, if◌then◌else◌, length, ltb, none, not, some, str_eq, true,
  ℕ, ◌++◌, ◌∷◌,
}
use sailfish.Property.{Fields, Value, text}
use sailfish.Property.Access.{get}
use sailfish.EventService.Publisher.{RedfishEvent}

-- SubscriptionCtx
pub record SubscriptionCtx : Type 0 where
  pub first_event : Bool
  pub destination : String
  pub protocol : String
  pub event_types : List String
  pub context : String

-- eventBinary
pub record EventBinary : Type 0 where
  pub id : String
  pub body : String

-- The events that the listener lets through; none is data of a type that is not expected.
pub data Incoming : Type 0 where
  removed : Incoming
  external_event : Option (List RedfishEvent) → Incoming
  external_metric : Option Fields → Incoming

-- What comes of an event: nothing, the cancellation, binaries for the queue, or a panic.
pub data Action : Type 0 where
  ignored cancelled crashed : Action
  posted : List EventBinary → Action

-- The id of a metric report.
unfoldable pub metric_id : Option Value → String
metric_id (some (text s)) = s
metric_id o = "unknown"

unfoldable pub default_types : List String → List String
default_types [] = "Alert" ∷ []
default_types (t ∷ ts) = t ∷ ts

-- json.Marshal of an event with the context and the identifier of the subscription, and of a metric
-- report; none is its error.
module _ (marshal : String → String → RedfishEvent → Option String)
    (marshal_metric : Fields → Option String) where
  unfoldable pub append_event : String → String → RedfishEvent → List EventBinary → List EventBinary
  append_event context uuid e eventlist = elim (marshal context uuid e) [
    | none ↦ eventlist
    | some body ↦ eventlist ++ (record { id = e.message_id; body = body } ∷ [])
  ]

  -- for _, subvalid := range subCtx.EventTypes
  unfoldable pub match_types :
      String → String → RedfishEvent → List String → List EventBinary → List EventBinary
  unfolding append_event
  match_types context uuid e [] eventlist = eventlist
  match_types context uuid e (t ∷ ts) eventlist =
      let matched = match_types context uuid e ts (append_event context uuid e eventlist) in
      let passed = match_types context uuid e ts eventlist in
      if str_eq e.event_type t then matched else passed

  -- for _, tmpEvent := range events
  unfoldable pub match_events :
      String → String → List RedfishEvent → List String → List EventBinary → List EventBinary
  unfolding match_types
  match_events context uuid [] types eventlist = eventlist
  match_events context uuid (e ∷ es) types eventlist =
      match_events context uuid es types (match_types context uuid e types eventlist)

  -- makeExternalRedfishEvent
  unfoldable pub make_external_redfish_event :
      SubscriptionCtx → List RedfishEvent → String → List EventBinary
  unfolding match_events default_types
  make_external_redfish_event sub events uuid =
      match_events sub.context uuid events (default_types sub.event_types) []

  -- An empty list of binaries is not posted.
  unfoldable pub post_list : List EventBinary → Action
  post_list [] = ignored
  post_list (b ∷ bs) = posted (b ∷ bs)

  -- The events that come first, if this is the first one: `faults` is makeMCHARSevents, where none
  -- is a panic.
  unfoldable pub with_faults :
      Bool → Option (List RedfishEvent) → List RedfishEvent → Option (List RedfishEvent)
  with_faults false faults events = some events
  with_faults true none events = none
  with_faults true (some replayed) events = some (replayed ++ events)

  -- evaluateEvent
  unfoldable pub evaluate_event :
      Option (List RedfishEvent) → String → SubscriptionCtx → Incoming → Action
  unfolding make_external_redfish_event post_list with_faults metric_id
  evaluate_event faults uuid sub event =
      if not (str_eq sub.protocol "Redfish")
      then ignored
      else if str_eq sub.destination ""
      then ignored
      else elim event [
        | removed ↦ cancelled
        | external_event none ↦ ignored
        | external_event (some events) ↦ elim (with_faults sub.first_event faults events) [
          | none ↦ crashed
          | some total ↦ post_list (make_external_redfish_event sub total uuid)
        ]
        | external_metric none ↦ ignored
        | external_metric (some report) ↦ elim (marshal_metric report) [
          | none ↦ ignored
          | some body ↦
              posted (record { id = metric_id (get "MetricName" report); body = body } ∷ [])
        ]
      ]

-- A job of the queue: the binaries and where they go.
pub record Job : Type 0 where
  pub destination : String
  pub eventlist : List EventBinary

-- The queue of CreateWorkers(100, 6).
abbrev pub queue_len : ℕ
queue_len = 100

-- postExternalEvent: the job is dropped if the queue is full.
unfoldable pub post_external_event : SubscriptionCtx → List EventBinary → List Job → List Job
post_external_event sub eventlist jc =
    if ltb (length jc) queue_len
    then jc ++ (record { destination = sub.destination; eventlist = eventlist } ∷ [])
    else jc
