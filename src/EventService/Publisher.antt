-- ===== src/EventService/Publisher.antt =====
-- The goroutine of PublishRedfishEvents. The duration of its timer is left out: the timer may fire
-- at any time after it has been set.
use sailfish.Base.{
  Bool, List, Option, String, [], false, if◌then◌else◌, length, ltb_ℤ, none, not, pos, some, str_eq,
  true, ℕ, ℤ, ◌&&◌, ◌++◌, ◌+◌, ◌||◌, ◌∷◌,
}
use sailfish.Property.{Fields, end}

-- RedfishEventData
pub record RedfishEvent : Type 0 where
  pub event_type : String
  pub event_id : String
  pub event_timestamp : String
  pub severity : String
  pub message : String
  pub message_id : String
  pub message_args : List String
  pub origin_of_condition : String
  pub oem : Fields

-- What goes to the bus.
pub data Published : Type 0 where
  redfish_event : RedfishEvent → Published
  external_redfish_event : ℕ → List RedfishEvent → Published

-- A timer of Go: whether it is running, and whether its channel holds a value.
pub record Timer : Type 0 where
  pub running : Bool
  pub ready : Bool

-- The variables of the goroutine and what it has published. `stuck` is set when it waits for a
-- timer's value that will not come.
pub record Publisher : Type 0 where
  pub event_q : List RedfishEvent
  pub timer : Timer
  pub id : ℕ
  pub max_e : ℤ
  pub bus : List Published
  pub stuck : Bool

-- The property "max_events_to_queue": an int, or something else.
pub data Setting : Type 0 where
  int : ℤ → Setting
  not_int : Setting

unfoldable pub max_events : Option Setting → ℤ → ℤ
max_events none old = old
max_events (some (int n)) old = n
max_events (some not_int) old = pos 50

-- An update of the same resource is queued already.
abbrev pub same_update : RedfishEvent → RedfishEvent → Bool
same_update e f =
    str_eq e.event_type "ResourceUpdated"
    && (str_eq f.event_type e.event_type && str_eq f.origin_of_condition e.origin_of_condition)

unfoldable pub is_duplicate : RedfishEvent → List RedfishEvent → Bool
is_duplicate e [] = false
is_duplicate e (f ∷ q) = same_update e f || is_duplicate e q

unfoldable pub send_events : List RedfishEvent → Publisher → Publisher
send_events q s = record s { bus = s.bus ++ (external_redfish_event s.id q ∷ []) }

-- if !timer.Stop() { <-timer.C }
unfoldable pub stop_timer : Publisher → Publisher
stop_timer s = record s {
  timer = record { running = false; ready = s.timer.ready && s.timer.running };
  stuck = not (s.timer.running || s.timer.ready);
}

-- The end of the case of a RedfishEventData, with the event in the queue and the limit read.
unfoldable pub queue_or_send : Publisher → Publisher
unfolding send_events stop_timer
queue_or_send s =
    if ltb_ℤ s.max_e (pos (length s.event_q))
    then record (stop_timer (send_events s.event_q s)) { id = s.id + 1; event_q = [] }
    else record s { timer = record s.timer { running = true } }

unfoldable pub receive : RedfishEvent → Option Setting → Publisher → Publisher
unfolding is_duplicate queue_or_send max_events
receive e setting s =
    if is_duplicate e s.event_q
    then s
    else queue_or_send
        (record s { event_q = s.event_q ++ (e ∷ []); max_e = max_events setting s.max_e })

-- The event for a resource that came or went.
abbrev pub tree_event : String → String → RedfishEvent
tree_event type uri = record {
  event_type = type;
  event_id = "";
  event_timestamp = "";
  severity = "";
  message = "";
  message_id = "TST100";
  message_args = [];
  origin_of_condition = uri;
  oem = end;
}

unfoldable pub announce : String → String → Publisher → Publisher
announce type uri s = record s { bus = s.bus ++ (redfish_event (tree_event type uri) ∷ []) }

-- The case of the timer, if its channel has a value.
unfoldable pub time_up : Publisher → Publisher
unfolding send_events
time_up s =
    if s.timer.ready
    then record (send_events s.event_q s) {
      event_q = [];
      id = s.id + 1;
      timer = record s.timer { ready = false };
    }
    else s

-- A running timer fires.
unfoldable pub elapse : Publisher → Publisher
elapse s =
    if s.timer.running then record s { timer = record { running = false; ready = true } } else s

-- What the goroutine may find in its select, and the passing of time.
pub data Step : Type 0 where
  received : RedfishEvent → Option Setting → Step
  appeared : String → Step
  disappeared : String → Step
  timed_out : Step
  elapsed : Step

unfoldable pub take_step : Step → Publisher → Publisher
unfolding receive announce time_up elapse
take_step (received e setting) s = if s.stuck then s else receive e setting s
take_step (appeared uri) s = if s.stuck then s else announce "ResourceAdded" uri s
take_step (disappeared uri) s = if s.stuck then s else announce "ResourceRemoved" uri s
take_step timed_out s = if s.stuck then s else time_up s
take_step elapsed s = elapse s

-- The goroutine at its start.
abbrev pub started : Publisher
started = record {
  event_q = [];
  timer = record { running = false; ready = false };
  id = 0;
  max_e = pos 50;
  bus = [];
  stuck = false;
}
