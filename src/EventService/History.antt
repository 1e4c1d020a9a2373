-- ===== src/EventService/History.antt =====
-- What the publisher sends, over all its steps.
use mathlib.Core.List.{append_assoc, append-nil}
use sailfish.Base.{
  Bool, Bool-cases, List, Option, String, [], ap, false, if-cases, if◌then◌else◌, inl, inr, length,
  ltb_ℤ, pos, refl, sym, true, ℕ, ◌++◌, ◌+◌, ◌∙◌, ◌∷◌, ◌≡◌,
}
use sailfish.EventService.Publisher.{
  Published, Publisher, RedfishEvent, Setting, Step, announce, appeared, elapse, elapsed,
  external_redfish_event, is_duplicate, max_events, queue_or_send, receive, received, redfish_event,
  disappeared, send_events, take_step, time_up, timed_out, tree_event,
}

-- The collected events that have been published, in order.
abbrev pub sent_events : List Published → List RedfishEvent
sent_events [] = []
sent_events (redfish_event e ∷ ps) = sent_events ps
sent_events (external_redfish_event n q ∷ ps) = q ++ sent_events ps

-- The published events and then those that wait.
abbrev pub history : Publisher → List RedfishEvent
history s = sent_events s.bus ++ s.event_q

-- The event that a step adds: one that comes and is no duplicate of a waiting one.
abbrev pub accepted : Step → Publisher → List RedfishEvent
accepted (received e setting) s =
    if s.stuck then [] else if is_duplicate e s.event_q then [] else e ∷ []
accepted _ s = []

sent_events-append :
    (ps qs : List Published) → sent_events (ps ++ qs) ≡ sent_events ps ++ sent_events qs
sent_events-append [] qs = refl
sent_events-append (redfish_event e ∷ ps) qs = sent_events-append ps qs
sent_events-append (external_redfish_event n q ∷ ps) qs =
    ap (λ r. q ++ r) (sent_events-append ps qs)
    ∙ sym (append_assoc q (sent_events ps) (sent_events qs))

history-send :
    (bus : List Published) (n : ℕ) (q : List RedfishEvent)
    → sent_events (bus ++ (external_redfish_event n q ∷ [])) ++ [] ≡ sent_events bus ++ q
history-send bus n q =
    append-nil (sent_events (bus ++ (external_redfish_event n q ∷ [])))
    ∙ (sent_events-append bus (external_redfish_event n q ∷ [])
        ∙ ap (λ r. sent_events bus ++ r) (append-nil q))

history-queue_or_send : (s : Publisher) → history (queue_or_send s) ≡ history s
unfolding queue_or_send
history-queue_or_send s = elim (Bool-cases (ltb_ℤ s.max_e (pos (length s.event_q)))) [
  | inl y ↦ rw y (history-send s.bus s.id s.event_q)
  | inr n ↦ rw n refl
]

history-announce :
    (type uri : String) (s : Publisher) → history (announce type uri s) ≡ history s ++ []
unfolding announce
history-announce type uri s =
    ap (λ r. r ++ s.event_q)
      (sent_events-append s.bus (redfish_event (tree_event type uri) ∷ [])
        ∙ append-nil (sent_events s.bus))
    ∙ sym (append-nil (history s))

history-time_up : (s : Publisher) → history (time_up s) ≡ history s ++ []
unfolding time_up
history-time_up s =
    if-cases (λ z. history z ≡ history s ++ []) s.timer.ready
      (record (send_events s.event_q s) {
        event_q = [];
        id = s.id + 1;
        timer = record s.timer { ready = false };
      })
      s (λ y. history-send s.bus s.id s.event_q ∙ sym (append-nil (history s)))
      (λ n. sym (append-nil (history s)))

history-elapse : (s : Publisher) → history (elapse s) ≡ history s ++ []
unfolding elapse
history-elapse s =
    if-cases (λ z. history z ≡ history s ++ []) s.timer.running
      (record s { timer = record { running = false; ready = true } }) s
      (λ y. sym (append-nil (history s))) (λ n. sym (append-nil (history s)))

history-receive :
    (e : RedfishEvent) (setting : Option Setting) (s : Publisher)
    → history (receive e setting s) ≡ history s ++ (if is_duplicate e s.event_q then [] else e ∷ [])
unfolding receive
history-receive e setting s = elim (Bool-cases (is_duplicate e s.event_q)) [
  | inl y ↦ rw y (sym (append-nil (history s)))
  | inr n ↦ rw n (
      history-queue_or_send
        (record s { event_q = s.event_q ++ (e ∷ []); max_e = max_events setting s.max_e })
      ∙ sym (append_assoc (sent_events s.bus) s.event_q (e ∷ [])))
]

-- A goroutine that is stuck does nothing.
history-unless :
    (b : Bool) (s z : Publisher) (xs : List RedfishEvent)
    → history z ≡ history s ++ xs
    → history (if b then s else z) ≡ history s ++ (if b then [] else xs)
history-unless true s z xs h = sym (append-nil (history s))
history-unless false s z xs h = h

history-unless_nil :
    (b : Bool) (s z : Publisher)
    → history z ≡ history s ++ []
    → history (if b then s else z) ≡ history s ++ []
history-unless_nil true s z h = sym (append-nil (history s))
history-unless_nil false s z h = h

-- Events leave in the order in which they came, none is lost and none is sent twice: a step adds to
-- the published and waiting events exactly the event that it accepts, at their end.
pub history-take_step :
    (t : Step) (s : Publisher) → history (take_step t s) ≡ history s ++ accepted t s
unfolding take_step
history-take_step (received e setting) s =
    history-unless s.stuck s (receive e setting s) (if is_duplicate e s.event_q then [] else e ∷ [])
      (history-receive e setting s)
history-take_step (appeared uri) s =
    history-unless_nil s.stuck s (announce "ResourceAdded" uri s)
      (history-announce "ResourceAdded" uri s)
history-take_step (disappeared uri) s =
    history-unless_nil s.stuck s (announce "ResourceRemoved" uri s)
      (history-announce "ResourceRemoved" uri s)
history-take_step timed_out s = history-unless_nil s.stuck s (time_up s) (history-time_up s)
history-take_step elapsed s = history-elapse s
