-- ===== src/EventService/Repeats.antt =====
-- A batch reports no resource as updated twice, and its size keeps to the limit.
use sailfish.Base.{
  Bool, List, Option, String, [], arith, false, if-cases, length, ltb_ℤ, pos, true, ◌++◌, ◌+◌, ◌||◌,
  ◌∷◌, ◌≡◌,
}
use sailfish.EventService.Publisher.{
  Published, Publisher, RedfishEvent, Setting, Step, announce, appeared, elapse, elapsed,
  external_redfish_event, is_duplicate, max_events, queue_or_send, receive, received, redfish_event,
  disappeared, same_update, send_events, stop_timer, take_step, time_up, timed_out, tree_event,
}

-- No later event is the same update as `f`.
abbrev pub IsUnrepeated : RedfishEvent → List RedfishEvent → Type 0
IsUnrepeated f [] = Unit
IsUnrepeated f (e ∷ q) = (same_update e f ≡ false) × IsUnrepeated f q

abbrev pub HasNoRepeat : List RedfishEvent → Type 0
HasNoRepeat [] = Unit
HasNoRepeat (f ∷ q) = IsUnrepeated f q × HasNoRepeat q

abbrev pub AreBatches : List Published → Type 0
AreBatches [] = Unit
AreBatches (redfish_event e ∷ ps) = AreBatches ps
AreBatches (external_redfish_event n q ∷ ps) = HasNoRepeat q × AreBatches ps

abbrev pub IsClean : Publisher → Type 0
IsClean s = HasNoRepeat s.event_q × AreBatches s.bus

append-IsUnrepeated :
    (f e : RedfishEvent) (q : List RedfishEvent)
    → same_update e f ≡ false
    → IsUnrepeated f q
    → IsUnrepeated f (q ++ (e ∷ []))
append-IsUnrepeated f e [] h u = (h, tt)
append-IsUnrepeated f e (x ∷ q) h (d, u) = (d, append-IsUnrepeated f e q h u)

or-false : (a b : Bool) → a || b ≡ false → (a ≡ false) × (b ≡ false)
or-false a b h = ground (arith, h)

append-HasNoRepeat :
    (e : RedfishEvent) (q : List RedfishEvent)
    → is_duplicate e q ≡ false
    → HasNoRepeat q
    → HasNoRepeat (q ++ (e ∷ []))
unfolding is_duplicate
append-HasNoRepeat e [] d h = (tt, tt)
append-HasNoRepeat e (f ∷ q) d (u, h) =
    let (here, later) = or-false (same_update e f) (is_duplicate e q) d in
    (append-IsUnrepeated f e q here u, append-HasNoRepeat e q later h)

append-AreBatches :
    (ps : List Published) (p : Published)
    → AreBatches ps
    → AreBatches (p ∷ [])
    → AreBatches (ps ++ (p ∷ []))
append-AreBatches [] p h g = g
append-AreBatches (redfish_event e ∷ ps) p h g = append-AreBatches ps p h g
append-AreBatches (external_redfish_event n q ∷ ps) p (r, h) g = (r, append-AreBatches ps p h g)

receive-IsClean :
    (e : RedfishEvent) (setting : Option Setting) (s : Publisher)
    → IsClean s
    → IsClean (receive e setting s)
unfolding receive
receive-IsClean e setting s (r, b) =
    let queued = s.event_q ++ (e ∷ []) in
    let next = record s { event_q = queued; max_e = max_events setting s.max_e } in
    if-cases IsClean (is_duplicate e s.event_q) s (queue_or_send next) (λ y. (r, b))
      (λ n.
        if-cases IsClean (ltb_ℤ next.max_e (pos (length queued)))
          (record (stop_timer (send_events queued next)) { id = s.id + 1; event_q = [] })
          (record next { timer = record s.timer { running = true } })
          (λ y. (
            tt,
            append-AreBatches s.bus (external_redfish_event s.id queued) b
                (append-HasNoRepeat e s.event_q n r, tt),
          ))
          (λ m. (append-HasNoRepeat e s.event_q n r, b)))

time_up-IsClean : (s : Publisher) → IsClean s → IsClean (time_up s)
unfolding time_up
time_up-IsClean s (r, b) =
    if-cases IsClean s.timer.ready
      (record (send_events s.event_q s) {
        event_q = [];
        id = s.id + 1;
        timer = record s.timer { ready = false };
      })
      s (λ y. (tt, append-AreBatches s.bus (external_redfish_event s.id s.event_q) b (r, tt)))
      (λ n. (r, b))

announce-IsClean : (type uri : String) (s : Publisher) → IsClean s → IsClean (announce type uri s)
unfolding announce
announce-IsClean type uri s (r, b) =
    (r, append-AreBatches s.bus (redfish_event (tree_event type uri)) b tt)

elapse-IsClean : (s : Publisher) → IsClean s → IsClean (elapse s)
unfolding elapse
elapse-IsClean s i =
    if-cases IsClean s.timer.running (record s { timer = record { running = false; ready = true } })
      s (λ y. i) (λ n. i)

-- Neither the queue nor any published batch has two updates of the same resource, and every step
-- keeps it so.
pub take_step-IsClean : (t : Step) (s : Publisher) → IsClean s → IsClean (take_step t s)
unfolding take_step
take_step-IsClean (received e setting) s i =
    if-cases IsClean s.stuck s (receive e setting s) (λ y. i) (λ n. receive-IsClean e setting s i)
take_step-IsClean (appeared uri) s i =
    if-cases IsClean s.stuck s (announce "ResourceAdded" uri s) (λ y. i)
      (λ n. announce-IsClean "ResourceAdded" uri s i)
take_step-IsClean (disappeared uri) s i =
    if-cases IsClean s.stuck s (announce "ResourceRemoved" uri s) (λ y. i)
      (λ n. announce-IsClean "ResourceRemoved" uri s i)
take_step-IsClean timed_out s i =
    if-cases IsClean s.stuck s (time_up s) (λ y. i) (λ n. time_up-IsClean s i)
take_step-IsClean elapsed s i = elapse-IsClean s i
