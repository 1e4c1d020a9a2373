-- ===== src/EventService/Timer.antt =====
-- When the publisher gets stuck, and when not.
use sailfish.Base.{
  Bool, Bool-cases, List, Option, [], arith, false, if-cases, inl, inr, length, none, pos, some,
  true, ℤ, ◌++◌, ◌||◌, ◌∷◌, ◌≡◌, ◌≤ℤ◌, ◌≤◌, ◌⊎◌,
}
use sailfish.EventService.Publisher.{
  Publisher, RedfishEvent, Setting, Step, appeared, elapsed, external_redfish_event, int,
  is_duplicate, max_events, not_int, queue_or_send, receive, received, disappeared, take_step,
  timed_out,
}

-- A queue that is not empty has a timer that runs or has fired.
abbrev pub IsTimed : Publisher → Type 0
IsTimed s =
    (s.stuck ≡ false)
    × (pos 1 ≤ℤ s.max_e)
    × ((s.event_q ≡ []) ⊎ (s.timer.running || s.timer.ready ≡ true))

-- The step sets no limit below one.
abbrev pub HasLimit : Step → Type 0
HasLimit (received e (some (int n))) = pos 1 ≤ℤ n
HasLimit _ = Unit

queue_or_send-IsTimed :
    (s : Publisher)
    → s.stuck ≡ false
    → pos 1 ≤ℤ s.max_e
    → (length s.event_q ≤ 1) ⊎ (s.timer.running || s.timer.ready ≡ true)
    → IsTimed (queue_or_send s)
unfolding queue_or_send
queue_or_send-IsTimed s h m (inl few) = ground (arith, h, m, few)
queue_or_send-IsTimed s h m (inr t) = ground (arith, h, m, t)

max_events-positive :
    (e : RedfishEvent) (setting : Option Setting) (old : ℤ)
    → HasLimit (received e setting)
    → pos 1 ≤ℤ old
    → pos 1 ≤ℤ max_events setting old
unfolding max_events
max_events-positive e none old h o = o
max_events-positive e (some (int n)) old h o = h
max_events-positive e (some not_int) old h o = omega arith

few_or_timed :
    (e : RedfishEvent) (q : List RedfishEvent) (b : Bool)
    → (q ≡ []) ⊎ (b ≡ true)
    → (length (q ++ (e ∷ [])) ≤ 1) ⊎ (b ≡ true)
few_or_timed e q b (inl z) = inl (rw z (omega arith))
few_or_timed e q b (inr t) = inr t

receive-IsTimed :
    (e : RedfishEvent) (setting : Option Setting) (s : Publisher)
    → HasLimit (received e setting)
    → IsTimed s
    → IsTimed (receive e setting s)
unfolding receive
receive-IsTimed e setting s h (u, m, t) = elim (Bool-cases (is_duplicate e s.event_q)) [
  | inl y ↦ rw y (u, m, t)
  | inr n ↦ rw n (
      queue_or_send-IsTimed
        (record s { event_q = s.event_q ++ (e ∷ []); max_e = max_events setting s.max_e }) u
        (max_events-positive e setting s.max_e h m)
        (few_or_timed e s.event_q (s.timer.running || s.timer.ready) t))
]

-- While no limit below one is set, a step leaves the goroutine unstuck, and every queue that is not
-- empty with a timer that runs or has fired.
pub take_step-IsTimed :
    (t : Step) (s : Publisher) → HasLimit t → IsTimed s → IsTimed (take_step t s)
unfolding take_step
take_step-IsTimed (received e setting) s h i =
    if-cases IsTimed s.stuck s (receive e setting s) (λ y. i) (λ n. receive-IsTimed e setting s h i)
take_step-IsTimed (appeared uri) s h i = ground arith
take_step-IsTimed (disappeared uri) s h i = ground arith
take_step-IsTimed timed_out s h i = ground arith
take_step-IsTimed elapsed s h i = ground arith

-- An event that comes with a limit of zero or less, when nothing is queued and no timer runs or has
-- fired, is sent, and then the goroutine waits for a timer that will not fire.
pub receive-stuck :
    (e : RedfishEvent) (n : ℤ) (s : Publisher)
    → n ≤ℤ pos 0
    → s.event_q ≡ []
    → s.timer.running ≡ false
    → s.timer.ready ≡ false
    → ((receive e (some (int n)) s).stuck ≡ true)
      × ((receive e (some (int n)) s).bus ≡ s.bus ++ (external_redfish_event s.id (e ∷ []) ∷ []))
unfolding receive
receive-stuck e n s h q r z = ground (arith, h, q, r, z)
