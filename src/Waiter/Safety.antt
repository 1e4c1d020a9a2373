-- ===== src/Waiter/Safety.antt =====
-- The steps of the waiter in any order, as its goroutines and clients take them.
use sailfish.Base.{Bool, List, Option, String, [], arith, false, ℕ, ◌+◌, ◌∙◌, ◌∷◌, ◌≡◌}
use sailfish.Waiter.{
  Event, Waiter, listen, notify, process_all, process_inbox, run_event, unregister, wait,
}
use sailfish.Waiter.Counting.{
  count-add, count-done, in_flight, negative-add, negative-done, queued, queued-append, queued_all,
  queued_all-append,
}
use sailfish.Waiter.Balance.{
  process_all-count, process_all-negative, remove_listener-count, remove_listener-negative,
  take_event-count, take_event-negative,
}

-- One step: of a client (Notify, Listen, Close, Wait) or of the loop in Run.
pub data Step (D : Type 0) : Type 0 where
  notified : Event D → Step D
  processed : Step D
  listened : String → (Event D → Bool) → Option String → Step D
  closed : String → Step D
  waited : String → Step D

module _ {D : Type 0} where
  unfoldable pub take_step : Step D → Waiter D → Waiter D
  unfolding notify run_event listen unregister wait
  take_step (notified e) w = notify e w
  take_step processed w = run_event w
  take_step (listened id matches t) w = listen id matches t w
  take_step (closed id) w = unregister id w
  take_step (waited id) w = wait id w

  unfoldable pub take_steps : List (Step D) → Waiter D → Waiter D
  unfolding take_step
  take_steps [] w = w
  take_steps (s ∷ ss) w = take_steps ss (take_step s w)

  -- Each count is its start and one for every event of the group in flight; none went below zero.
  abbrev pub IsBalanced : (ℕ → ℕ) → Waiter D → Type 0
  IsBalanced start w =
      ((g : ℕ) → w.counters.count g ≡ start g + in_flight g w) × (w.counters.negative ≡ false)

  notify-IsBalanced :
      (start : ℕ → ℕ) (e : Event D) (w : Waiter D)
      → IsBalanced start w
      → IsBalanced start (notify e w)
  unfolding notify
  notify-IsBalanced start e w (h, n) = (
    λ g. omega (arith, h g, count-add g e.sync w.counters, queued-append g w.inbox (e ∷ [])),
    negative-add e.sync w.counters ∙ n,
  )

  process_inbox-IsBalanced :
      (start : ℕ → ℕ) (w : Waiter D) (es : List (Event D))
      → IsBalanced start w
      → ((g : ℕ) → w.counters.count g ≡ start g + (queued g es + queued_all g w.listeners))
      → IsBalanced start (process_inbox es w)
  unfolding process_inbox
  process_inbox-IsBalanced start w [] b h = b
  process_inbox-IsBalanced start w (e ∷ es) (b, n) h = (
    λ g. omega (
      arith,
      h g,
      process_all-count g e w.listeners w.counters,
      count-done g e.sync (process_all e w.listeners w.counters).1
          (omega (arith, h g, process_all-count g e w.listeners w.counters)),
    ),
    negative-done e.sync (process_all e w.listeners w.counters).1
          (λ g. omega (arith, h g, process_all-count g e w.listeners w.counters))
        ∙ (process_all-negative e w.listeners w.counters ∙ n),
  )

  run_event-IsBalanced :
      (start : ℕ → ℕ) (w : Waiter D) → IsBalanced start w → IsBalanced start (run_event w)
  unfolding run_event
  run_event-IsBalanced start w (b, n) = process_inbox-IsBalanced start w w.inbox (b, n) b

  listen-IsBalanced :
      (start : ℕ → ℕ) (id : String) (matches : Event D → Bool) (t : Option String) (w : Waiter D)
      → IsBalanced start w
      → IsBalanced start (listen id matches t w)
  unfolding listen
  listen-IsBalanced start id matches t w (h, n) = (
    λ g. ground (
      arith,
      h g,
      queued_all-append g w.listeners
          (record { id = id; inbox = []; matches = matches; single_event_type = t } ∷ []),
    ),
    n,
  )

  unregister-IsBalanced :
      (start : ℕ → ℕ) (id : String) (w : Waiter D)
      → IsBalanced start w
      → IsBalanced start (unregister id w)
  unfolding unregister
  unregister-IsBalanced start id w (h, n) = (
    λ g. omega (arith, h g, remove_listener-count g id w.listeners w.counters (omega (arith, h g))),
    remove_listener-negative id w.listeners w.counters (λ g. omega (arith, h g)) ∙ n,
  )

  wait-IsBalanced :
      (start : ℕ → ℕ) (id : String) (w : Waiter D)
      → IsBalanced start w
      → IsBalanced start (wait id w)
  unfolding wait
  wait-IsBalanced start id w (h, n) = (
    λ g. omega (arith, h g, take_event-count g id w.listeners w.counters (omega (arith, h g))),
    take_event-negative id w.listeners w.counters (λ g. omega (arith, h g)) ∙ n,
  )

  take_step-IsBalanced :
      (start : ℕ → ℕ) (s : Step D) (w : Waiter D)
      → IsBalanced start w
      → IsBalanced start (take_step s w)
  unfolding take_step
  take_step-IsBalanced start (notified e) w b = notify-IsBalanced start e w b
  take_step-IsBalanced start processed w b = run_event-IsBalanced start w b
  take_step-IsBalanced start (listened id matches t) w b = listen-IsBalanced start id matches t w b
  take_step-IsBalanced start (closed id) w b = unregister-IsBalanced start id w b
  take_step-IsBalanced start (waited id) w b = wait-IsBalanced start id w b

  -- From a balanced waiter, whatever steps are taken in whatever order: no wait group goes below
  -- zero, and the count of a group is its start and one for each of its events still in flight.
  pub take_steps-IsBalanced :
      (start : ℕ → ℕ) (ss : List (Step D)) (w : Waiter D)
      → IsBalanced start w
      → IsBalanced start (take_steps ss w)
  unfolding take_steps
  take_steps-IsBalanced start [] w b = b
  take_steps-IsBalanced start (s ∷ ss) w b =
      take_steps-IsBalanced start ss (take_step s w) (take_step-IsBalanced start s w b)

  -- A fresh waiter has no events and no listeners.
  abbrev pub fresh : (ℕ → ℕ) → Waiter D
  fresh start = record {
    inbox = [];
    listeners = [];
    counters = record { count = start; negative = false };
  }
