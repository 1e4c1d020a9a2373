-- ===== src/Waiter/Balance.antt =====
-- The wait groups count the events in flight: every step keeps the balance, so that no counter goes
-- below zero and a group's counter is back at its start once its events have been dealt with.
use sailfish.Base.{
  Bool-cases, List, String, [], arith, inl, inr, refl, str_eq, ℕ, ◌+◌, ◌∙◌, ◌∷◌, ◌≡◌, ◌≤◌,
}
use sailfish.Waiter.{
  Counters, Event, Listener, Payload, array, close_inbox, done, offer, offer_items, offer_payload,
  process_all, process_event, remove_listener, single, take_event, take_front, wants,
}
use sailfish.Waiter.Counting.{
  count-add, count-done, negative-add, negative-done, queued, queued-append, queued_all,
}

module _ {D : Type 0} (g : ℕ) where
  offer-count :
      (e : Event D) (l : Listener D) (c : Counters)
      → (offer e l c).1.count g + queued g l.inbox ≡ c.count g + queued g (offer e l c).0.inbox
  unfolding offer
  offer-count e l c = ground (arith, count-add g e.sync c, queued-append g l.inbox (e ∷ []))

  offer_items-count :
      (e : Event D) (xs : List D) (l : Listener D) (c : Counters)
      → (offer_items e xs l c).1.count g + queued g l.inbox
        ≡ c.count g + queued g (offer_items e xs l c).0.inbox
  unfolding offer_items
  offer_items-count e [] l c = refl
  offer_items-count e (x ∷ xs) l c = omega (
    arith,
    offer-count (record e { payload = single x }) l c,
    offer_items-count e xs (offer (record e { payload = single x }) l c).0
        (offer (record e { payload = single x }) l c).1,
  )

  offer_payload-count :
      (e : Event D) (p : Payload D) (l : Listener D) (c : Counters)
      → (offer_payload e p l c).1.count g + queued g l.inbox
        ≡ c.count g + queued g (offer_payload e p l c).0.inbox
  offer_payload-count e (single x) l c = offer-count e l c
  offer_payload-count e (array xs) l c = offer_items-count e xs l c

  process_event-count :
      (e : Event D) (l : Listener D) (c : Counters)
      → (process_event e l c).1.count g + queued g l.inbox
        ≡ c.count g + queued g (process_event e l c).0.inbox
  unfolding process_event
  process_event-count e l c = elim (Bool-cases (wants l.single_event_type e.event_type)) [
    | inl y ↦ rw y (offer_payload-count e e.payload l c)
    | inr n ↦ rw n refl
  ]

  pub process_all-count :
      (e : Event D) (ls : List (Listener D)) (c : Counters)
      → (process_all e ls c).1.count g + queued_all g ls
        ≡ c.count g + queued_all g (process_all e ls c).0
  unfolding process_all
  process_all-count e [] c = refl
  process_all-count e (l ∷ ls) c =
      omega (arith, process_event-count e l c, process_all-count e ls (process_event e l c).1)

-- Offering an event takes no counter below zero.
module _ {D : Type 0} where
  offer-negative :
      (e : Event D) (l : Listener D) (c : Counters) → (offer e l c).1.negative ≡ c.negative
  unfolding offer
  offer-negative e l c = ground (arith, negative-add e.sync c)

  offer_items-negative :
      (e : Event D) (xs : List D) (l : Listener D) (c : Counters)
      → (offer_items e xs l c).1.negative ≡ c.negative
  unfolding offer_items
  offer_items-negative e [] l c = refl
  offer_items-negative e (x ∷ xs) l c =
      offer_items-negative e xs (offer (record e { payload = single x }) l c).0
        (offer (record e { payload = single x }) l c).1
      ∙ offer-negative (record e { payload = single x }) l c

  offer_payload-negative :
      (e : Event D) (p : Payload D) (l : Listener D) (c : Counters)
      → (offer_payload e p l c).1.negative ≡ c.negative
  offer_payload-negative e (single x) l c = offer-negative e l c
  offer_payload-negative e (array xs) l c = offer_items-negative e xs l c

  process_event-negative :
      (e : Event D) (l : Listener D) (c : Counters) → (process_event e l c).1.negative ≡ c.negative
  unfolding process_event
  process_event-negative e l c = elim (Bool-cases (wants l.single_event_type e.event_type)) [
    | inl y ↦ rw y (offer_payload-negative e e.payload l c)
    | inr n ↦ rw n refl
  ]

  pub process_all-negative :
      (e : Event D) (ls : List (Listener D)) (c : Counters)
      → (process_all e ls c).1.negative ≡ c.negative
  unfolding process_all
  process_all-negative e [] c = refl
  process_all-negative e (l ∷ ls) c =
      process_all-negative e ls (process_event e l c).1 ∙ process_event-negative e l c

  close_inbox-count :
      (g : ℕ) (es : List (Event D)) (c : Counters)
      → queued g es ≤ c.count g
      → (close_inbox es c).count g + queued g es ≡ c.count g
  unfolding close_inbox
  close_inbox-count g [] c h = omega arith
  close_inbox-count g (e ∷ es) c h = omega (
    arith,
    count-done g e.sync c (omega arith),
    close_inbox-count g es (done e.sync c) (omega (arith, count-done g e.sync c (omega arith))),
  )

  close_inbox-negative :
      (es : List (Event D)) (c : Counters)
      → ((g : ℕ) → queued g es ≤ c.count g)
      → (close_inbox es c).negative ≡ c.negative
  unfolding close_inbox
  close_inbox-negative [] c h = refl
  close_inbox-negative (e ∷ es) c h =
      close_inbox-negative es (done e.sync c)
        (λ g. omega (arith, h g, count-done g e.sync c (omega (arith, h g))))
      ∙ negative-done e.sync c (λ g. omega (arith, h g))

  pub remove_listener-count :
      (g : ℕ) (id : String) (ls : List (Listener D)) (c : Counters)
      → queued_all g ls ≤ c.count g
      → (remove_listener id ls c).1.count g + queued_all g ls
        ≡ c.count g + queued_all g (remove_listener id ls c).0
  unfolding remove_listener
  remove_listener-count g id [] c h = refl
  remove_listener-count g id (l ∷ ls) c h = elim (Bool-cases (str_eq l.id id)) [
    | inl y ↦ rw y (omega (arith, close_inbox-count g l.inbox c (omega arith)))
    | inr n ↦ rw n (omega (arith, remove_listener-count g id ls c (omega arith)))
  ]

  pub remove_listener-negative :
      (id : String) (ls : List (Listener D)) (c : Counters)
      → ((g : ℕ) → queued_all g ls ≤ c.count g)
      → (remove_listener id ls c).1.negative ≡ c.negative
  unfolding remove_listener
  remove_listener-negative id [] c h = refl
  remove_listener-negative id (l ∷ ls) c h = elim (Bool-cases (str_eq l.id id)) [
    | inl y ↦ rw y (close_inbox-negative l.inbox c (λ g. omega (arith, h g)))
    | inr n ↦ rw n (remove_listener-negative id ls c (λ g. omega (arith, h g)))
  ]

  take_front-count :
      (g : ℕ) (l : Listener D) (es : List (Event D)) (ls : List (Listener D)) (c : Counters)
      → l.inbox ≡ es
      → queued g es + queued_all g ls ≤ c.count g
      → (take_front l es ls c).1.count g + (queued g es + queued_all g ls)
        ≡ c.count g + queued_all g (take_front l es ls c).0
  unfolding take_front
  take_front-count g l [] ls c e h = rw e refl
  take_front-count g l (x ∷ xs) ls c e h = omega (arith, count-done g x.sync c (omega arith))

  take_front-negative :
      (l : Listener D) (es : List (Event D)) (ls : List (Listener D)) (c : Counters)
      → ((g : ℕ) → queued g es + queued_all g ls ≤ c.count g)
      → (take_front l es ls c).1.negative ≡ c.negative
  unfolding take_front
  take_front-negative l [] ls c h = refl
  take_front-negative l (x ∷ xs) ls c h = negative-done x.sync c (λ g. omega (arith, h g))

  pub take_event-count :
      (g : ℕ) (id : String) (ls : List (Listener D)) (c : Counters)
      → queued_all g ls ≤ c.count g
      → (take_event id ls c).1.count g + queued_all g ls
        ≡ c.count g + queued_all g (take_event id ls c).0
  unfolding take_event
  take_event-count g id [] c h = refl
  take_event-count g id (l ∷ ls) c h = elim (Bool-cases (str_eq l.id id)) [
    | inl y ↦ rw y (take_front-count g l l.inbox ls c refl h)
    | inr n ↦ rw n (omega (arith, take_event-count g id ls c (omega arith)))
  ]

  pub take_event-negative :
      (id : String) (ls : List (Listener D)) (c : Counters)
      → ((g : ℕ) → queued_all g ls ≤ c.count g)
      → (take_event id ls c).1.negative ≡ c.negative
  unfolding take_event
  take_event-negative id [] c h = refl
  take_event-negative id (l ∷ ls) c h = elim (Bool-cases (str_eq l.id id)) [
    | inl y ↦ rw y (take_front-negative l l.inbox ls c h)
    | inr n ↦ rw n (take_event-negative id ls c (λ g. omega (arith, h g)))
  ]
