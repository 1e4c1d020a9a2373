-- ===== src/Subscription/Life.antt =====
-- The goroutine of CreateSubscription in src/ocp/eventservice/entrypoint.go, from event to event.
use sailfish.Base.{
  Bool, List, Option, Option-cases, String, [], ap, arith, false, inl, inr, length, length-append,
  none, not, refl, some, str_eq, suc, true, ℕ, ◌&&◌, ◌||◌, ◌∷◌, ◌≡◌, ◌≤◌,
}
use sailfish.Property.{Fields}
use sailfish.EventService.Publisher.{RedfishEvent}
use sailfish.Subscription.{
  Action, Incoming, Job, SubscriptionCtx, cancelled, crashed, evaluate_event, external_event,
  external_metric, ignored, post_external_event, posted, queue_len, removed, with_faults,
}

-- The variables of the goroutine, whether its context is cancelled, and the queue of jobs, from
-- which workers may take jobs between two events.
pub record Life : Type 0 where
  pub sub_ctx : SubscriptionCtx
  pub is_cancelled : Bool
  pub jc : List Job

-- subCtx.firstEvent = false
abbrev pub seen : Life → Life
seen l = record l { sub_ctx = record l.sub_ctx { first_event = false } }

module _ (marshal : String → String → RedfishEvent → Option String)
    (marshal_metric : Fields → Option String) (uuid : String) where
  -- What an action does to the goroutine; none is a panic.
  unfoldable pub after_action : Action → Life → Option Life
  unfolding post_external_event
  after_action ignored l = some (seen l)
  after_action cancelled l = some (record (seen l) { is_cancelled = true })
  after_action crashed l = none
  after_action (posted bs) l = some (record (seen l) { jc = post_external_event l.sub_ctx bs l.jc })

  -- One event of the inbox.
  unfoldable pub take_event : Option (List RedfishEvent) → Incoming → Life → Option Life
  unfolding after_action evaluate_event
  take_event faults event l =
      after_action (evaluate_event marshal marshal_metric faults uuid l.sub_ctx event) l

  -- Events one after another; `faults n` is the list of faults when event n is there.
  unfoldable pub take_events :
      (ℕ → Option (List RedfishEvent)) → ℕ → List Incoming → Life → Option Life
  unfolding take_event
  take_events faults n [] l = some l
  take_events faults n (e ∷ es) l = elim (take_event (faults n) e l) [
    | none ↦ none
    | some l' ↦ take_events faults (suc n) es l'
  ]

  -- Whether the faults are looked at.
  abbrev pub replays : Bool → Incoming → Bool
  replays first (external_event (some events)) = first
  replays first (external_event none) = false
  replays first removed = false
  replays first (external_metric r) = false

  evaluate_event-unreplayed :
      (faults faults' : Option (List RedfishEvent)) (sub : SubscriptionCtx) (e : Incoming)
      → replays sub.first_event e ≡ false
      → evaluate_event marshal marshal_metric faults uuid sub e
        ≡ evaluate_event marshal marshal_metric faults' uuid sub e
  unfolding evaluate_event with_faults
  evaluate_event-unreplayed faults faults' sub removed h = refl
  evaluate_event-unreplayed faults faults' sub (external_event none) h = refl
  evaluate_event-unreplayed faults faults' sub (external_event (some es)) h =
      rw (h, evaluate_event, with_faults) refl
  evaluate_event-unreplayed faults faults' sub (external_metric r) h = refl

  after_action-seen :
      (a : Action) (l l' : Life) → after_action a l ≡ some l' → l'.sub_ctx.first_event ≡ false
  unfolding after_action
  after_action-seen ignored l l' h = ground (arith, h)
  after_action-seen cancelled l l' h = ground (arith, h)
  after_action-seen crashed l l' h = cc h
  after_action-seen (posted bs) l l' h = ground (arith, h)

  replays-seen : (e : Incoming) → replays false e ≡ false
  replays-seen removed = refl
  replays-seen (external_event none) = refl
  replays-seen (external_event (some es)) = refl
  replays-seen (external_metric r) = refl

  take_event-unreplayed :
      (faults faults' : Option (List RedfishEvent)) (e : Incoming) (l : Life)
      → replays l.sub_ctx.first_event e ≡ false
      → take_event faults e l ≡ take_event faults' e l
  unfolding take_event
  take_event-unreplayed faults faults' e l h =
      ap (λ a. after_action a l) (evaluate_event-unreplayed faults faults' l.sub_ctx e h)

  take_event-seen :
      (faults : Option (List RedfishEvent)) (e : Incoming) (l l' : Life)
      → take_event faults e l ≡ some l'
      → l'.sub_ctx.first_event ≡ false
  unfolding take_event
  take_event-seen faults e l l' h =
      after_action-seen (evaluate_event marshal marshal_metric faults uuid l.sub_ctx e) l l' h

  take_events-later :
      (faults faults' : ℕ → Option (List RedfishEvent)) (n : ℕ) (es : List Incoming) (l : Life)
      → l.sub_ctx.first_event ≡ false
      → take_events faults n es l ≡ take_events faults' n es l
  unfolding take_events
  take_events-later faults faults' n [] l h = refl
  take_events-later faults faults' n (e ∷ es) l h =
      let same : take_event (faults n) e l ≡ take_event (faults' n) e l =
        take_event-unreplayed (faults n) (faults' n) e l (rw h (replays-seen e)) in
      elim (Option-cases (take_event (faults' n) e l)) [
        | inl r ↦ rw (same, r, take_events) refl
        | inr (l', r) ↦
            rw (same, r, take_events)
              (take_events-later faults faults' (suc n) es l'
                (take_event-seen (faults' n) e l l' r))
      ]

  -- If the first event is a metric report, a removal or data of a wrong type, or is not the first,
  -- then the list of faults at no time changes what the goroutine does: they are not replayed, now
  -- or later.
  pub take_events-unreplayed :
      (faults faults' : ℕ → Option (List RedfishEvent)) (n : ℕ) (e : Incoming) (es : List Incoming)
      (l : Life)
      → replays l.sub_ctx.first_event e ≡ false
      → take_events faults n (e ∷ es) l ≡ take_events faults' n (e ∷ es) l
  unfolding take_events
  take_events-unreplayed faults faults' n e es l h =
      let same : take_event (faults n) e l ≡ take_event (faults' n) e l =
        take_event-unreplayed (faults n) (faults' n) e l h in
      elim (Option-cases (take_event (faults' n) e l)) [
        | inl r ↦ rw (same, r, take_events) refl
        | inr (l', r) ↦
            rw (same, r, take_events)
              (take_events-later faults faults' (suc n) es l'
                (take_event-seen (faults' n) e l l' r))
      ]

  -- The removal of the subscription's resource cancels the goroutine exactly if the protocol is
  -- "Redfish" and there is a destination: any other subscription lives on. The queue is not touched.
  pub take_event-removed :
      (faults : Option (List RedfishEvent)) (l : Life)
      → (l' : Life) × (take_event faults removed l ≡ some l')
        × (l'.jc ≡ l.jc)
        × (l'.is_cancelled ≡ (
            l.is_cancelled
            || (str_eq l.sub_ctx.protocol "Redfish" && not (str_eq l.sub_ctx.destination ""))))
  unfolding take_event evaluate_event after_action
  take_event-removed faults l =
      let lives : Bool =
        str_eq l.sub_ctx.protocol "Redfish" && not (str_eq l.sub_ctx.destination "") in
      (record (seen l) { is_cancelled = l.is_cancelled || lives }, ground arith, refl, refl)

  after_action-bound :
      (a : Action) (l l' : Life)
      → length l.jc ≤ queue_len
      → after_action a l ≡ some l'
      → length l'.jc ≤ queue_len
  unfolding after_action post_external_event
  after_action-bound ignored l l' h r = ground (arith, h, r)
  after_action-bound cancelled l l' h r = ground (arith, h, r)
  after_action-bound crashed l l' h r = cc r
  after_action-bound (posted bs) l l' h r = ground (
    arith,
    h,
    r,
    length-append l.jc (record { destination = l.sub_ctx.destination; eventlist = bs } ∷ []),
  )

  take_event-bound :
      (faults : Option (List RedfishEvent)) (e : Incoming) (l l' : Life)
      → length l.jc ≤ queue_len
      → take_event faults e l ≡ some l'
      → length l'.jc ≤ queue_len
  unfolding take_event
  take_event-bound faults e l l' h r =
      after_action-bound (evaluate_event marshal marshal_metric faults uuid l.sub_ctx e) l l' h r

  -- No run of events makes the queue longer than its bound.
  pub take_events-bound :
      (faults : ℕ → Option (List RedfishEvent)) (n : ℕ) (es : List Incoming) (l l' : Life)
      → length l.jc ≤ queue_len
      → take_events faults n es l ≡ some l'
      → length l'.jc ≤ queue_len
  unfolding take_events
  take_events-bound faults n [] l l' h r = ground (arith, h, r)
  take_events-bound faults n (e ∷ es) l l' h r = elim (Option-cases (take_event (faults n) e l)) [
    | inl k ↦ cc (rw (k, take_events) at r)
    | inr (m, k) ↦
        take_events-bound faults (suc n) es m l' (take_event-bound (faults n) e l m h k)
          (rw (k, take_events) at r)
  ]
