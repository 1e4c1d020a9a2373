-- ===== src/Waiter.antt =====
-- src/looplab/eventwaiter/eventwaiter.go: a waiter passes the events of its inbox on to the inboxes
-- of its listeners, and counts in each event's wait group who still has to deal with it.
pub mod Counting
pub mod Balance
pub mod Safety
use sailfish.Base.{
  Bool, List, Option, String, [], if◌then◌else◌, none, some, str_eq, true, ℕ, ◌++◌, ◌+◌, ◌-◌, ◌==◌,
  ◌||◌, ◌∷◌,
}

-- Event data is one item, or a slice of items that a listener sees one by one.
pub data Payload (D : Type 0) : Type 0 where
  single : D → Payload D
  array : List D → Payload D

-- `sync` is the wait group of a SyncEvent; other events have none.
pub record Event (D : Type 0) : Type 0 where
  pub event_type : String
  pub payload : Payload D
  pub sync : Option ℕ

-- The counters of the wait groups. `negative` is set once a counter was to go below zero, where Go
-- panics.
pub record Counters : Type 0 where
  pub count : ℕ → ℕ
  pub negative : Bool

pub record Listener (D : Type 0) : Type 0 where
  pub id : String
  pub inbox : List (Event D)
  pub matches : Event D → Bool
  pub single_event_type : Option String

pub record Waiter (D : Type 0) : Type 0 where
  pub inbox : List (Event D)
  pub listeners : List (Listener D)
  pub counters : Counters

-- e.Add(1), for an event that has a wait group
unfoldable pub add : Option ℕ → Counters → Counters
add none c = c
add (some g) c = record c { count = λ j. if j == g then c.count j + 1 else c.count j }

-- e.Done()
unfoldable pub done : Option ℕ → Counters → Counters
done none c = c
done (some g) c = record {
  count = λ j. if j == g then c.count j - 1 else c.count j;
  negative = c.negative || (c.count g == 0);
}

-- Whether a listener's single event type lets an event through.
abbrev pub wants : Option String → String → Bool
wants none t = true
wants (some s) t = str_eq s t

module _ {D : Type 0} where
  -- One event that passes the filter is counted and put in the inbox.
  unfoldable pub offer : Event D → Listener D → Counters → Listener D × Counters
  unfolding add
  offer e l c =
      if l.matches e then (record l { inbox = l.inbox ++ (e ∷ []) }, add e.sync c) else (l, c)

  -- The loop over the items of a slice: each becomes an event with the same wait group.
  unfoldable pub offer_items : Event D → List D → Listener D → Counters → Listener D × Counters
  unfolding offer
  offer_items e [] l c = (l, c)
  offer_items e (x ∷ xs) l c =
      let (l', c') = offer (record e { payload = single x }) l c in offer_items e xs l' c'

  abbrev pub offer_payload : Event D → Payload D → Listener D → Counters → Listener D × Counters
  offer_payload e (array xs) l c = offer_items e xs l c
  offer_payload e (single x) l c = offer e l c

  -- processEvent
  unfoldable pub process_event : Event D → Listener D → Counters → Listener D × Counters
  unfolding offer_items
  process_event e l c =
      if wants l.single_event_type e.event_type then offer_payload e e.payload l c else (l, c)

  -- The loop over the listeners in Run.
  unfoldable pub process_all : Event D → List (Listener D) → Counters → List (Listener D) × Counters
  unfolding process_event
  process_all e [] c = ([], c)
  process_all e (l ∷ ls) c =
      let (l', c') = process_event e l c in let (ls', c'') = process_all e ls c' in (l' ∷ ls', c'')

  -- Notify
  unfoldable pub notify : Event D → Waiter D → Waiter D
  unfolding add
  notify e w = record w { inbox = w.inbox ++ (e ∷ []); counters = add e.sync w.counters }

  -- The case of Run that takes an event from the inbox.
  unfoldable pub process_inbox : List (Event D) → Waiter D → Waiter D
  unfolding process_all done
  process_inbox [] w = w
  process_inbox (e ∷ rest) w =
      let (ls, c) = process_all e w.listeners w.counters in
      record w { inbox = rest; listeners = ls; counters = done e.sync c }

  unfoldable pub run_event : Waiter D → Waiter D
  unfolding process_inbox
  run_event w = process_inbox w.inbox w

  -- Listen: a new listener has a new identifier and an empty inbox.
  unfoldable pub listen : String → (Event D → Bool) → Option String → Waiter D → Waiter D
  listen id matches t w = record w {
    listeners =
        w.listeners
        ++ (record { id = id; inbox = []; matches = matches; single_event_type = t } ∷ []);
  }

  -- The loop of closeInbox over the events that are still in the inbox.
  unfoldable pub close_inbox : List (Event D) → Counters → Counters
  unfolding done
  close_inbox [] c = c
  close_inbox (e ∷ es) c = close_inbox es (done e.sync c)

  -- The case of Run that takes a listener out; an unknown one is passed over.
  unfoldable pub remove_listener :
      String → List (Listener D) → Counters → List (Listener D) × Counters
  unfolding close_inbox
  remove_listener id [] c = ([], c)
  remove_listener id (l ∷ ls) c =
      let (rest, c') = remove_listener id ls c in
      if str_eq l.id id then (ls, close_inbox l.inbox c) else (l ∷ rest, c')

  unfoldable pub unregister : String → Waiter D → Waiter D
  unfolding remove_listener
  unregister id w =
      let (ls, c) = remove_listener id w.listeners w.counters in
      record w { listeners = ls; counters = c }

  -- Wait at a listener: takes the oldest event of its inbox and marks it done.
  unfoldable pub take_front :
      Listener D → List (Event D) → List (Listener D) → Counters → List (Listener D) × Counters
  unfolding done
  take_front l [] ls c = (l ∷ ls, c)
  take_front l (e ∷ es) ls c = (record l { inbox = es } ∷ ls, done e.sync c)

  unfoldable pub take_event : String → List (Listener D) → Counters → List (Listener D) × Counters
  unfolding take_front
  take_event id [] c = ([], c)
  take_event id (l ∷ ls) c =
      let (rest, c') = take_event id ls c in
      if str_eq l.id id then take_front l l.inbox ls c else (l ∷ rest, c')

  unfoldable pub wait : String → Waiter D → Waiter D
  unfolding take_event
  wait id w =
      let (ls, c) = take_event id w.listeners w.counters in
      record w { listeners = ls; counters = c }
