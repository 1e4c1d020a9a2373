-- ===== src/Inject/Queue.antt =====
-- The queue of StartInjectService: events are sent in the order of their numbers, and a gap holds
-- the queue up until a timer has fired often enough.
use sailfish.Base.{
  Bool, List, [], eqb_ℤ, false, if◌then◌else◌, leb_ℤ, ltb, ltb_ℤ, negsuc, pos, pos_part, suc, true,
  zero, ℕ, ℤ, ◌&&◌, ◌++◌, ◌+◌, ◌-◌, ◌==◌, ◌||◌, ◌∷◌,
}

-- An InjectEvent and its EventSeq.
pub record Injected (E : Type 0) : Type 0 where
  pub event : E
  pub event_seq : ℤ

-- What becomes of a queued event: sendToChn, or a DroppedEvent on the bus.
pub data Output (E : Type 0) : Type 0 where
  sent : Injected E → Output E
  dropped : Injected E → Output E

-- The variables of the goroutine. `internal_seq` starts at 0 and is only set to numbers of events
-- above it, so it is a natural number. `armed` says that the timer will fire.
pub record Service (E : Type 0) : Type 0 where
  pub queued : List (Injected E)
  pub internal_seq : ℕ
  pub missing_event : Bool
  pub tries : ℕ
  pub armed : Bool

pub data Verdict : Type 0 where
  to_send to_drop to_hold : Verdict

-- The conditions of the loop, in their order. Sums do not wrap around at the largest int here.
unfoldable pub judge : ℤ → ℕ → Verdict
judge seq internal =
    if eqb_ℤ seq (pos (internal + 1)) || (internal == 0 && eqb_ℤ seq (pos 0))
    then to_send
    else if leb_ℤ seq (pos internal)
    then to_drop
    else to_hold

-- What was sent and dropped by the loop over the queue, and the state after it.
pub record Scan (E : Type 0) : Type 0 where
  pub outputs : List (Output E)
  pub left : List (Injected E)
  pub reached : ℕ
  pub missing : Bool

module _ {E : Type 0} where
  -- The number -1 starts the numbering again.
  abbrev pub is_reset : Injected E → Bool
  is_reset e = eqb_ℤ e.event_seq (negsuc 0)

  abbrev pub restarted : Injected E → Injected E
  restarted e = if is_reset e then record e { event_seq = pos 0 } else e

  abbrev pub put_output : Output E → Scan E → Scan E
  put_output o s = record s { outputs = o ∷ s.outputs }

  -- The loop over the queue. It ends with an empty queue or a missing event, so the loop around it,
  -- which goes on while there is neither, runs once.
  unfoldable pub scan : List (Injected E) → ℕ → Scan E
  unfolding judge
  scan [] internal = record { outputs = []; left = []; reached = internal; missing = false }
  scan (e ∷ es) internal =
      let seq = (restarted e).event_seq in
      let start = if is_reset e then 0 else internal in
      elim (judge seq start) [
        | to_send ↦ put_output (sent (restarted e)) (scan es (pos_part seq))
        | to_drop ↦ put_output (dropped (restarted e)) (scan es start)
        | to_hold ↦ record { outputs = []; left = e ∷ es; reached = start; missing = true }
      ]

  -- The case of an event that comes: it is queued, and the queue is scanned unless an event is
  -- missing already.
  unfoldable pub arrive : Injected E → Service E → List (Output E) × Service E
  unfolding scan
  arrive e s =
      let queue = s.queued ++ (e ∷ []) in
      let r = scan queue s.internal_seq in
      if s.missing_event then ([], record s { queued = queue }) else (
        r.outputs,
        record {
          queued = r.left;
          internal_seq = r.reached;
          missing_event = r.missing;
          tries = if r.missing then s.tries + 1 else s.tries;
          armed = r.missing || s.armed;
        },
      )

  -- sort.SliceStable by the numbers
  unfoldable pub insert_sorted : Injected E → List (Injected E) → List (Injected E)
  insert_sorted e [] = e ∷ []
  insert_sorted e (x ∷ xs) =
      let rest = insert_sorted e xs in
      if leb_ℤ e.event_seq x.event_seq then e ∷ x ∷ xs else x ∷ rest

  unfoldable pub sort : List (Injected E) → List (Injected E)
  unfolding insert_sorted
  sort [] = []
  sort (e ∷ es) = insert_sorted e (sort es)

  -- The case of the timer, with the sorted queue: a jump of the numbers is waited for 40 times.
  unfoldable pub give_up : List (Injected E) → Service E → Service E
  give_up [] s = s
  give_up (e ∷ es) s =
      if ltb_ℤ (pos (s.internal_seq + 1)) e.event_seq && ltb s.tries 40
      then record s { queued = e ∷ es; tries = s.tries + 1 }
      else record {
        queued = e ∷ es;
        internal_seq =
            if ltb_ℤ (pos s.internal_seq) e.event_seq
            then pos_part e.event_seq - 1
            else s.internal_seq;
        missing_event = false;
        tries = 0;
        armed = false;
      }

  -- The timer fires, if it is armed; an empty queue arms it again.
  unfoldable pub fire : Service E → Service E
  unfolding sort give_up
  fire s = if s.armed then give_up (sort s.queued) s else s

  unfoldable pub fire_times : ℕ → Service E → Service E
  unfolding fire
  fire_times zero s = s
  fire_times (suc n) s = fire_times n (fire s)
