-- ===== src/Subscription/Delivery.antt =====
-- The loop of a job that posts one event (src/ocp/eventservice/entrypoint.go).
use sailfish.Base.{
  Bool, Bool-cases, Option, ap, arith, false, if◌then◌else◌, inl, inr, none, not, refl, some, subst,
  suc, sym, true, zero, ℕ, ◌*◌, ◌+◌, ◌<◌, ◌==◌, ◌>>=◌, ◌||◌, ◌∙◌, ◌≡◌, ◌≤◌, ◌⊎◌,
}

-- 200, 201, 202 and 204.
unfoldable pub is_accepted : Option ℕ → Bool
is_accepted none = false
is_accepted (some status) = status == 200 || (status == 201 || (status == 202 || status == 204))

-- How far the posting of one event has come: the attempts, the seconds slept before them, and
-- logSent.
pub record Sending : Type 0 where
  pub attempts : ℕ
  pub slept : ℕ
  pub log_sent : Bool

abbrev pub max_attempts : ℕ
max_attempts = 5

-- `answers i` is what attempt i gets: the status of the response, or an error.
module _ (answers : ℕ → Option ℕ) where
  -- One round of the loop. `creates` says that http.NewRequest makes a request to the destination; its
  -- error is dropped, and without a request req.Header.Add panics: none.
  unfoldable pub attempt : Bool → ℕ → Sending → Option Sending
  unfolding is_accepted
  attempt creates i s =
      if not creates
      then none
      else some (record {
        attempts = suc s.attempts;
        slept = s.slept + i * 2;
        log_sent = is_accepted (answers i);
      })

  -- The rounds from i on, of which `left` are left.
  unfoldable pub send_from : Bool → ℕ → ℕ → Sending → Option Sending
  unfolding attempt
  send_from creates zero i s = some s
  send_from creates (suc left) i s =
      let rest = attempt creates i s >>= λ next. send_from creates left (suc i) next in
      if not s.log_sent then rest else some s

  unfoldable pub send_event : Bool → Option Sending
  unfolding send_from
  send_event creates =
      send_from creates max_attempts 0 (record { attempts = 0; slept = 0; log_sent = false })

  -- The seconds slept before n attempts.
  abbrev pub waits : ℕ → ℕ
  waits zero = 0
  waits (suc n) = waits n + n * 2

  -- The outcome is right: the last attempt is the first that was accepted, or all five were made
  -- and none was accepted.
  abbrev pub IsOutcome : ℕ → Sending → Type 0
  IsOutcome last s =
      (s.slept ≡ waits s.attempts)
      × (s.attempts ≤ last)
      × ((j : ℕ) → suc j < s.attempts → is_accepted (answers j) ≡ false)
      × (((s.log_sent ≡ true)
            × ((j : ℕ) → s.attempts ≡ suc j → is_accepted (answers j) ≡ true)
            × (0 < s.attempts))
          ⊎ ((s.log_sent ≡ false)
              × (s.attempts ≡ last)
              × ((j : ℕ) → j < last → is_accepted (answers j) ≡ false)))

  send_from-sent : (left i : ℕ) (s : Sending) → s.log_sent ≡ true → send_from true left i s ≡ some s
  unfolding send_from
  send_from-sent zero i s h = refl
  send_from-sent (suc left) i s h = rw (h, send_from) refl

  lt-cases : (j i : ℕ) → j < suc i → (j < i) ⊎ (j ≡ i)
  lt-cases j i h = omega (arith, h)

  refused-next :
      (i : ℕ)
      → ((j : ℕ) → j < i → is_accepted (answers j) ≡ false)
      → is_accepted (answers i) ≡ false
      → (j : ℕ) → j < suc i
      → is_accepted (answers j) ≡ false
  refused-next i none_yet e j h = elim (lt-cases j i h) [ inl k ↦ none_yet j k | inr k ↦ rw k e ]

  round : ℕ → Sending → Sending
  round i s = record {
    attempts = suc s.attempts;
    slept = s.slept + i * 2;
    log_sent = is_accepted (answers i);
  }

  -- A posting that ends, and ends right.
  abbrev Ends : ℕ → Option Sending → Type 0
  Ends last o = (s : Sending) × (o ≡ some s) × IsOutcome last s

  send_from-Ends :
      (last left i : ℕ) (s : Sending)
      → left + i ≡ last
      → s.log_sent ≡ false
      → s.attempts ≡ i
      → s.slept ≡ waits i
      → ((j : ℕ) → j < i → is_accepted (answers j) ≡ false)
      → Ends last (send_from true left i s)
  unfolding send_from attempt round
  send_from-Ends last zero i s l f a w none_yet = (
    s,
    refl,
    (
      w ∙ ap waits (sym a),
      omega (arith, l, a),
      (λ j h. none_yet j (omega (arith, h, a))),
      inr (f, omega (arith, l, a), (λ j h. none_yet j (omega (arith, h, l)))),
    ),
  )
  send_from-Ends last (suc left) i s l f a w none_yet =
      elim (Bool-cases (is_accepted (answers i))) [
        | inr e ↦
            rw (f, send_from)
              (send_from-Ends last left (suc i) (round i s) (omega (arith, l)) e (ap suc a)
                (rw w refl) (refused-next i none_yet e))
        | inl e ↦
            rw (f, send_from, send_from-sent left (suc i) (round i s) e)
              (
                round i s,
                refl,
                (
                  rw (w, a) refl,
                  omega (arith, l, a),
                  (λ j h. none_yet j (omega (arith, h, a))),
                  inl (
                    e,
                    (λ j h. subst (λ k. is_accepted (answers k) ≡ true) (omega (arith, h, a)) e),
                    omega arith,
                  ),
                ),
              )
      ]

  -- The posting of an event where http.NewRequest makes a request, and where it does not.
  abbrev pub Posts : Bool → Option Sending → Type 0
  Posts true o = (s : Sending) × (o ≡ some s) × IsOutcome max_attempts s
  Posts false o = o ≡ none

  -- If http.NewRequest makes a request to the destination, the posting of an event ends after at most
  -- five attempts: either the last attempt was accepted and none before it, or all five were made and
  -- none was accepted, with sleeps of 0, 2, 4, 6 and 8 seconds before the attempts. If it makes none,
  -- the posting panics.
  pub send_event-IsOutcome : (creates : Bool) → Posts creates (send_event creates)
  unfolding send_event send_from attempt
  send_event-IsOutcome false = refl
  send_event-IsOutcome true =
      send_from-Ends max_attempts max_attempts 0
        (record { attempts = 0; slept = 0; log_sent = false }) refl refl refl refl
        (λ j h. absurd (omega (arith, h)))
