-- ===== src/Inject/Progress.antt =====
-- How the queue goes on after a gap.
use sailfish.Base.{
  Bool-cases, List, [], ap, arith, false, if◌then◌else◌, inl, inr, ltb, ltb_ℤ, pos, pos_part, refl,
  suc, true, zero, ℕ, ◌&&◌, ◌++◌, ◌+◌, ◌-◌, ◌<◌, ◌∙◌, ◌∷◌, ◌≡◌, ◌≤◌, ◌⊎◌,
}
use sailfish.Inject.Queue.{Injected, Service, arrive, fire, fire_times, judge, scan, sent, sort}
use sailfish.Inject.Sorting.{sort_idem}

module _ {E : Type 0} where
  -- The state in which the timer leaves the queue `e ∷ es` when it gives the gap up.
  abbrev resumed : Injected E → List (Injected E) → ℕ → Service E
  resumed e es internal = record {
    queued = e ∷ es;
    internal_seq = if ltb_ℤ (pos internal) e.event_seq then pos_part e.event_seq - 1 else internal;
    missing_event = false;
    tries = 0;
    armed = false;
  }

  abbrev waiting : Injected E → List (Injected E) → Service E → Service E
  waiting e es s = record s { queued = e ∷ es; tries = s.tries + 1 }

  fire-unarmed : (s : Service E) → s.armed ≡ false → fire s ≡ s
  unfolding fire
  fire-unarmed s h = ground (arith, h)

  fire_times-unarmed : (k : ℕ) (s : Service E) → s.armed ≡ false → fire_times k s ≡ s
  unfolding fire_times
  fire_times-unarmed zero s h = refl
  fire_times-unarmed (suc k) s h = ap (fire_times k) (fire-unarmed s h) ∙ fire_times-unarmed k s h

  -- A firing waits once more, for less than 40 tries, or it resumes.
  fire-cases :
      (s : Service E) (e : Injected E) (es : List (Injected E))
      → s.armed ≡ true
      → sort s.queued ≡ e ∷ es
      → ((fire s ≡ waiting e es s) × (s.tries < 40)) ⊎ (fire s ≡ resumed e es s.internal_seq)
  unfolding fire
  fire-cases s e es a q =
      elim (Bool-cases (ltb_ℤ (pos (s.internal_seq + 1)) e.event_seq && ltb s.tries 40)) [
        | inl y ↦ inl (ground (arith, a, q, y), ground (arith, y))
        | inr n ↦ inr (ground (arith, a, q, n))
      ]

  fire_times-resumed :
      (k : ℕ) (s : Service E) (e : Injected E) (es : List (Injected E))
      → 40 ≤ s.tries + k
      → s.armed ≡ true
      → sort s.queued ≡ e ∷ es
      → sort (e ∷ es) ≡ e ∷ es
      → fire_times (suc k) s ≡ resumed e es s.internal_seq
  unfolding fire_times
  fire_times-resumed zero s e es h a q i = elim (fire-cases s e es a q) [
    | inl (_, few) ↦ absurd (omega (arith, few, h))
    | inr r ↦ r
  ]
  fire_times-resumed (suc k) s e es h a q i = elim (fire-cases s e es a q) [
    | inl (w, few) ↦
        ap (fire_times (suc k)) w
        ∙ fire_times-resumed k (waiting e es s) e es (omega (arith, h)) a i i
    | inr r ↦
        ap (fire_times (suc k)) r ∙ fire_times-unarmed (suc k) (resumed e es s.internal_seq) refl
  ]

  -- A queue that waits for a missing event, and whose smallest number is above the last one sent:
  -- once the timer has had 41 times to fire, the next event that comes has the event of the
  -- smallest number sent, and then the loop goes on with the rest in order.
  pub arrive-resumes :
      (s : Service E) (e x : Injected E) (es : List (Injected E))
      → s.armed ≡ true
      → sort s.queued ≡ e ∷ es
      → ltb_ℤ (pos s.internal_seq) e.event_seq ≡ true
      → (arrive x (fire_times 41 s)).0
        ≡ sent e ∷ (scan (es ++ (x ∷ [])) (pos_part e.event_seq)).outputs
  unfolding arrive judge
  arrive-resumes s e x es a q above =
      let i : sort (e ∷ es) ≡ e ∷ es = rw q at (sort_idem s.queued) in
      let r : fire_times 41 s ≡ resumed e es s.internal_seq =
        fire_times-resumed 40 s e es (omega arith) a q i in
      rw r (ground (arith, above))
