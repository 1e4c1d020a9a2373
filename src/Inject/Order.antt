-- ===== src/Inject/Order.antt =====
-- What the loop over the queue sends and drops.
use sailfish.Base.{
  List, [], arith, eq_of_parts, false, if◌then◌else◌, length, pos, pos_part, refl, ℕ, ℤ, ◌++◌, ◌+◌,
  ◌∷◌, ◌≡◌, ◌⊎◌,
}
use sailfish.Inject.Queue.{
  Injected, Output, dropped, is_reset, judge, restarted, scan, sent, to_send,
}

module _ {E : Type 0} where
  abbrev pub event_of : Output E → E
  event_of (sent e) = e.event
  event_of (dropped e) = e.event

  abbrev pub events : List (Injected E) → List E
  events [] = []
  events (e ∷ es) = e.event ∷ events es

  abbrev pub output_events : List (Output E) → List E
  output_events [] = []
  output_events (o ∷ os) = event_of o ∷ output_events os

  -- Nothing is lost and nothing overtakes: what the loop sends and drops, followed by what stays
  -- queued, is the queue.
  pub events-scan :
      (q : List (Injected E)) (n : ℕ)
      → output_events (scan q n).outputs ++ events (scan q n).left ≡ events q
  unfolding scan
  events-scan [] n = refl
  events-scan (e ∷ es) n = ground (
    arith,
    events-scan es (pos_part (restarted e).event_seq),
    events-scan es (if is_reset e then 0 else n),
  )

  -- The numbers of the events that are sent.
  abbrev pub sent_seqs : List (Output E) → List ℤ
  sent_seqs [] = []
  sent_seqs (sent e ∷ os) = e.event_seq ∷ sent_seqs os
  sent_seqs (dropped e ∷ os) = sent_seqs os

  abbrev pub HasNoReset : List (Injected E) → Type 0
  HasNoReset [] = Unit
  HasNoReset (e ∷ es) = (is_reset e ≡ false) × HasNoReset es

-- Consecutive numbers after `n`; at 0 also the number 0.
abbrev pub IsRun : ℕ → List ℤ → Type 0
IsRun n [] = Unit
IsRun n (s ∷ ss) = ((s ≡ pos (n + 1)) ⊎ ((n ≡ 0) × (s ≡ pos 0))) × IsRun (pos_part s) ss

judge-to_send : (s : ℤ) (n : ℕ) → judge s n ≡ to_send → (s ≡ pos (n + 1)) ⊎ ((n ≡ 0) × (s ≡ pos 0))
unfolding judge
judge-to_send s n h = ground (arith, eq_of_parts s (pos (n + 1)), eq_of_parts s (pos 0))

module _ {E : Type 0} where
  -- Without a reset in the queue, the events that the loop sends have consecutive numbers, from the
  -- one after the last that was sent before.
  pub scan-IsRun :
      (q : List (Injected E)) (n : ℕ) → HasNoReset q → IsRun n (sent_seqs (scan q n).outputs)
  unfolding scan
  scan-IsRun [] n h = tt
  scan-IsRun (e ∷ es) n h = ground (
    arith,
    judge-to_send e.event_seq n,
    scan-IsRun es (pos_part e.event_seq) h.1,
    scan-IsRun es n h.1,
  )

  -- Events numbered from the one after `n`.
  abbrev pub numbered : ℕ → List E → List (Injected E)
  numbered n [] = []
  numbered n (x ∷ xs) = record { event = x; event_seq = pos (n + 1) } ∷ numbered (n + 1) xs

  abbrev pub all_sent : List (Injected E) → List (Output E)
  all_sent [] = []
  all_sent (e ∷ es) = sent e ∷ all_sent es

  -- Events that come in order and without a gap are all sent, in that order, and none is dropped
  -- or kept.
  pub scan-numbered :
      (n : ℕ) (xs : List E)
      → scan (numbered n xs) n ≡ record {
        outputs = all_sent (numbered n xs);
        left = [];
        reached = n + length xs;
        missing = false;
      }
  unfolding scan judge
  scan-numbered n [] = ground arith
  scan-numbered n (x ∷ xs) = ground (arith, scan-numbered (n + 1) xs)
