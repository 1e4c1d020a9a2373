-- ===== src/Witness/Waiting.antt =====
-- A waiter with one listener and one event.
use sailfish.Base.{List, [], arith, none, refl, some, true, ℕ, ◌∷◌}
use sailfish.Waiter.{Event, array}
use sailfish.Waiter.Safety.{
  IsBalanced, Step, fresh, listened, notified, processed, take_steps, take_steps-IsBalanced, waited,
}

abbrev one_item : Event ℕ
one_item = record { event_type = "LogEvent"; payload = array (1 ∷ 2 ∷ []); sync = some 0 }

-- A listener comes, the event is passed on, and both of its items are taken.
abbrev session : List (Step ℕ)
session =
    listened "l1" (λ e. true) none ∷ notified one_item ∷ processed ∷ waited "l1" ∷ waited "l1" ∷ []

abbrev start : ℕ → ℕ
start g = 1

fresh-IsBalanced : IsBalanced {D = ℕ} start (fresh start)
fresh-IsBalanced = ((λ g. omega arith), refl)

take_steps-IsBalanced_example : IsBalanced start (take_steps session (fresh start))
take_steps-IsBalanced_example = take_steps-IsBalanced start session (fresh start) fresh-IsBalanced
