-- ===== src/Waiter/Counting.antt =====
-- How many of the queued events belong to a wait group, and what Add and Done do to the count.
use sailfish.Base.{
  List, Option, [], arith, if◌then◌else◌, none, refl, some, ℕ, ◌++◌, ◌+◌, ◌==◌, ◌∷◌, ◌≡◌, ◌≤◌,
}
use sailfish.Waiter.{Counters, Event, Listener, Waiter, add, done}

-- 1 for an event of the group `g`, else 0.
abbrev pub weight : ℕ → Option ℕ → ℕ
weight g none = 0
weight g (some j) = if g == j then 1 else 0

module _ {D : Type 0} where
  abbrev pub queued : ℕ → List (Event D) → ℕ
  queued g [] = 0
  queued g (e ∷ es) = weight g e.sync + queued g es

  abbrev pub queued_all : ℕ → List (Listener D) → ℕ
  queued_all g [] = 0
  queued_all g (l ∷ ls) = queued g l.inbox + queued_all g ls

  -- The events of the group that the waiter and its listeners still hold.
  abbrev pub in_flight : ℕ → Waiter D → ℕ
  in_flight g w = queued g w.inbox + queued_all g w.listeners

  pub queued-append :
      (g : ℕ) (xs ys : List (Event D)) → queued g (xs ++ ys) ≡ queued g xs + queued g ys
  queued-append g [] ys = omega arith
  queued-append g (e ∷ xs) ys = omega (arith, queued-append g xs ys)

  pub queued_all-append :
      (g : ℕ) (xs ys : List (Listener D))
      → queued_all g (xs ++ ys) ≡ queued_all g xs + queued_all g ys
  queued_all-append g [] ys = omega arith
  queued_all-append g (l ∷ xs) ys = omega (arith, queued_all-append g xs ys)

pub count-add : (g : ℕ) (s : Option ℕ) (c : Counters) → (add s c).count g ≡ c.count g + weight g s
unfolding add
count-add g none c = omega arith
count-add g (some j) c = ground arith

pub negative-add : (s : Option ℕ) (c : Counters) → (add s c).negative ≡ c.negative
unfolding add
negative-add none c = refl
negative-add (some j) c = refl

-- Done takes one away, where there is one.
pub count-done :
    (g : ℕ) (s : Option ℕ) (c : Counters)
    → weight g s ≤ c.count g
    → (done s c).count g + weight g s ≡ c.count g
unfolding done
count-done g none c h = omega arith
count-done g (some j) c h = ground arith

pub negative-done :
    (s : Option ℕ) (c : Counters)
    → ((g : ℕ) → weight g s ≤ c.count g)
    → (done s c).negative ≡ c.negative
unfolding done
negative-done none c h = refl
negative-done (some j) c h = ground (arith, h j)
