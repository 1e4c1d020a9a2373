-- ===== src/Witness/Observing.antt =====
-- A model with one observer, which answers each batch of the first property with one update.
use sailfish.Base.{
  List, [], if◌then◌else◌, insert, pos, refl, some, str_eq, ℕ, ◌+ℤ◌, ◌-ℤ◌, ◌∷◌, ◌≡◌,
}
use sailfish.Models.{
  Model, Observer, Op, add_observer, new_model, notify_observers, perform_all, start_notifications,
  stop_notifications, update_property, write,
}
use sailfish.Models.Exact.{Explains, RunsTo, asked_all, perform_all-RunsTo}

-- It writes "b" when "a" has been written.
abbrev copy_a : Observer ℕ
copy_a ps [] = []
copy_a ps ((p, i) ∷ us) = if str_eq p "a" then ("b", i) ∷ [] else []

abbrev pub observed : Model ℕ
observed = add_observer "copy" copy_a new_model

abbrev ops : List (Op ℕ)
ops =
    stop_notifications
    ∷ update_property "a" 1
    ∷ update_property "a" 2
    ∷ start_notifications
    ∷ notify_observers
    ∷ []

-- The observer is called with both updates, and then with its own.
copy_called :
    perform_all 1 ops observed
    ≡ some (record observed {
      properties = ("a", 2) ∷ ("b", 1) ∷ [];
      calls = ("copy", ("a", 1) ∷ ("a", 2) ∷ []) ∷ ("copy", ("b", 1) ∷ []) ∷ [];
    })
unfolding perform_all add_observer insert ◌+ℤ◌ ◌-ℤ◌
copy_called = refl

observed-depth : observed.in_notify ≡ pos 0
unfolding add_observer
observed-depth = refl

observed-Explains : Explains [] observed
unfolding add_observer
observed-Explains = (refl, λ name one. refl)

perform_all-RunsTo_example : RunsTo (perform_all 1 ops observed) 0 [] (asked_all ops)
perform_all-RunsTo_example =
    perform_all-RunsTo 0 0 ops [] observed observed-depth tt observed-Explains

abbrev waiting : Model ℕ
waiting = write "a" 1 observed

waiting-depth : waiting.in_notify ≡ pos 0
unfolding write add_observer
waiting-depth = refl
