-- ===== src/Models.antt =====
-- src/ocp/model/model.go: a bag of properties whose observers are told of every update.
pub mod Notifying
pub mod Exact
use sailfish.Base.{
  Bool, Dict, List, Option, String, [], false, if◌then◌else◌, insert, leb_ℤ, length, ltb, none, pos,
  some, suc, true, zero, ℕ, ℤ, ◌&&◌, ◌++◌, ◌+ℤ◌, ◌-ℤ◌, ◌∷◌,
}

-- Update: a property and its new value.
abbrev pub Update : Type 0 → Type 0
Update V = String × V

-- An observer is called under the model's lock, so of the model's operations it can use only the
-- unlocked updates: given the properties and the updates, these are the updates that it makes.
abbrev pub Observer : Type 0 → Type 0
Observer V = Dict V → List (Update V) → List (Update V)

-- Model. `calls` are the calls of observers so far, with the updates that each was given.
pub record Model (V : Type 0) : Type 0 where
  pub properties : Dict V
  pub observers : Dict (Observer V)
  pub in_notify : ℤ
  pub updates : List (Update V)
  pub calls : List (String × List (Update V))

pub data Op (V : Type 0) : Type 0 where
  update_property : String → V → Op V
  stop_notifications start_notifications notify_observers : Op V

module _ {V : Type 0} where
  -- New, with no options.
  abbrev pub new_model : Model V
  new_model = record {
    properties = [];
    observers = [];
    in_notify = pos 0;
    updates = [];
    calls = [];
  }

  -- AddObserver
  unfoldable pub add_observer : String → Observer V → Model V → Model V
  add_observer name ob m = record m { observers = insert name ob m.observers }

  -- StopNotificationsUnlocked
  unfoldable pub stop : Model V → Model V
  stop m = record m { in_notify = m.in_notify +ℤ pos 1 }

  -- startNotificationsUnlocked
  unfoldable pub start : Model V → Model V
  start m = record m { in_notify = m.in_notify -ℤ pos 1 }

  -- m.in_notify <= 0 && len(m.updates) > 0
  unfoldable pub is_due : Model V → Bool
  is_due m = leb_ℤ m.in_notify (pos 0) && ltb 0 (length m.updates)

  -- The property is written and the update is queued.
  unfoldable pub write : String → V → Model V → Model V
  write p i m = record m {
    properties = insert p i m.properties;
    updates = m.updates ++ ((p, i) ∷ []);
  }

  module _ (notify : Model V → Option (Model V)) where
    -- Updates one after another, each with its notification.
    unfoldable pub write_all : List (Update V) → Model V → Option (Model V)
    unfolding write
    write_all [] m = some m
    write_all ((p, i) ∷ us) m = elim (notify (write p i m)) [
      | none ↦ none
      | some m' ↦ write_all us m'
    ]

    -- for _, fn := range m.observers { fn(m, updates) }
    unfoldable pub call_observers : List (Update V) → Dict (Observer V) → Model V → Option (Model V)
    unfolding write_all
    call_observers batch [] m = some m
    call_observers batch ((name, fn) ∷ fns) m =
        elim (write_all (fn m.properties batch)
          (record m { calls = m.calls ++ ((name, batch) ∷ []) })) [
            | none ↦ none
            | some m' ↦ call_observers batch fns m'
          ]

  -- notifyObserversUnlocked. An observer's update calls it again: the fuel bounds how deep these
  -- calls may nest, and none is a nesting that is deeper.
  unfoldable pub notify_observers_unlocked : ℕ → Model V → Option (Model V)
  unfolding is_due stop start call_observers
  notify_observers_unlocked zero m = if is_due m then none else some m
  notify_observers_unlocked (suc n) m = elim (is_due m) [
    | false ↦ some m
    | true ↦
        elim (call_observers (notify_observers_unlocked n) m.updates m.observers
          (stop (record m { updates = [] }))) [ none ↦ none | some m' ↦ some (start m') ]
  ]

  -- UpdateProperty, StopNotifications, StartNotifications and NotifyObservers.
  unfoldable pub perform : ℕ → Op V → Model V → Option (Model V)
  unfolding notify_observers_unlocked write stop start
  perform n (update_property p i) m = notify_observers_unlocked n (write p i m)
  perform n stop_notifications m = some (stop m)
  perform n start_notifications m = notify_observers_unlocked n (start m)
  perform n notify_observers m = notify_observers_unlocked n m

  unfoldable pub perform_all : ℕ → List (Op V) → Model V → Option (Model V)
  unfolding perform
  perform_all n [] m = some m
  perform_all n (o ∷ os) m = elim (perform n o m) [ none ↦ none | some m' ↦ perform_all n os m' ]
