-- ===== src/Models/Notifying.antt =====
-- One notification, spelled out: which observers are called with what, and what they leave behind.
use sailfish.Base.{
  Bool-cases, Dict, List, String, [], ap, arith, false, if◌then◌else◌, inl, inr, insert, length,
  ltb, pos, refl, some, suc, sym, zero, ℕ, ℤ, ◌++◌, ◌+ℤ◌, ◌-ℤ◌, ◌∙◌, ◌∷◌, ◌≡◌,
}
use sailfish.Models.{
  Model, Observer, Update, call_observers, is_due, notify_observers_unlocked, start, stop, write,
  write_all,
}
use mathlib.Core.List.{append_assoc, append-nil}

pub raise-pos : (x : ℤ) (k : ℕ) → x ≡ pos k → x +ℤ pos 1 ≡ pos (suc k)
unfolding ◌+ℤ◌
raise-pos x k h = rw h (ground arith)

pub lower-pos : (x : ℤ) (k : ℕ) → x ≡ pos (suc k) → x -ℤ pos 1 ≡ pos k
unfolding ◌-ℤ◌
lower-pos x k h = rw h (ground arith)

lower-raise : (x : ℤ) (k : ℕ) → x ≡ pos k → x +ℤ pos 1 -ℤ pos 1 ≡ x
lower-raise x k h = lower-pos (x +ℤ pos 1) k (raise-pos x k h) ∙ sym h

module _ {V : Type 0} where
  -- The properties after updates.
  abbrev pub replay : List (Update V) → Dict V → Dict V
  replay [] ps = ps
  replay ((p, i) ∷ us) ps = replay us (insert p i ps)

  -- The updates that observers make of a batch, called one after another.
  abbrev pub nested : List (Update V) → Dict (Observer V) → Dict V → List (Update V)
  nested batch [] ps = []
  nested batch ((name, fn) ∷ fns) ps = fn ps batch ++ nested batch fns (replay (fn ps batch) ps)

  -- One call of each observer.
  abbrev pub each : List (Update V) → Dict (Observer V) → List (String × List (Update V))
  each batch [] = []
  each batch ((name, fn) ∷ fns) = (name, batch) ∷ each batch fns

  -- The model after updates of its properties that wait for their notification.
  abbrev pub with_updates : List (Update V) → Model V → Model V
  with_updates us m = record m { properties = replay us m.properties; updates = m.updates ++ us }

  pub replay-append :
      (us ws : List (Update V)) (ps : Dict V) → replay (us ++ ws) ps ≡ replay ws (replay us ps)
  replay-append [] ws ps = refl
  replay-append ((p, i) ∷ us) ws ps = replay-append us ws (insert p i ps)

  is_due-blocked : (m : Model V) (k : ℕ) → m.in_notify ≡ pos (suc k) → is_due m ≡ false
  unfolding is_due
  is_due-blocked m k h = rw (h, is_due) (ground arith)

  -- While notifications are stopped, nothing is sent.
  pub notify-blocked :
      (n : ℕ) (m : Model V) (k : ℕ)
      → m.in_notify ≡ pos (suc k)
      → notify_observers_unlocked n m ≡ some m
  unfolding notify_observers_unlocked
  notify-blocked zero m k h = rw (is_due-blocked m k h, notify_observers_unlocked) refl
  notify-blocked (suc n) m k h = rw (is_due-blocked m k h, notify_observers_unlocked) refl

  write_all-blocked :
      (n : ℕ) (us : List (Update V)) (m : Model V) (k : ℕ)
      → m.in_notify ≡ pos (suc k)
      → write_all (notify_observers_unlocked n) us m ≡ some (with_updates us m)
  unfolding write_all write
  write_all-blocked n [] m k h =
      ap (λ u. some (record m { updates = u })) (sym (append-nil m.updates))
  write_all-blocked n ((p, i) ∷ us) m k h =
      rw (notify-blocked n (write p i m) k h, write_all)
        (write_all-blocked n us (write p i m) k h
          ∙ ap
              (λ u.
                some (record m { properties = replay us (insert p i m.properties); updates = u }))
              (append_assoc m.updates ((p, i) ∷ []) us))

  call_observers-blocked :
      (n : ℕ) (batch : List (Update V)) (fns : Dict (Observer V)) (m : Model V) (k : ℕ)
      → m.in_notify ≡ pos (suc k)
      → call_observers (notify_observers_unlocked n) batch fns m
        ≡ some (record (with_updates (nested batch fns m.properties) m) {
          calls = m.calls ++ each batch fns;
        })
  unfolding call_observers
  call_observers-blocked n batch [] m k h = rw (append-nil m.updates, append-nil m.calls) refl
  call_observers-blocked n batch ((name, fn) ∷ fns) m k h =
      let us : List (Update V) = fn m.properties batch in
      let called : Model V = record m { calls = m.calls ++ ((name, batch) ∷ []) } in
      let rest : List (Update V) = nested batch fns (replay us m.properties) in
      rw (write_all-blocked n us called k h, call_observers)
        (call_observers-blocked n batch fns (with_updates us called) k h
          ∙ rw
              (
                replay-append us rest m.properties,
                append_assoc m.updates us rest,
                append_assoc m.calls ((name, batch) ∷ []) (each batch fns),
              )
              refl)

  -- The model when a notification has ended.
  abbrev pub notified : Model V → Model V
  notified m = record m {
    properties = replay (nested m.updates m.observers m.properties) m.properties;
    updates = nested m.updates m.observers m.properties;
    calls = m.calls ++ each m.updates m.observers;
  }

  is_due-open : (m : Model V) → m.in_notify ≡ pos 0 → is_due m ≡ ltb 0 (length m.updates)
  unfolding is_due
  is_due-open m h = rw (h, is_due) (ground arith)

  -- A model that has no stopped notifications: with any fuel but 0 the notification ends. If no
  -- update waits, nothing happens. Otherwise each observer is called once with the whole batch, in
  -- the order of the map, and exactly the updates that the observers made wait for the next one.
  pub notify-open :
      (n : ℕ) (m : Model V)
      → m.in_notify ≡ pos 0
      → notify_observers_unlocked (suc n) m
        ≡ (if ltb 0 (length m.updates) then some (notified m) else some m)
  unfolding notify_observers_unlocked stop start
  notify-open n m h = elim (Bool-cases (ltb 0 (length m.updates))) [
    | inr e ↦ rw (is_due-open m h, e, notify_observers_unlocked) refl
    | inl e ↦
        let idle : Model V = record m { updates = [] } in
        rw
          (
            is_due-open m h,
            e,
            notify_observers_unlocked,
            call_observers-blocked n m.updates m.observers (stop idle) 0
                (raise-pos m.in_notify 0 h),
          )
          (ap (λ x. some (record (notified m) { in_notify = x })) (lower-raise m.in_notify 0 h))
  ]
