-- ===== src/Models/Exact.antt =====
-- The model against its abstract view, a log of updates that every observer reads in order.
use sailfish.Base.{
  Bool-cases, Dict, List, Option, String, [], arith, if◌then◌else◌, inl, inr, length, ltb, pos,
  refl, some, str_eq, subst, suc, sym, zero, ℕ, ◌++◌, ◌∙◌, ◌∷◌, ◌≡◌,
}
use sailfish.Models.{
  Model, Observer, Op, Update, notify_observers, notify_observers_unlocked, perform, perform_all,
  start, start_notifications, stop, stop_notifications, update_property, write,
}
use sailfish.Models.Notifying.{
  each, lower-pos, nested, notified, notify-blocked, notify-open, raise-pos, replay, replay-append,
}
use mathlib.Core.List.{append_assoc, append-nil}

module _ {V : Type 0} where
  -- What an observer has been told, in order.
  abbrev pub told : String → List (String × List (Update V)) → List (Update V)
  told name [] = []
  told name ((n, batch) ∷ calls) =
      let rest = told name calls in if str_eq n name then batch ++ rest else rest

  -- How often the map has the name: a map has it at most once.
  abbrev pub times : String → Dict (Observer V) → ℕ
  times name [] = 0
  times name ((n, fn) ∷ fns) = if str_eq n name then suc (times name fns) else times name fns

  -- The log explains the model: the properties are those that its updates give, and what an
  -- observer has been told is the log up to the updates that wait.
  abbrev pub Explains : List (Update V) → Model V → Type 0
  Explains log m =
      (m.properties ≡ replay log [])
      × ((name : String) → times name m.observers ≡ 1 → told name m.calls ++ m.updates ≡ log)

  told-append :
      (name : String) (xs ys : List (String × List (Update V)))
      → told name (xs ++ ys) ≡ told name xs ++ told name ys
  told-append name [] ys = refl
  told-append name ((n, batch) ∷ xs) ys = elim (Bool-cases (str_eq n name)) [
    | inl e ↦
        rw (e, told-append name xs ys) (sym (append_assoc batch (told name xs) (told name ys)))
    | inr e ↦ rw (e, told-append name xs ys) refl
  ]

  told-each-none :
      (name : String) (batch : List (Update V)) (fns : Dict (Observer V))
      → times name fns ≡ 0
      → told name (each batch fns) ≡ []
  told-each-none name batch [] h = refl
  told-each-none name batch ((n, fn) ∷ fns) h = ground (arith, h, told-each-none name batch fns)

  told-each :
      (name : String) (batch : List (Update V)) (fns : Dict (Observer V))
      → times name fns ≡ 1
      → told name (each batch fns) ≡ batch
  told-each name batch [] h = ground (arith, h)
  told-each name batch ((n, fn) ∷ fns) h = elim (Bool-cases (str_eq n name)) [
    | inl e ↦ rw (e, told-each-none name batch fns (ground (arith, h, e))) (append-nil batch)
    | inr e ↦ rw e (told-each name batch fns (ground (arith, h, e)))
  ]

  notified-Explains :
      (log : List (Update V)) (m : Model V)
      → Explains log m
      → Explains (log ++ nested m.updates m.observers m.properties) (notified m)
  notified-Explains log m (props, tell) = (
    rw props (sym (replay-append log (nested m.updates m.observers (replay log [])) [])),
    (λ name one.
        rw
          (
            told-append name m.calls (each m.updates m.observers),
            told-each name m.updates m.observers one,
            tell name one,
          )
          refl),
  )

  write-Explains :
      (log : List (Update V)) (p : String) (i : V) (m : Model V)
      → Explains log m
      → Explains (log ++ ((p, i) ∷ [])) (write p i m)
  unfolding write
  write-Explains log p i m (props, tell) = (
    rw props (sym (replay-append log ((p, i) ∷ []) [])),
    (λ name one.
        sym (append_assoc (told name m.calls) m.updates ((p, i) ∷ [])) ∙ rw (tell name one) refl),
  )

  -- The first list is the second one with some items left out.
  pub data IsSub : List (Update V) → List (Update V) → Type 0 where
    over : IsSub [] []
    keep : (u : Update V) {us ws : List (Update V)} → IsSub us ws → IsSub (u ∷ us) (u ∷ ws)
    skip : (u : Update V) {us ws : List (Update V)} → IsSub us ws → IsSub us (u ∷ ws)

  IsSub-append :
      {us ws us' ws' : List (Update V)}
      → IsSub us ws
      → IsSub us' ws'
      → IsSub (us ++ us') (ws ++ ws')
  IsSub-append over t = t
  IsSub-append (keep u s) t = keep u (IsSub-append s t)
  IsSub-append (skip u s) t = skip u (IsSub-append s t)

  IsSub-empty : (ws : List (Update V)) → IsSub [] ws
  IsSub-empty [] = over
  IsSub-empty (w ∷ ws) = skip w (IsSub-empty ws)

  -- The updates that an operation asks for.
  abbrev pub asked : Op V → List (Update V)
  asked (update_property p i) = (p, i) ∷ []
  asked stop_notifications = []
  asked start_notifications = []
  asked notify_observers = []

  abbrev pub asked_all : List (Op V) → List (Update V)
  asked_all [] = []
  asked_all (o ∷ os) = asked o ++ asked_all os

  -- Never more starts than stops, where k stops are open.
  abbrev pub AreBalanced : ℕ → List (Op V) → Type 0
  AreBalanced k [] = Unit
  AreBalanced k (update_property p i ∷ os) = AreBalanced k os
  AreBalanced k (stop_notifications ∷ os) = AreBalanced (suc k) os
  AreBalanced zero (start_notifications ∷ os) = ⊥
  AreBalanced (suc k) (start_notifications ∷ os) = AreBalanced k os
  AreBalanced k (notify_observers ∷ os) = AreBalanced k os

  -- A run that ends in a model that a longer log explains, which has the updates that were asked
  -- for among the new ones, in their order.
  abbrev pub RunsTo : Option (Model V) → ℕ → List (Update V) → List (Update V) → Type 0
  RunsTo run k log us =
      (m : Model V) × (more : List (Update V)) × (run ≡ some m)
      × (m.in_notify ≡ pos k)
      × Explains (log ++ more) m
      × IsSub us more

  notify-RunsTo :
      (n k : ℕ) (log : List (Update V)) (m : Model V)
      → m.in_notify ≡ pos k
      → Explains log m
      → RunsTo (notify_observers_unlocked (suc n) m) k log []
  notify-RunsTo n (suc k) log m h e =
      (m, [], notify-blocked (suc n) m k h, h, rw (append-nil log) e, over)
  notify-RunsTo n zero log m h e = elim (Bool-cases (ltb 0 (length m.updates))) [
    | inl b ↦ (
      notified m,
      nested m.updates m.observers m.properties,
      notify-open n m h ∙ rw b refl,
      h,
      notified-Explains log m e,
      IsSub-empty (nested m.updates m.observers m.properties),
    )
    | inr b ↦ (m, [], notify-open n m h ∙ rw b refl, h, rw (append-nil log) e, over)
  ]

  update-RunsTo :
      (n k : ℕ) (log : List (Update V)) (p : String) (i : V) (m : Model V)
      → m.in_notify ≡ pos k
      → Explains log m
      → RunsTo (perform (suc n) (update_property p i) m) k log ((p, i) ∷ [])
  unfolding perform write
  update-RunsTo n k log p i m h e =
      let (m', more, run, depth, told', _) =
        notify-RunsTo n k (log ++ ((p, i) ∷ [])) (write p i m) h (write-Explains log p i m e) in
      (
        m',
        (p, i) ∷ more,
        run,
        depth,
        subst (λ l. Explains l m') (append_assoc log ((p, i) ∷ []) more) told',
        keep (p, i) (IsSub-empty more),
      )

  RunsTo-next :
      (n k j : ℕ) (os : List (Op V)) (log us ws : List (Update V)) (o : Op V) (m : Model V)
      → RunsTo (perform (suc n) o m) k log us
      → ((m' : Model V) (longer : List (Update V))
          → m'.in_notify ≡ pos k
          → Explains longer m'
          → RunsTo (perform_all (suc n) os m') j longer ws)
      → RunsTo (perform_all (suc n) (o ∷ os) m) j log (us ++ ws)
  unfolding perform_all
  RunsTo-next n k j os log us ws o m (m', more, run, depth, ex, sub) next =
      let (m'', more', run', depth', ex', sub') = next m' (log ++ more) depth ex in
      (
        m'',
        more ++ more',
        rw (run, perform_all) run',
        depth',
        subst (λ l. Explains l m'') (append_assoc log more more') ex',
        IsSub-append sub sub',
      )

  -- The stops that are open after operations.
  abbrev pub depth_after : ℕ → List (Op V) → ℕ
  depth_after k [] = k
  depth_after k (update_property p i ∷ os) = depth_after k os
  depth_after k (stop_notifications ∷ os) = depth_after (suc k) os
  depth_after zero (start_notifications ∷ os) = depth_after 0 os
  depth_after (suc k) (start_notifications ∷ os) = depth_after k os
  depth_after k (notify_observers ∷ os) = depth_after k os

  -- Operations in which starts never outnumber stops, on a model that a log explains: with any fuel
  -- but 0 they all end, with the stops open that they leave open, and a longer log explains the
  -- model after them. Its new part has every update that was asked for, in their order. So an
  -- observer is told of each update once and in order, but for those that still wait.
  pub perform_all-RunsTo :
      (n k : ℕ) (os : List (Op V)) (log : List (Update V)) (m : Model V)
      → m.in_notify ≡ pos k
      → AreBalanced k os
      → Explains log m
      → RunsTo (perform_all (suc n) os m) (depth_after k os) log (asked_all os)
  unfolding perform_all perform stop start
  perform_all-RunsTo n k [] log m h b e = (m, [], refl, h, rw (append-nil log) e, over)
  perform_all-RunsTo n k (update_property p i ∷ os) log m h b e =
      RunsTo-next n k (depth_after k os) os log ((p, i) ∷ []) (asked_all os) (update_property p i) m
        (update-RunsTo n k log p i m h e) (λ m' l h' e'. perform_all-RunsTo n k os l m' h' b e')
  perform_all-RunsTo n k (stop_notifications ∷ os) log m h b e =
      perform_all-RunsTo n (suc k) os log (stop m) (raise-pos m.in_notify k h) b e
  perform_all-RunsTo n zero (start_notifications ∷ os) log m h b e = absurd b
  perform_all-RunsTo n (suc k) (start_notifications ∷ os) log m h b e =
      RunsTo-next n k (depth_after k os) os log [] (asked_all os) start_notifications m
        (notify-RunsTo n k log (start m) (lower-pos m.in_notify k h) e)
        (λ m' l h' e'. perform_all-RunsTo n k os l m' h' b e')
  perform_all-RunsTo n k (notify_observers ∷ os) log m h b e =
      RunsTo-next n k (depth_after k os) os log [] (asked_all os) notify_observers m
        (notify-RunsTo n k log m h e) (λ m' l h' e'. perform_all-RunsTo n k os l m' h' b e')
