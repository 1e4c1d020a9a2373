-- ===== src/Mapper/Silence.antt =====
-- Failing expressions against the notifications of the model.
use sailfish.Base.{
  Dict, List, Option, Option-cases, String, [], ap, arith, delete, inl, inr, insert, none, pos,
  refl, some, subst, suc, ℕ, ◌+◌, ◌∙◌, ◌∷◌, ◌≡◌,
}
use sailfish.Property.{Value, text}
use sailfish.Models.{
  Model, Op, Update, perform, perform_all, start_notifications, stop, stop_notifications,
  update_property,
}
use sailfish.Models.Exact.{
  AreBalanced, Explains, IsSub, RunsTo, asked_all, depth_after, perform_all-RunsTo,
}
use sailfish.Mapper.Update.{
  Mapped, ModelUpdate, model_update_fn, set_and_start, update_each, update_one,
}

abbrev count_failure : Option Value → ℕ → ℕ
count_failure none n = suc n
count_failure (some val) n = n

abbrev put_value : String → Option Value → List (Update Value) → List (Update Value)
put_value p none us = us
put_value p (some val) us = (p, val) ∷ us

abbrev put_ops : String → Option Value → List (Op Value) → List (Op Value)
put_ops p none os = stop_notifications ∷ os
put_ops p (some val) os = stop_notifications ∷ update_property p val ∷ start_notifications ∷ os

-- The parameters that an expression is given.
abbrev named : ModelUpdate → Dict Value → Dict Value
named u params = insert "propname" (text u.property) params

-- How many expressions fail.
abbrev pub failures : List ModelUpdate → Dict Value → ℕ
failures [] params = 0
failures (u ∷ us) params =
    count_failure (u.query_expr (named u params)) (failures us (named u params))

-- The properties whose expressions have a value, with these values.
abbrev pub evaluated : List ModelUpdate → Dict Value → List (Update Value)
evaluated [] params = []
evaluated (u ∷ us) params =
    put_value u.property (u.query_expr (named u params)) (evaluated us (named u params))

-- The operations on the model.
abbrev update_ops : List ModelUpdate → Dict Value → List (Op Value)
update_ops [] params = []
update_ops (u ∷ us) params =
    put_ops u.property (u.query_expr (named u params)) (update_ops us (named u params))

abbrev params_after : List ModelUpdate → Dict Value → Dict Value
params_after [] params = params
params_after (u ∷ us) params = params_after us (named u params)

with_model : Dict Value → Option (Model Value) → Option Mapped
with_model params none = none
with_model params (some m) = some (record { params = params; model = m })

update_each-ops :
    (n : ℕ) (us : List ModelUpdate) (params : Dict Value) (m : Model Value)
    → update_each n us (record { params = params; model = m })
      ≡ with_model (params_after us params) (perform_all n (update_ops us params) m)
unfolding update_each update_one set_and_start perform_all with_model perform
update_each-ops n [] params m = refl
update_each-ops n (u ∷ us) params m = elim (Option-cases (u.query_expr (named u params))) [
  | inl e ↦
      rw (e, update_each, update_one, put_ops, perform_all)
        (update_each-ops n us (named u params) (stop m))
  | inr (val, e) ↦ elim (Option-cases (perform n (update_property u.property val) (stop m))) [
    | inl f ↦ rw (e, update_each, update_one, put_ops, perform_all, set_and_start, f) refl
    | inr (m1, f) ↦ elim (Option-cases (perform n start_notifications m1)) [
      | inl g ↦ rw (e, update_each, update_one, put_ops, perform_all, set_and_start, f, g) refl
      | inr (m2, g) ↦
          rw (e, update_each, update_one, put_ops, perform_all, set_and_start, f, g)
            (update_each-ops n us (named u params) m2)
    ]
  ]
]

put_ops-AreBalanced :
    (p : String) (o : Option Value) (os : List (Op Value)) (k : ℕ)
    → ((j : ℕ) → AreBalanced j os)
    → AreBalanced k (put_ops p o os)
put_ops-AreBalanced p none os k h = h (suc k)
put_ops-AreBalanced p (some val) os k h = h k

update_ops-AreBalanced :
    (us : List ModelUpdate) (params : Dict Value) (k : ℕ) → AreBalanced k (update_ops us params)
update_ops-AreBalanced [] params k = tt
update_ops-AreBalanced (u ∷ us) params k =
    put_ops-AreBalanced u.property (u.query_expr (named u params)) (update_ops us (named u params))
      k (update_ops-AreBalanced us (named u params))

depth_after-put_ops :
    (p : String) (o : Option Value) (os : List (Op Value)) (k f : ℕ)
    → ((j : ℕ) → depth_after j os ≡ j + f)
    → depth_after k (put_ops p o os) ≡ k + count_failure o f
depth_after-put_ops p none os k f h = omega (arith, h (suc k))
depth_after-put_ops p (some val) os k f h = h k

depth_after-update_ops :
    (us : List ModelUpdate) (params : Dict Value) (k : ℕ)
    → depth_after k (update_ops us params) ≡ k + failures us params
depth_after-update_ops [] params k = omega arith
depth_after-update_ops (u ∷ us) params k =
    depth_after-put_ops u.property (u.query_expr (named u params)) (update_ops us (named u params))
      k (failures us (named u params)) (depth_after-update_ops us (named u params))

asked_all-put_ops :
    (p : String) (o : Option Value) (os : List (Op Value))
    → asked_all (put_ops p o os) ≡ put_value p o (asked_all os)
asked_all-put_ops p none os = refl
asked_all-put_ops p (some val) os = refl

asked_all-update_ops :
    (us : List ModelUpdate) (params : Dict Value)
    → asked_all (update_ops us params) ≡ evaluated us params
asked_all-update_ops [] params = refl
asked_all-update_ops (u ∷ us) params =
    asked_all-put_ops u.property (u.query_expr (named u params)) (update_ops us (named u params))
    ∙ ap (put_value u.property (u.query_expr (named u params)))
        (asked_all-update_ops us (named u params))

-- A mapper's updates of its model, with k stops open and explained by a log: with any fuel but 0
-- they end. A longer log explains the model, and the properties whose expressions have a value are
-- among its new updates, in order and with these values; each expression that fails leaves one more
-- stop open.
pub model_update_fn-RunsTo :
    (n k : ℕ) (us : List ModelUpdate) (mp : Mapped) (log : List (Update Value))
    → mp.model.in_notify ≡ pos k
    → Explains log mp.model
    → (mp' : Mapped) × (model_update_fn (suc n) us mp ≡ some mp')
      × RunsTo (some mp'.model) (k + failures us mp.params) log (evaluated us mp.params)
unfolding model_update_fn with_model
model_update_fn-RunsTo n k us mp log h e =
    let (m, more, run, depth, ex, sub) =
      perform_all-RunsTo n k (update_ops us mp.params) log mp.model h
        (update_ops-AreBalanced us mp.params k) e in
    (
      record { params = delete "propname" (params_after us mp.params); model = m },
      rw (update_each-ops (suc n) us mp.params mp.model, model_update_fn, run) refl,
      (
        m,
        more,
        refl,
        depth ∙ ap pos (depth_after-update_ops us mp.params k),
        ex,
        subst (λ l. IsSub l more) (asked_all-update_ops us mp.params) sub,
      ),
    )
