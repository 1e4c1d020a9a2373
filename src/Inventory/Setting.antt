-- ===== src/Inventory/Setting.antt =====
-- The loops that give the views of the firmware inventory their lists.
use sailfish.Base.{
  Bool-cases, Dict, List, Option, String, [], ap, arith, eq_iff, eq_refl, inl, inr, insert, lookup,
  lookup-insert, none, refl, some, str_eq, sym, true, ◌∙◌, ◌∷◌, ◌≡◌,
}
use sailfish.Inventory.{FirmwareView, Instance, set_view, set_views, with_model}
use sailfish.Inventory.Listing.{is_found}

-- One of the loops over the mappings, for an update that gives a model a list.
abbrev pub set_if :
    (List String → FirmwareView → FirmwareView) → Option (List String) → FirmwareView → FirmwareView
set_if set none v = v
set_if set (some arr) v = set arr v

module _ (set : List String → FirmwareView → FirmwareView)
    (act : List String → Instance → Option Instance)
    (acts : (arr : List String) (v : FirmwareView)
      → act arr (with_model v) ≡ some (with_model (set arr v)))
    (over : (a b : List String) (v : FirmwareView) → set a (set b v) ≡ set a v) where
  -- What is at a key, before and after.
  abbrev pub IsGiven : Option (List String) → Option Instance → Option Instance → Type 0
  IsGiven o before after =
      (v : FirmwareView) → before ≡ some (with_model v) → after ≡ some (with_model (set_if set o v))

  set-set_if :
      (a : List String) (o : Option (List String)) (v : FirmwareView)
      → set a (set_if set o v) ≡ set a v
  set-set_if a none v = refl
  set-set_if a (some b) v = over a b v

  pub set_views-lookup :
      (ps : Dict (List String)) (views : Dict Instance)
      → ((t : String)
          → is_found (lookup t ps) ≡ true
          → (v : FirmwareView) × (lookup t views ≡ some (with_model v)))
      → (after : Dict Instance) × (set_views act ps views ≡ some after)
        × ((t : String) → IsGiven (lookup t ps) (lookup t views) (lookup t after))
        × ((t : String) → lookup t ps ≡ none → lookup t after ≡ lookup t views)
  unfolding set_views lookup
  set_views-lookup [] views h = (views, refl, (λ t v e. e), (λ t e. refl))
  set_views-lookup ((key, arr) ∷ rest) views h =
      let (later, run, look, left) = set_views-lookup rest views (λ t e. h t (ground (arith, e))) in
      let (v, e) = h key (rw (eq_refl key) refl) in
      let w : FirmwareView = set_if set (lookup key rest) v in
      let held : lookup key later ≡ some (with_model w) = look key v e in
      (
        insert key (with_model (set arr w)) later,
        rw (run) (rw (held, set_view) (rw (acts arr w) refl)),
        (λ t u before.
            lookup-insert key t (with_model (set arr w)) later ∙ elim (Bool-cases (str_eq key t)) [
              | inr b ↦ rw (b) (look t u before)
              | inl b ↦
                  let same : v ≡ u =
                    model-injective v u
                      (sym e ∙ (ap (λ k. lookup k views) ((eq_iff key t).0 b) ∙ before)) in
                  rw (b) (
                    ap (λ x. some (with_model x))
                      (set-set_if arr (lookup key rest) v ∙ ap (set arr) same))
            ]),
        (λ t none_there.
            lookup-insert key t (with_model (set arr w)) later ∙ elim (Bool-cases (str_eq key t)) [
              | inr b ↦ rw (b) (left t (rw (b) at none_there))
              | inl b ↦ absurd (cc (rw (b) at none_there))
            ]),
      )
    where
      model-injective :
          (x y : FirmwareView)
          → ◌≡◌ {A = Option Instance} (some (with_model x)) (some (with_model y))
          → x ≡ y
      model-injective x y h = cc h
