-- ===== src/Inventory/Showing.antt =====
-- The views of the firmware inventory after a scan.
use sailfish.Base.{
  Bool, Bool-cases, Dict, List, Option, String, [], ap, arith, false, inl, inr, lookup, none, refl,
  some, subst, sym, true, ◌∙◌, ◌≡◌,
}
use sailfish.Property.{Value}
use sailfish.Faults.{in_array}
use sailfish.Inventory.{
  Firmware, FirmwareView, Instance, Scanned, listed_at, scan_inventory, set_fqdds, set_related,
  with_model,
}
use sailfish.Inventory.Listing.{
  Pairs, add_pairs, in_array-add_pairs, is_found, is_found-add_pairs, is_listed, is_mentioned,
}
use sailfish.Inventory.Scanning.{
  Found, HasModel, HaveModels, add_found, add_found-HaveModels, found, found-at,
  fqdd_mappings-add_found, fqdd_pairs, is_found-add_found, is_mentioned-uri_pairs, model-of,
  scan_list-found, uri_mappings-add_found, uri_pairs, views-add_found,
}
use sailfish.Inventory.Setting.{set_if, set_views-lookup}

-- The view of a tuple after a scan: as before if no model has the tuple.
abbrev pub Shown : String → Found → Dict Instance → Dict Instance → Bool → Type 0
Shown t es before after false = lookup t after ≡ lookup t before
Shown t es before after true =
    (v : FirmwareView) × (lookup t after ≡ some (with_model v))
    × ((x : String) → in_array x v.fqdd_list ≡ is_listed t x (fqdd_pairs es))
    × ((x : String) → in_array x v.related_list ≡ is_listed t x (uri_pairs es))

listed-pairs :
    (ps : Pairs) (t : String) (arr : List String)
    → lookup t (add_pairs ps []) ≡ some arr
    → (x : String) → in_array x arr ≡ is_listed t x ps
unfolding lookup in_array
listed-pairs ps t arr e x =
    subst (λ o. in_array x (listed_at o) ≡ is_listed t x ps) e (in_array-add_pairs ps [] t x)

abbrev begin_scan : Dict Instance → Scanned
begin_scan views = record { views = views; fqdd_mappings = []; uri_mappings = [] }

not-mentioned : (o : Option (List String)) → is_found o ≡ false → o ≡ none
not-mentioned none h = refl
not-mentioned (some a) h = absurd (cc h)

abbrev with_fqdd_list : List String → FirmwareView → FirmwareView
with_fqdd_list arr v = record v { fqdd_list = arr }

abbrev with_related_list : List String → FirmwareView → FirmwareView
with_related_list arr v = record v { related_list = arr }

set_fqdds-acts :
    (arr : List String) (v : FirmwareView)
    → set_fqdds arr (with_model v) ≡ some (with_model (with_fqdd_list arr v))
unfolding set_fqdds
set_fqdds-acts arr v = refl

set_related-acts :
    (arr : List String) (v : FirmwareView)
    → set_related arr (with_model v) ≡ some (with_model (with_related_list arr v))
unfolding set_related
set_related-acts arr v = refl

model-at :
    (views : Dict Instance) (t : String)
    → HaveModels views
    → is_found (lookup t views) ≡ true
    → (v : FirmwareView) × (lookup t views ≡ some (with_model v))
model-at views t h f =
    let (i, e) = found-at (lookup t views) f in
    let (v, same) = model-of i (h t i e) in (v, e ∙ ap some same)

-- A scan of the firmware inventory, where Instantiate makes every view with its default model and the
-- views that are there have theirs: it does not panic. After it, the view of a tuple of class and
-- version that a model has, of those with all their values, holds exactly the fqdds and the URIs of
-- the models with this tuple. The view of any other tuple stays as it was, with its lists.
pub scan_inventory-Shown :
    (equal_fold : String → String → Bool) (instantiate : Firmware → Instance)
    (l : Dict (List (Dict Value))) (views : Dict Instance) (t : String)
    → ((f : Firmware) → HasModel (instantiate f))
    → HaveModels views
    → (after : Dict Instance) × (scan_inventory equal_fold instantiate l views ≡ some after)
      × Shown t (found equal_fold l) views after (is_mentioned t (fqdd_pairs (found equal_fold l)))
unfolding scan_inventory lookup
scan_inventory-Shown equal_fold instantiate l views t makes ready =
    let es : Found = found equal_fold l in
    let s : Scanned = add_found instantiate es (begin_scan views) in
    let fps : Dict (List String) = add_pairs (fqdd_pairs es) [] in
    let ups : Dict (List String) = add_pairs (uri_pairs es) [] in
    let in_uris : (k : String) → is_found (lookup k ups) ≡ is_mentioned k (fqdd_pairs es) =
      λ k. is_found-add_pairs (uri_pairs es) [] k ∙ is_mentioned-uri_pairs k es in
    let models : HaveModels s.views =
      add_found-HaveModels instantiate makes es (begin_scan views) ready in
    let at : (k : String)
        → is_mentioned k (fqdd_pairs es) ≡ true
        → (v : FirmwareView) × (lookup k s.views ≡ some (with_model v)) =
      λ k m.
        model-at s.views k models
          (is_found-add_found instantiate es k (begin_scan views) ∙ ground (arith, m)) in
    let (middle, run, look, left) =
      set_views-lookup with_fqdd_list set_fqdds set_fqdds-acts (λ a b v. refl) fps s.views
        (λ k e. at k (sym (is_found-add_pairs (fqdd_pairs es) [] k) ∙ e)) in
    let (after, run', look', left') =
      set_views-lookup with_related_list set_related set_related-acts (λ a b v. refl) ups middle
        (λ k e.
          let (v, held) = at k (sym (in_uris k) ∙ e) in
          (set_if with_fqdd_list (lookup k fps) v, look k v held)) in
    (
      after,
      rw
          (
            scan_list-found instantiate makes equal_fold l (begin_scan views) ready,
            fqdd_mappings-add_found instantiate es (begin_scan views),
            uri_mappings-add_found instantiate es (begin_scan views),
            run,
          )
          run',
      elim (Bool-cases (is_mentioned t (fqdd_pairs es))) [
        | inr b ↦ subst (Shown t es views after) (sym b) (
            left' t (not-mentioned (lookup t ups) (in_uris t ∙ b))
            ∙ (left t (not-mentioned (lookup t fps) (is_found-add_pairs (fqdd_pairs es) [] t ∙ b))
                ∙ views-add_found instantiate es t (begin_scan views) b))
        | inl b ↦
            let (fqdds, has_fqdds) =
              found-at (lookup t fps) (is_found-add_pairs (fqdd_pairs es) [] t ∙ b) in
            let (uris, has_uris) = found-at (lookup t ups) (in_uris t ∙ b) in
            let (v, held) = at t b in
            let held' : lookup t middle ≡ some (with_model (with_fqdd_list fqdds v)) =
              look t v held ∙ ap (λ o. some (with_model (set_if with_fqdd_list o v))) has_fqdds in
            subst (Shown t es views after) (sym b) (
              with_related_list uris (with_fqdd_list fqdds v),
              look' t (with_fqdd_list fqdds v) held'
                  ∙ ap
                      (λ o. some (with_model (set_if with_related_list o (with_fqdd_list fqdds v))))
                      has_uris,
              listed-pairs (fqdd_pairs es) t fqdds has_fqdds,
              listed-pairs (uri_pairs es) t uris has_uris,
            )
      ],
    )
