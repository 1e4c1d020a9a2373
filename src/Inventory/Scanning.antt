-- ===== src/Inventory/Scanning.antt =====
-- What a scan of the firmware inventory meets, and its views and mappings where every view has its
-- default model.
use sailfish.Base.{
  Bool, Bool-cases, Dict, List, Option, Option-cases, String, [], ap, arith, false, if◌then◌else◌,
  inl, inr, insert, lookup, lookup-insert, none, refl, some, str_eq, subst, sym, true, ◌++◌, ◌>>=◌,
  ◌||◌, ◌∙◌, ◌∷◌, ◌≡◌,
}
use sailfish.Property.{Value}
use sailfish.Inventory.{
  Firmware, FirmwareView, Instance, Scanned, add_sorted, bare_view, comp_ver_tuple, no_view,
  read_firmware, refresh, scan_list, scan_model, scan_models, show_firmware, with_model,
}
use sailfish.Inventory.Listing.{Pairs, add_pairs, is_found, is_mentioned}

-- The URIs and firmwares that a scan meets.
abbrev pub Found : Type 0
Found = List (String × Firmware)

abbrev found_one : String → Option Firmware → Found
found_one uri none = []
found_one uri (some f) = (uri, f) ∷ []

abbrev found_in : (String → String → Bool) → String → List (Dict Value) → Found
found_in equal_fold uri [] = []
found_in equal_fold uri (m ∷ ms) =
    found_one uri (read_firmware equal_fold m) ++ found_in equal_fold uri ms

abbrev pub found : (String → String → Bool) → Dict (List (Dict Value)) → Found
found equal_fold [] = []
found equal_fold ((uri, ms) ∷ rest) = found_in equal_fold uri ms ++ found equal_fold rest

abbrev pub fqdd_pairs : Found → Pairs
fqdd_pairs [] = []
fqdd_pairs ((uri, f) ∷ es) = (comp_ver_tuple f, f.fqdd) ∷ fqdd_pairs es

abbrev pub uri_pairs : Found → Pairs
uri_pairs [] = []
uri_pairs ((uri, f) ∷ es) = (comp_ver_tuple f, uri) ∷ uri_pairs es

pub is_mentioned-uri_pairs :
    (t : String) (es : Found) → is_mentioned t (uri_pairs es) ≡ is_mentioned t (fqdd_pairs es)
is_mentioned-uri_pairs t [] = refl
is_mentioned-uri_pairs t ((uri, f) ∷ es) = rw (is_mentioned-uri_pairs t es) refl

-- An instance with a default model.
abbrev pub HasModel : Instance → Type 0
HasModel no_view = ⊥
HasModel bare_view = ⊥
HasModel (with_model v) = Unit

abbrev pub HaveModels : Dict Instance → Type 0
HaveModels views = (t : String) (i : Instance) → lookup t views ≡ some i → HasModel i

pub model-of : (i : Instance) → HasModel i → (v : FirmwareView) × (i ≡ with_model v)
model-of no_view h = absurd h
model-of bare_view h = absurd h
model-of (with_model v) h = (v, refl)

-- What a refreshed instance is, where it has a model.
keep : Firmware → Instance → Instance
unfolding refresh
keep f i = elim (refresh f i) [ none ↦ i | some j ↦ j ]

refresh-keep :
    (f : Firmware) (i : Instance)
    → HasModel i
    → (refresh f i ≡ some (keep f i)) × HasModel (keep f i)
unfolding refresh keep
refresh-keep f no_view h = absurd h
refresh-keep f bare_view h = absurd h
refresh-keep f (with_model v) h = (refl, tt)

pub found-at : {A : Type 0} (o : Option A) → is_found o ≡ true → (a : A) × (o ≡ some a)
found-at none h = absurd (cc h)
found-at (some a) h = (a, refl)

module _ (instantiate : Firmware → Instance) where
  shown_instance : Firmware → Option Instance → Instance
  shown_instance f none = instantiate f
  shown_instance f (some i) = keep f i

  -- The views after a firmware, where all have their models.
  shown : Firmware → Dict Instance → Dict Instance
  shown f views =
      insert (comp_ver_tuple f) (shown_instance f (lookup (comp_ver_tuple f) views)) views

  lookup-shown :
      (f : Firmware) (t : String) (views : Dict Instance)
      → lookup t (shown f views) ≡ (
          if str_eq (comp_ver_tuple f) t
          then some (shown_instance f (lookup (comp_ver_tuple f) views))
          else lookup t views)
  unfolding shown
  lookup-shown f t views = lookup-insert (comp_ver_tuple f) t _ views

  module _ (makes : (f : Firmware) → HasModel (instantiate f)) where
    shown_instance-HasModel :
        (f : Firmware) (o : Option Instance)
        → ((i : Instance) → o ≡ some i → HasModel i)
        → HasModel (shown_instance f o)
    unfolding shown_instance
    shown_instance-HasModel f none h = makes f
    shown_instance-HasModel f (some i) h = (refresh-keep f i (h i refl)).1

    shown-HaveModels :
        (f : Firmware) (views : Dict Instance) → HaveModels views → HaveModels (shown f views)
    shown-HaveModels f views h t i e = elim (Bool-cases (str_eq (comp_ver_tuple f) t)) [
      | inr b ↦ h t i (sym (lookup-shown f t views ∙ rw (b) refl) ∙ e)
      | inl b ↦
          let same : shown_instance f (lookup (comp_ver_tuple f) views) ≡ i =
            instance-injective _ i (sym (lookup-shown f t views ∙ rw (b) refl) ∙ e) in
          subst HasModel same
            (shown_instance-HasModel f (lookup (comp_ver_tuple f) views) (h (comp_ver_tuple f)))
    ]
      where
        instance-injective : (i j : Instance) → ◌≡◌ {A = Option Instance} (some i) (some j) → i ≡ j
        instance-injective i j h = cc h

    show_firmware-shown :
        (f : Firmware) (views : Dict Instance)
        → HaveModels views
        → show_firmware instantiate f views ≡ some (shown f views)
    unfolding show_firmware shown shown_instance
    show_firmware-shown f views h = elim (Option-cases (lookup (comp_ver_tuple f) views)) [
      | inl e ↦ rw (e, show_firmware) refl
      | inr (i, e) ↦
          rw (e, show_firmware) (rw ((refresh-keep f i (h (comp_ver_tuple f) i e)).0) refl)
    ]

  pub add_found : Found → Scanned → Scanned
  add_found [] s = s
  add_found ((uri, f) ∷ es) s = add_found es (record {
    views = shown f s.views;
    fqdd_mappings = add_sorted (comp_ver_tuple f) f.fqdd s.fqdd_mappings;
    uri_mappings = add_sorted (comp_ver_tuple f) uri s.uri_mappings;
  })

  add_found-append :
      (es ds : Found) (s : Scanned) → add_found (es ++ ds) s ≡ add_found ds (add_found es s)
  unfolding add_found
  add_found-append [] ds s = refl
  add_found-append ((uri, f) ∷ es) ds s = add_found-append es ds _

  pub fqdd_mappings-add_found :
      (es : Found) (s : Scanned)
      → (add_found es s).fqdd_mappings ≡ add_pairs (fqdd_pairs es) s.fqdd_mappings
  unfolding add_found
  fqdd_mappings-add_found [] s = refl
  fqdd_mappings-add_found ((uri, f) ∷ es) s = fqdd_mappings-add_found es _

  pub uri_mappings-add_found :
      (es : Found) (s : Scanned)
      → (add_found es s).uri_mappings ≡ add_pairs (uri_pairs es) s.uri_mappings
  unfolding add_found
  uri_mappings-add_found [] s = refl
  uri_mappings-add_found ((uri, f) ∷ es) s = uri_mappings-add_found es _

  pub views-add_found :
      (es : Found) (t : String) (s : Scanned)
      → is_mentioned t (fqdd_pairs es) ≡ false
      → lookup t (add_found es s).views ≡ lookup t s.views
  unfolding add_found
  views-add_found [] t s h = refl
  views-add_found ((uri, f) ∷ es) t s h =
      views-add_found es t _ (ground (arith, h)) ∙ ground (arith, h, lookup-shown f t s.views)

  is_found-shown :
      (f : Firmware) (t : String) (views : Dict Instance)
      → is_found (lookup t (shown f views))
        ≡ (is_found (lookup t views) || str_eq (comp_ver_tuple f) t)
  is_found-shown f t views =
      ap is_found (lookup-shown f t views) ∙ elim (Bool-cases (str_eq (comp_ver_tuple f) t)) [
        | inl b ↦ rw (b) (ground arith)
        | inr b ↦ rw (b) (ground arith)
      ]

  pub is_found-add_found :
      (es : Found) (t : String) (s : Scanned)
      → is_found (lookup t (add_found es s).views)
        ≡ (is_found (lookup t s.views) || is_mentioned t (fqdd_pairs es))
  unfolding add_found
  is_found-add_found [] t s = ground arith
  is_found-add_found ((uri, f) ∷ es) t s =
      is_found-add_found es t _ ∙ ground (arith, is_found-shown f t s.views)

  module _ (makes : (f : Firmware) → HasModel (instantiate f)) where
    pub add_found-HaveModels :
        (es : Found) (s : Scanned) → HaveModels s.views → HaveModels (add_found es s).views
    unfolding add_found
    add_found-HaveModels [] s h = h
    add_found-HaveModels ((uri, f) ∷ es) s h =
        add_found-HaveModels es _ (shown-HaveModels makes f s.views h)

    module _ (equal_fold : String → String → Bool) where
      scan_model-found :
          (uri : String) (m : Dict Value) (s : Scanned)
          → HaveModels s.views
          → scan_model equal_fold instantiate uri m s
            ≡ some (add_found (found_one uri (read_firmware equal_fold m)) s)
      unfolding scan_model add_found
      scan_model-found uri m s h = elim (Option-cases (read_firmware equal_fold m)) [
        | inl e ↦ rw (e, scan_model) refl
        | inr (f, e) ↦ rw (e, scan_model) (rw (show_firmware-shown makes f s.views h) refl)
      ]

      scan_models-found :
          (uri : String) (ms : List (Dict Value)) (s : Scanned)
          → HaveModels s.views
          → scan_models equal_fold instantiate uri ms s
            ≡ some (add_found (found_in equal_fold uri ms) s)
      unfolding scan_models add_found
      scan_models-found uri [] s h = refl
      scan_models-found uri (m ∷ ms) s h =
          let es : Found = found_one uri (read_firmware equal_fold m) in
          ap (λ o. o >>= λ next. scan_models equal_fold instantiate uri ms next)
            (scan_model-found uri m s h)
          ∙ (scan_models-found uri ms (add_found es s) (add_found-HaveModels es s h)
              ∙ ap some (sym (add_found-append es (found_in equal_fold uri ms) s)))

      pub scan_list-found :
          (l : Dict (List (Dict Value))) (s : Scanned)
          → HaveModels s.views
          → scan_list equal_fold instantiate l s ≡ some (add_found (found equal_fold l) s)
      unfolding scan_list add_found
      scan_list-found [] s h = refl
      scan_list-found ((uri, ms) ∷ rest) s h =
          let es : Found = found_in equal_fold uri ms in
          ap (λ o. o >>= λ next. scan_list equal_fold instantiate rest next)
            (scan_models-found uri ms s h)
          ∙ (scan_list-found rest (add_found es s) (add_found-HaveModels es s h)
              ∙ ap some (sym (add_found-append es (found equal_fold rest) s)))
