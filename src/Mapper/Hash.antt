-- ===== src/Mapper/Hash.antt =====
-- The table of rules, and the rule whose setup has failed.
use sailfish.Base.{
  Bool-cases, Dict, List, Option, String, [], ap, eq_iff, inl, inr, lookup, lookup-insert, none,
  refl, select, some, str_eq, sym, true, ◌++◌, ◌∙◌, ◌∷◌, ◌≡◌,
}
use sailfish.Mapper.Controller.{
  Bound, ConfigSection, MapperConfig, ProcessEntry, ProcessFn, add_mapping, add_mappings,
  add_sections, apply_mapping, bind, listed, mappings_for, rebuild, run_process_fns, setup_all,
  setup_process,
}
use mathlib.Core.List.{append_assoc, append-nil}

module _ {V W : Type 0} where
  -- All rules, section by section.
  abbrev pub all_mappings : Dict (ConfigSection V W) → List (MapperConfig V W)
  all_mappings [] = []
  all_mappings ((name, section) ∷ sections) = section.mappings ++ all_mappings sections

  -- The rules for a type of event.
  abbrev pub rules_for : String → List (MapperConfig V W) → List (MapperConfig V W)
  rules_for type ms = select (λ m. str_eq m.event_type type) ms

  mappings_for-add_mapping :
      (type : String) (m : MapperConfig V W) (hash : Dict (List (MapperConfig V W)))
      → mappings_for type (add_mapping m hash) ≡ mappings_for type hash ++ rules_for type (m ∷ [])
  unfolding mappings_for add_mapping
  mappings_for-add_mapping type m hash =
      ap listed
        (lookup-insert m.event_type type (listed (lookup m.event_type hash) ++ (m ∷ [])) hash)
      ∙ elim (Bool-cases (str_eq m.event_type type)) [
        | inl e ↦
            rw e (ap (λ t. listed (lookup t hash) ++ (m ∷ [])) ((eq_iff m.event_type type).0 e))
        | inr e ↦ rw e (sym (append-nil (listed (lookup type hash))))
      ]

  rules_for-append :
      (type : String) (ms ns : List (MapperConfig V W))
      → rules_for type (ms ++ ns) ≡ rules_for type ms ++ rules_for type ns
  rules_for-append type [] ns = refl
  rules_for-append type (m ∷ ms) ns = elim (Bool-cases (str_eq m.event_type type)) [
    | inl e ↦ rw (e, rules_for-append type ms ns) refl
    | inr e ↦ rw (e, rules_for-append type ms ns) refl
  ]

  mappings_for-add_mappings :
      (type : String) (ms : List (MapperConfig V W)) (hash : Dict (List (MapperConfig V W)))
      → mappings_for type (add_mappings ms hash) ≡ mappings_for type hash ++ rules_for type ms
  unfolding add_mappings
  mappings_for-add_mappings type [] hash = sym (append-nil (mappings_for type hash))
  mappings_for-add_mappings type (m ∷ ms) hash =
      mappings_for-add_mappings type ms (add_mapping m hash)
      ∙ (ap (λ l. l ++ rules_for type ms) (mappings_for-add_mapping type m hash)
          ∙ (append_assoc (mappings_for type hash) (rules_for type (m ∷ [])) (rules_for type ms)
              ∙ ap (λ l. mappings_for type hash ++ l) (sym (rules_for-append type (m ∷ []) ms))))

  mappings_for-add_sections :
      (type : String) (sections : Dict (ConfigSection V W)) (hash : Dict (List (MapperConfig V W)))
      → mappings_for type (add_sections sections hash)
        ≡ mappings_for type hash ++ rules_for type (all_mappings sections)
  unfolding add_sections
  mappings_for-add_sections type [] hash = sym (append-nil (mappings_for type hash))
  mappings_for-add_sections type ((name, section) ∷ sections) hash =
      mappings_for-add_sections type sections (add_mappings section.mappings hash)
      ∙ (ap (λ l. l ++ rules_for type (all_mappings sections))
            (mappings_for-add_mappings type section.mappings hash)
          ∙ (append_assoc (mappings_for type hash) (rules_for type section.mappings)
                (rules_for type (all_mappings sections))
              ∙ ap (λ l. mappings_for type hash ++ l)
                  (sym (rules_for-append type section.mappings (all_mappings sections)))))

  -- The table that is built anew gives, for each type of event, exactly the rules of all sections
  -- that are for this type, in the order of the sections and of the rules in each.
  pub mappings_for-rebuild :
      (type : String) (sections : Dict (ConfigSection V W))
      → mappings_for type (rebuild sections) ≡ rules_for type (all_mappings sections)
  unfolding rebuild mappings_for lookup
  mappings_for-rebuild type sections = mappings_for-add_sections type sections []

module _ {C V W : Type 0} (setup_process_funcs : Dict (C → Option (ProcessFn V W))) where
  run_process_fns-nil :
      (fns gns : List (Option (ProcessFn V W))) (params : Dict V) (w : W)
      → run_process_fns (fns ++ (none ∷ gns)) params w ≡ none
  unfolding run_process_fns
  run_process_fns-nil [] gns params w = refl
  run_process_fns-nil (none ∷ fns) gns params w = refl
  run_process_fns-nil (some fn ∷ fns) gns params w =
      run_process_fns-nil fns gns (fn params w).0 (fn params w).1

  setup_all-append :
      (es fs : List (ProcessEntry C))
      → setup_all setup_process_funcs (es ++ fs)
        ≡ setup_all setup_process_funcs es ++ setup_all setup_process_funcs fs
  unfolding setup_all
  setup_all-append [] fs = refl
  setup_all-append (e ∷ es) fs =
      ap (λ l. setup_process setup_process_funcs e ++ l) (setup_all-append es fs)
      ∙ sym (
          append_assoc (setup_process setup_process_funcs e) (setup_all setup_process_funcs es)
            (setup_all setup_process_funcs fs))

  -- A rule of whose process functions one has failed its setup, with a name and parameters in the
  -- configuration: the failure is not noticed then, and the first event that the rule selects makes
  -- the program call nil and panic.
  pub apply_mapping-nil :
      (es fs : List (ProcessEntry C)) (name : String) (params : C)
      (setup : C → Option (ProcessFn V W)) (m : MapperConfig V W) (b : Bound V) (bound : Dict V)
      (w : W)
      → lookup name setup_process_funcs ≡ some setup
      → setup params ≡ none
      → m.process_fn
        ≡ setup_all setup_process_funcs
            (es ++ (record { name = some name; params = some params } ∷ fs))
      → m.select_fn (bind b bound) ≡ some true
      → apply_mapping b m bound w ≡ none
  unfolding apply_mapping setup_all setup_process
  apply_mapping-nil es fs name params setup m b bound w found fails built selects =
      let entry : ProcessEntry C = record { name = some name; params = some params } in
      let one : setup_process setup_process_funcs entry ≡ none ∷ [] =
        rw (found, setup_process, fails) refl in
      let list : m.process_fn
          ≡ setup_all setup_process_funcs es ++ (none ∷ setup_all setup_process_funcs fs) =
        built
        ∙ (setup_all-append es (entry ∷ fs)
            ∙ ap (λ l. setup_all setup_process_funcs es ++ (l ++ setup_all setup_process_funcs fs))
                one) in
      rw
        (
          selects,
          apply_mapping,
          list,
          run_process_fns-nil (setup_all setup_process_funcs es) (setup_all setup_process_funcs fs)
              (bind b bound) w,
        )
        refl
