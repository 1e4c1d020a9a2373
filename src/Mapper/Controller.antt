-- ===== src/Mapper/Controller.antt =====
-- src/ocp/awesome_mapper2/controller.go: the setup of the process functions of a rule, the table of
-- rules by event type, and what an event of the bus sets off.
use sailfish.Base.{
  Bool, Dict, List, Option, String, [], delete, false, insert, lookup, none, some, true, ◌++◌, ◌∷◌,
}

-- A process function: it may change its parameters and the rest of the program, and says whether it
-- fails, which is only logged.
abbrev pub ProcessFn : Type 0 → Type 0 → Type 0
ProcessFn V W = Dict V → W → Dict V × W × Bool

-- The values that a rule is given of one event, and those of its own parameters and model.
pub record Bound (V : Type 0) : Type 0 where
  pub cfg_params : V
  pub type : V
  pub data_value : V
  pub event : V
  pub model : V
  pub postprocs : V

-- MapperConfig; `cfg` is the name of its section. A process function may be nil.
pub record MapperConfig (V W : Type 0) : Type 0 where
  pub event_type : String
  pub select_fn : Dict V → Option Bool
  pub process_fn : List (Option (ProcessFn V W))
  pub cfg : String

-- ConfigSection
pub record ConfigSection (V W : Type 0) : Type 0 where
  pub parameters : Dict (Dict V)
  pub mappings : List (MapperConfig V W)

-- An entry of the list of process functions in the configuration: its name and its parameters, if
-- they are there.
pub record ProcessEntry (C : Type 0) : Type 0 where
  pub name : Option String
  pub params : Option C

module _ {C V W : Type 0} (setup_process_funcs : Dict (C → Option (ProcessFn V W))) where
  -- What one entry adds: nothing, or the function that its setup returns, which is nil if the setup
  -- fails: the test after the setup looks at the `ok` of the look-up and not at the error.
  unfoldable pub setup_process : ProcessEntry C → List (Option (ProcessFn V W))
  unfolding lookup
  setup_process e = elim e.name [
    | none ↦ []
    | some name ↦ elim e.params [
      | none ↦ []
      | some params ↦ elim (lookup name setup_process_funcs) [
        | none ↦ []
        | some setup ↦ setup params ∷ []
      ]
    ]
  ]

  unfoldable pub setup_all : List (ProcessEntry C) → List (Option (ProcessFn V W))
  unfolding setup_process
  setup_all [] = []
  setup_all (e ∷ es) = setup_process e ++ setup_all es

module _ {V : Type 0} where
  -- parameters.Params[...] = ...
  unfoldable pub bind : Bound V → Dict V → Dict V
  unfolding insert
  bind b params = insert "postprocs" b.postprocs (
      insert "model" b.model (
        insert "event" b.event (
          insert "data" b.data_value
            (insert "type" b.type (insert "cfg_params" b.cfg_params params)))))

  unfoldable pub cleanup : Dict V → Dict V
  unfolding delete
  cleanup params = delete "model" (delete "event" (delete "data" params))

-- The slice at a key, the empty one if there is none.
abbrev pub listed {ℓ} : {A : Type ℓ} → Option (List A) → List A
listed none = []
listed (some ms) = ms

module _ {V W : Type 0} where
  -- s.hash[singleMapping.eventType] = append(typeArray, singleMapping)
  unfoldable pub add_mapping :
      MapperConfig V W → Dict (List (MapperConfig V W)) → Dict (List (MapperConfig V W))
  unfolding lookup insert
  add_mapping m hash = insert m.event_type (listed (lookup m.event_type hash) ++ (m ∷ [])) hash

  unfoldable pub add_mappings :
      List (MapperConfig V W) → Dict (List (MapperConfig V W)) → Dict (List (MapperConfig V W))
  unfolding add_mapping
  add_mappings [] hash = hash
  add_mappings (m ∷ ms) hash = add_mappings ms (add_mapping m hash)

  unfoldable pub add_sections :
      Dict (ConfigSection V W) → Dict (List (MapperConfig V W)) → Dict (List (MapperConfig V W))
  unfolding add_mappings
  add_sections [] hash = hash
  add_sections ((name, section) ∷ sections) hash =
      add_sections sections (add_mappings section.mappings hash)

  -- The table is emptied and built anew from all the sections.
  unfoldable pub rebuild : Dict (ConfigSection V W) → Dict (List (MapperConfig V W))
  unfolding add_sections
  rebuild sections = add_sections sections []

  -- The process functions one after another; none is the panic of a call of nil.
  unfoldable pub run_process_fns : List (Option (ProcessFn V W)) → Dict V → W → Option (Dict V × W)
  run_process_fns [] params w = some (params, w)
  run_process_fns (none ∷ fns) params w = none
  run_process_fns (some fn ∷ fns) params w = let r = fn params w in run_process_fns fns r.0 r.1

  -- One rule on one set of parameters.
  unfoldable pub apply_mapping : Bound V → MapperConfig V W → Dict V → W → Option (Dict V × W)
  unfolding bind cleanup run_process_fns
  apply_mapping b m params w =
      let bound = bind b params in
      elim (m.select_fn bound) [
        | none ↦ some (cleanup bound, w)
        | some false ↦ some (cleanup bound, w)
        | some true ↦ elim (run_process_fns m.process_fn bound w) [
          | none ↦ none
          | some r ↦ some (cleanup r.0, r.1)
        ]
      ]

  -- for cfgName, parameters := range mapping.cfg.parameters; `bounds` gives the values that belong
  -- to a set of parameters.
  unfoldable pub apply_to_each :
      (String → Bound V) → MapperConfig V W → Dict (Dict V) → W → Option (Dict (Dict V) × W)
  unfolding apply_mapping
  apply_to_each bounds m [] w = some ([], w)
  apply_to_each bounds m ((name, params) ∷ rest) w = elim (apply_mapping (bounds name) m params w) [
    | none ↦ none
    | some r ↦ elim (apply_to_each bounds m rest r.1) [
      | none ↦ none
      | some q ↦ some ((name, r.0) ∷ q.0, q.1)
    ]
  ]

  -- One rule on its section, whose parameters other rules of the section see changed.
  unfoldable pub apply_to_section :
      (String → Bound V)
      → MapperConfig V W
      → Dict (ConfigSection V W)
      → W
      → Option (Dict (ConfigSection V W) × W)
  unfolding apply_to_each lookup insert
  apply_to_section bounds m sections w = elim (lookup m.cfg sections) [
    | none ↦ some (sections, w)
    | some section ↦ elim (apply_to_each bounds m section.parameters w) [
      | none ↦ none
      | some r ↦ some (insert m.cfg (record section { parameters = r.0 }) sections, r.1)
    ]
  ]

  unfoldable pub apply_all :
      (String → Bound V)
      → List (MapperConfig V W)
      → Dict (ConfigSection V W)
      → W
      → Option (Dict (ConfigSection V W) × W)
  unfolding apply_to_section
  apply_all bounds [] sections w = some (sections, w)
  apply_all bounds (m ∷ ms) sections w = elim (apply_to_section bounds m sections w) [
    | none ↦ none
    | some r ↦ apply_all bounds ms r.0 r.1
  ]

  -- The rules that an event of a type sets off.
  unfoldable pub mappings_for : String → Dict (List (MapperConfig V W)) → List (MapperConfig V W)
  unfolding lookup
  mappings_for type hash = listed (lookup type hash)

  unfoldable pub process_event :
      String
      → (String → Bound V)
      → Dict (List (MapperConfig V W))
      → Dict (ConfigSection V W)
      → W
      → Option (Dict (ConfigSection V W) × W)
  unfolding mappings_for apply_all
  process_event type bounds hash sections w = apply_all bounds (mappings_for type hash) sections w
