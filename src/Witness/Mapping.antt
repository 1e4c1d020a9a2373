-- ===== src/Witness/Mapping.antt =====
-- Rules of the mapper on small models and configurations.
use sailfish.Base.{
  Dict, List, Option, [], lookup, none, pos, refl, some, str_eq, true, ℕ, ◌++◌, ◌==◌, ◌∷◌, ◌≡◌,
}
use sailfish.Property.{Value, null, number, text}
use sailfish.Models.{Model, Observer, add_observer, new_model}
use sailfish.Mapper.Update.{Mapped, ModelUpdate}
use sailfish.Mapper.Sets.{match_idx, remove_from_set, strings}
use sailfish.Mapper.Aliasing.{remove_from_set-found}
use sailfish.Mapper.Power.{Floats}
use sailfish.Mapper.Controller.{
  Bound, ConfigSection, MapperConfig, ProcessFn, apply_mapping, mappings_for, rebuild, setup_all,
}
use sailfish.Mapper.Hash.{apply_mapping-nil, mappings_for-rebuild}

-- An observer that answers with nothing.
abbrev quiet : Observer Value
quiet ps us = []

abbrev watched : Model Value
watched = add_observer "quiet" quiet new_model

abbrev mapped : Mapped
mapped = record { params = []; model = watched }

abbrev fails_after_one : List ModelUpdate
fails_after_one =
    record {
      property = "health";
      query_string = "'OK'";
      query_expr = λ ps. some (text "OK");
      default_val = null;
    }
    ∷ record {
      property = "power";
      query_string = "missing";
      query_expr = λ ps. none;
      default_val = null;
    }
    ∷ []

b_second : match_idx "b" ("a" ∷ "b" ∷ "c" ∷ []) ≡ some 1
unfolding match_idx
b_second = refl

-- The property is left with "c" twice.
remove_from_set-found_example :
    ((remove_from_set (some (strings ("a" ∷ "b" ∷ "c" ∷ []))) "b").result ≡ "a" ∷ "c" ∷ [])
    × ((remove_from_set (some (strings ("a" ∷ "b" ∷ "c" ∷ []))) "b").held
        ≡ some (strings ("a" ∷ "c" ∷ "c" ∷ [])))
remove_from_set-found_example = remove_from_set-found ("a" ∷ "b" ∷ "c" ∷ []) "b" 1 b_second

abbrev no_rule : MapperConfig ℕ ℕ
no_rule = record {
  event_type = "Created";
  select_fn = λ ps. some true;
  process_fn = none ∷ [];
  cfg = "fans";
}

abbrev fans : Dict (ConfigSection ℕ ℕ)
fans = ("fans", record { parameters = []; mappings = no_rule ∷ no_rule ∷ [] }) ∷ []

mappings_for-rebuild_example : mappings_for "Created" (rebuild fans) ≡ no_rule ∷ no_rule ∷ []
mappings_for-rebuild_example = mappings_for-rebuild "Created" fans

abbrev failing_setup : ℕ → Option (ProcessFn ℕ ℕ)
failing_setup n = none

abbrev setups : Dict (ℕ → Option (ProcessFn ℕ ℕ))
setups = ("govaluate_exec", failing_setup) ∷ []

setup_there : lookup "govaluate_exec" setups ≡ some failing_setup
unfolding lookup
setup_there = refl

abbrev bound_zero : Bound ℕ
bound_zero = record {
  cfg_params = 0;
  type = 0;
  data_value = 0;
  event = 0;
  model = 0;
  postprocs = 0;
}

setup_nil :
    no_rule.process_fn
    ≡ setup_all setups ([] ++ (record { name = some "govaluate_exec"; params = some 0 } ∷ []))
unfolding setup_all lookup
setup_nil = refl

apply_mapping-nil_example : apply_mapping bound_zero no_rule [] 0 ≡ none
apply_mapping-nil_example =
    apply_mapping-nil setups [] [] "govaluate_exec" 0 failing_setup no_rule bound_zero [] 0
      setup_there refl setup_nil refl

abbrev no_floats : Floats ℕ
no_floats = record {
  is_zero = λ n. n == 0;
  reparse = λ n. some n;
  as_value = λ n. number (pos n);
  date = λ n. "";
  equal_fold = str_eq;
  itoa = λ n. "";
}
