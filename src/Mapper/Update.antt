-- ===== src/Mapper/Update.antt =====
-- The process function "govaluate_modelupdate" of
-- src/ocp/awesome_mapper2/functions-am3-process.go.
use sailfish.Base.{Dict, List, Option, String, [], delete, insert, none, some, ℕ, ◌>>=◌, ◌∷◌}
use sailfish.Property.{Value, null, text}
use sailfish.Models.{Model, perform, start_notifications, stop, update_property}

-- ConfigFileModelUpdate; a default of nil is null.
pub record ConfigFileModelUpdate : Type 0 where
  pub property : String
  pub query : String
  pub default : Value

-- ModelUpdate. The expression is evaluated on the parameters; none is an error. The functions that
-- expressions of this kind call are taken not to touch the model.
pub record ModelUpdate : Type 0 where
  pub property : String
  pub query_string : String
  pub query_expr : Dict Value → Option Value
  pub default_val : Value

-- The updates whose query the expression library can parse.
unfoldable pub parse_updates :
    (String → Option (Dict Value → Option Value)) → List ConfigFileModelUpdate → List ModelUpdate
parse_updates parser [] = []
parse_updates parser (u ∷ us) =
    let rest = parse_updates parser us in
    elim (parser u.query) [
      | none ↦ rest
      | some expr ↦
          record {
            property = u.property;
            query_string = u.query;
            query_expr = expr;
            default_val = u.default;
          }
          ∷ rest
    ]

-- The parameters of a mapper and its model.
pub record Mapped : Type 0 where
  pub params : Dict Value
  pub model : Model Value

-- mp.model.UpdateProperty(updates.property, val), mp.model.StartNotifications()
unfoldable pub set_and_start : ℕ → String → Value → Model Value → Option (Model Value)
unfolding perform
set_and_start n p v m = perform n (update_property p v) m >>= λ m'. perform n start_notifications m'

-- One update: on an error of the expression, the loop goes on to the next.
unfoldable pub update_one : ℕ → ModelUpdate → Mapped → Option Mapped
unfolding stop set_and_start
update_one n u mp =
    let params = insert "propname" (text u.property) mp.params in
    let stopped = stop mp.model in
    elim (u.query_expr params) [
      | none ↦ some (record { params = params; model = stopped })
      | some val ↦ set_and_start n u.property val stopped >>= λ m.
          some (record { params = params; model = m })
    ]

unfoldable pub update_each : ℕ → List ModelUpdate → Mapped → Option Mapped
unfolding update_one
update_each n [] mp = some mp
update_each n (u ∷ us) mp = elim (update_one n u mp) [
  | none ↦ none
  | some mp' ↦ update_each n us mp'
]

-- modelUpdateFn; n is the fuel of the model's notifications.
unfoldable pub model_update_fn : ℕ → List ModelUpdate → Mapped → Option Mapped
unfolding update_each
model_update_fn n us mp =
    update_each n us mp >>= λ mp'. some (record mp' { params = delete "propname" mp'.params })

-- The value that a property starts with.
unfoldable pub default_of : Value → Value
default_of null = text ""
default_of v = v

unfoldable pub default_each : ℕ → List ModelUpdate → Model Value → Option (Model Value)
unfolding perform default_of
default_each n [] m = some m
default_each n (u ∷ us) m =
    elim (perform n (update_property u.property (default_of u.default_val)) m) [
      | none ↦ none
      | some m' ↦ default_each n us m'
    ]

-- modelDefaultSetupFn, on a model that is there.
unfoldable pub model_default_setup_fn : ℕ → List ModelUpdate → Model Value → Option (Model Value)
unfolding default_each stop perform
model_default_setup_fn n us m =
    default_each n us (stop m) >>= λ m'. perform n start_notifications m'
