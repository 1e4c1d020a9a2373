-- ===== src/Mapper/Convert.antt =====
-- The conversions of src/ocp/awesome_mapper2: functions of expressions (functions.go), conversion
-- functions and helpers of process functions (functions-am3-process.go).
use sailfish.Base.{
  Bool, Dict, List, Option, String, [], arith, eqb_ℤ, false, if◌then◌else◌, lookup, negsuc, none,
  not, pos, refl, some, str_eq, true, ℤ, ◌<>◌, ◌==◌, ◌||◌, ◌∷◌, ◌≡◌,
}
use sailfish.Property.{Value, null, number, text}
use sailfish.Query.Text.{contains}

-- get_health
unfoldable pub get_health : ℤ → Value
get_health (negsuc n) = null
get_health (pos n) =
    if n == 0 || n == 1
    then null
    else if n == 2
    then text "OK"
    else if n == 3
    then text "Warning"
    else if n == 4 || n == 5
    then text "Critical"
    else null

-- "map_health_value", on the number that its argument is cut to; none is its error.
unfoldable pub map_health_value : ℤ → Option Value
map_health_value (negsuc n) = none
map_health_value (pos n) =
    if n == 0 || n == 1
    then some null
    else if n == 2
    then some (text "OK")
    else if n == 3
    then some (text "Warning")
    else if n == 4 || n == 5
    then some (text "Critical")
    else none

-- zero2null
unfoldable pub zero2null : ℤ → Value
zero2null n = if eqb_ℤ n (pos 0) then null else number n

-- "map_chassis_state"
unfoldable pub map_chassis_state : String → Value
map_chassis_state s =
    if str_eq s "Chassis Standby Power State"
    then text "Off"
    else if str_eq s "Chassis Power On State"
    then text "On"
    else if str_eq s "Chassis Powering On State"
    then text "PoweringOn"
    else if str_eq s "Chassis Powering Off State"
    then text "PoweringOff"
    else null

-- value.(string), with the empty text where it is none.
unfoldable pub as_text : Value → String × Bool
as_text (text s) = (s, true)
as_text v = ("", false)

-- The conversion "map_power_state".
unfoldable pub map_power_state : Value → Value × Bool
unfolding as_text
map_power_state v =
    let (s, ok) = as_text v in
    if str_eq s "Chassis Standby Power State"
    then (text "Off", ok)
    else if str_eq s "Chassis Power On State"
    then (text "On", ok)
    else if str_eq s "Chassis Powering On State"
    then (text "PoweringOn", ok)
    else if str_eq s "Chassis Powering Off State"
    then (text "PoweringOff", ok)
    else (text "", ok)

-- The conversion "empty_to_null".
unfoldable pub empty_to_null : Value → Value × Bool
empty_to_null (text s) = if str_eq s "" then (null, true) else (text s, true)
empty_to_null v = (v, true)

-- strings.EqualFold and the decimal form of an int are parameters.
module _ (equal_fold : String → String → Bool) (itoa : ℤ → String) where
  -- The conversion "map_task_state".
  unfoldable pub map_task_state : Value → Value × Bool
  unfolding as_text
  map_task_state v =
      let (s, ok) = as_text v in
      if equal_fold s "Completed"
      then (text "Completed", ok)
      else if equal_fold s "Interrupted"
      then (text "Interrupted", ok)
      else (text "Running", ok)

  -- The conversion "value_to_string", whose numbers are ints here.
  unfoldable pub value_to_string : Value → Value × Bool
  value_to_string (number n) = (text (itoa n), true)
  value_to_string (text s) = (text s, true)
  value_to_string v = (null, false)

  -- setupConvFuncs; none is a name that is not there, whose call panics.
  unfoldable pub setup_conv_funcs : String → Option (Value → Value × Bool)
  unfolding value_to_string map_task_state
  setup_conv_funcs name =
      if str_eq name "value_to_string"
      then some value_to_string
      else if str_eq name "empty_to_null"
      then some empty_to_null
      else if str_eq name "map_task_state"
      then some map_task_state
      else if str_eq name "map_power_state"
      then some map_power_state
      else none

-- nohash
unfoldable pub nohash : String → Bool
nohash uri = not (contains "#" uri)

-- A parameter of the rule that is a text stands for itself; any other name stands for the name.
unfoldable pub component : Dict Value → String → String
component params v = elim (lookup v params) [
  | none ↦ v
  | some x ↦ (let (s, ok) = as_text x in if ok then s else v)
]

-- makeRHS
unfoldable pub make_rhs : Dict Value → List String → String
unfolding component
make_rhs params [] = ""
make_rhs params (v ∷ vs) = component params v <> make_rhs params vs

-- The data of an event that a rule looks at: the URI of a creation or a removal, or something else.
pub data UriData : Type 0 where
  resource_uri : String → UriData
  unknown_data : UriData

-- The parameters under "cfg_params", if they are there; `dir` is path.Dir.
module _ (dir : String → String) where
  -- "uriCheckWithHash"; none is its error.
  unfoldable pub uri_check_with_hash : List String → Option (Dict Value) → UriData → Option Bool
  unfolding make_rhs
  uri_check_with_hash select_params cfg_params unknown_data = none
  uri_check_with_hash select_params none (resource_uri uri) = none
  uri_check_with_hash select_params (some params) (resource_uri uri) =
      some (str_eq (dir uri) (make_rhs params select_params))

  -- "uriCheckNoHash"
  unfoldable pub uri_check_no_hash : List String → Option (Dict Value) → UriData → Option Bool
  unfolding make_rhs nohash
  uri_check_no_hash select_params cfg_params unknown_data = none
  uri_check_no_hash select_params cfg_params (resource_uri uri) =
      if not (nohash uri) then some false else elim cfg_params [
        | none ↦ none
        | some params ↦ some (str_eq (dir uri) (make_rhs params select_params))
      ]

-- The two copies of the table of health values agree where the first has no error: there are errors
-- exactly for numbers below 0 and above 5, for which the second one gives nil.
pub map_health_value-get_health :
    (n : ℤ) → get_health n ≡ (elim (map_health_value n) [ none ↦ null | some v ↦ v ])
unfolding get_health map_health_value
map_health_value-get_health (negsuc n) = refl
map_health_value-get_health (pos n) = ground arith

-- Where the rule on URIs without a hash has an answer, it is that of the rule with a hash, but
-- false for every URI with a hash.
pub uri_check_no_hash-with_hash :
    (dir : String → String) (select_params : List String) (params : Dict Value) (uri : String)
    → uri_check_no_hash dir select_params (some params) (resource_uri uri) ≡ (
        if nohash uri
        then uri_check_with_hash dir select_params (some params) (resource_uri uri)
        else some false)
unfolding uri_check_no_hash uri_check_with_hash
uri_check_no_hash-with_hash dir select_params params uri = ground arith
