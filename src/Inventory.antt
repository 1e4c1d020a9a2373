-- ===== src/Inventory.antt =====
-- The firmware inventory of src/dell-ec/lcl.go: the goroutine of initLCL's swinv functions reads the
-- models that it knows and shows each version of a component once.
pub mod Listing
pub mod Scanning
pub mod Setting
pub mod Showing
use Prim.Native.Char.{code}
use sailfish.Base.{
  Bool, Dict, List, Option, String, [], false, if◌then◌else◌, insert, lookup, ltb, none, not, some,
  str_eq, true, ◌++◌, ◌-◌, ◌<>◌, ◌==◌, ◌>>=◌, ◌||◌, ◌∷◌,
}
use sailfish.Property.{Value, text}
use sailfish.Faults.{in_array}

-- What the loop reads of a model that it does not pass over.
pub record Firmware : Type 0 where
  pub fqdd : String
  pub device_class : String
  pub version : String
  pub updateable : Bool
  pub install_date : String
  pub name : String

-- The default model of a firmware_instance view.
pub record FirmwareView : Type 0 where
  pub view_name : String
  pub view_version : String
  pub view_updateable : Bool
  pub view_install_date : String
  pub view_id : String
  pub fqdd_list : List String
  pub related_list : List String

unfoldable pub text_of : Option Value → Option String
text_of (some (text s)) = some s
text_of v = none

-- A property that has to be a text, neither empty nor "unknown".
unfoldable pub known_text : String → Dict Value → Option String
unfolding text_of lookup
known_text key m = elim (text_of (lookup key m)) [
  | none ↦ none
  | some s ↦ if str_eq s "" || str_eq s "unknown" then none else some s
]

-- installDate
unfoldable pub install_date_of : Option Value → Option String
unfolding text_of
install_date_of v = elim (text_of v) [
  | none ↦ none
  | some s ↦
      if str_eq s "unknown"
      then none
      else if str_eq s ""
      then some "1970-01-01T00:00:00Z"
      else some s
]

-- updateableStr, _ := updateableRaw.(string)
unfoldable pub string_or_empty : Value → String
string_or_empty (text s) = s
string_or_empty v = ""

-- sort.Strings: the order of Go's strings, which is that of their characters' numbers.
unfoldable pub str_less : String → String → Bool
str_less String.[] String.[] = false
str_less String.[] (String.◌∷◌ d t) = true
str_less (String.◌∷◌ c s) String.[] = false
str_less (String.◌∷◌ c s) (String.◌∷◌ d t) =
    let rest = str_less s t in if code c == code d then rest else ltb (code c) (code d)

unfoldable pub insert_string : String → List String → List String
unfolding str_less
insert_string x [] = x ∷ []
insert_string x (y ∷ ys) =
    let rest = insert_string x ys in if str_less y x then y ∷ rest else x ∷ y ∷ ys

unfoldable pub sort_strings : List String → List String
unfolding insert_string
sort_strings [] = []
sort_strings (x ∷ xs) = insert_string x (sort_strings xs)

abbrev pub listed_at : Option (List String) → List String
listed_at none = []
listed_at (some arr) = arr

-- if !in_array(x, arr) { arr = append(arr, x); sort.Strings(arr); d[key] = arr }
unfoldable pub add_sorted : String → String → Dict (List String) → Dict (List String)
unfolding lookup insert in_array sort_strings
add_sorted key x d =
    let arr = listed_at (lookup key d) in
    if not (in_array x arr) then insert key (sort_strings (arr ++ (x ∷ []))) d else d

unfoldable pub comp_ver_tuple : Firmware → String
comp_ver_tuple f = "Installed-" <> (f.device_class <> ("-" <> f.version))

-- What Instantiate gives for a firmware_instance: no view if the configuration cannot be read, a view
-- without a default model if the configuration has none, or a view with its model.
pub data Instance : Type 0 where
  no_view bare_view : Instance
  with_model : FirmwareView → Instance

-- The updates of a view that is there already; without a model they panic.
unfoldable pub refresh : Firmware → Instance → Option Instance
refresh f no_view = none
refresh f bare_view = none
refresh f (with_model v) = some (
    with_model (record v {
      view_install_date = f.install_date;
      view_updateable = f.updateable;
      view_name = f.name;
    }))

-- firmwareInventoryViews, after a model; none is a panic. The error of Instantiate is dropped.
unfoldable pub show_firmware :
    (Firmware → Instance) → Firmware → Dict Instance → Option (Dict Instance)
unfolding comp_ver_tuple lookup insert refresh
show_firmware instantiate f views = elim (lookup (comp_ver_tuple f) views) [
  | none ↦ some (insert (comp_ver_tuple f) (instantiate f) views)
  | some i ↦ refresh f i >>= λ kept. some (insert (comp_ver_tuple f) kept views)
]

-- The variables of a scan.
pub record Scanned : Type 0 where
  pub views : Dict Instance
  pub fqdd_mappings : Dict (List String)
  pub uri_mappings : Dict (List String)

-- `equal_fold` is strings.EqualFold.
module _ (equal_fold : String → String → Bool) where
  unfoldable pub updateable_of : String → Option Bool
  updateable_of s =
      if equal_fold s "Yes" || equal_fold s "True"
      then some true
      else if str_eq s "unknown"
      then none
      else some false

  -- One model; none is a continue.
  unfoldable pub read_firmware : Dict Value → Option Firmware
  unfolding known_text updateable_of install_date_of string_or_empty lookup
  read_firmware m = do
    fqdd ← known_text "fw_fqdd" m
    class ← known_text "fw_device_class" m
    version ← known_text "fw_version" m
    raw ← lookup "fw_updateable" m
    updateable ← updateable_of (string_or_empty raw)
    date ← install_date_of (lookup "fw_install_date" m)
    name ← known_text "fw_name" m
    some (record {
      fqdd = fqdd;
      device_class = class;
      version = version;
      updateable = updateable;
      install_date = date;
      name = name;
    })

  module _ (instantiate : Firmware → Instance) where
    unfoldable pub scan_model : String → Dict Value → Scanned → Option Scanned
    unfolding read_firmware show_firmware add_sorted comp_ver_tuple
    scan_model uri m s = elim (read_firmware m) [
      | none ↦ some s
      | some f ↦ show_firmware instantiate f s.views >>= λ shown. some (record {
        views = shown;
        fqdd_mappings = add_sorted (comp_ver_tuple f) f.fqdd s.fqdd_mappings;
        uri_mappings = add_sorted (comp_ver_tuple f) uri s.uri_mappings;
      })
    ]

    unfoldable pub scan_models : String → List (Dict Value) → Scanned → Option Scanned
    unfolding scan_model
    scan_models uri [] s = some s
    scan_models uri (m ∷ ms) s = scan_model uri m s >>= λ next. scan_models uri ms next

    -- for uri, mdls := range swinvList
    unfoldable pub scan_list : Dict (List (Dict Value)) → Scanned → Option Scanned
    unfolding scan_models
    scan_list [] s = some s
    scan_list ((uri, ms) ∷ rest) s = scan_models uri ms s >>= λ next. scan_list rest next

-- The update of one view; none is the panic of a view or a model that is not there.
unfoldable pub set_view :
    (List String → Instance → Option Instance)
    → String
    → List String
    → Dict Instance
    → Option (Dict Instance)
unfolding lookup insert
set_view set key arr views = elim (lookup key views) [
  | none ↦ none
  | some i ↦ set arr i >>= λ updated. some (insert key updated views)
]

-- One of the loops over the mappings, which start at the end of the list.
unfoldable pub set_views :
    (List String → Instance → Option Instance)
    → Dict (List String)
    → Dict Instance
    → Option (Dict Instance)
unfolding set_view
set_views set [] views = some views
set_views set ((key, arr) ∷ rest) views = do
  later ← set_views set rest views
  set_view set key arr later

-- The first loop passes over a view without a model.
unfoldable pub set_fqdds : List String → Instance → Option Instance
set_fqdds arr no_view = none
set_fqdds arr bare_view = some bare_view
set_fqdds arr (with_model v) = some (with_model (record v { fqdd_list = arr }))

-- The second does not.
unfoldable pub set_related : List String → Instance → Option Instance
set_related arr no_view = none
set_related arr bare_view = none
set_related arr (with_model v) = some (with_model (record v { related_list = arr }))

-- What the goroutine does after a trigger.
unfoldable pub scan_inventory :
    (String → String → Bool)
    → (Firmware → Instance)
    → Dict (List (Dict Value))
    → Dict Instance
    → Option (Dict Instance)
unfolding scan_list set_views set_fqdds set_related
scan_inventory equal_fold instantiate swinv_list views = do
  s ←
      scan_list equal_fold instantiate swinv_list
        (record { views = views; fqdd_mappings = []; uri_mappings = [] })
  with_fqdds ← set_views set_fqdds s.fqdd_mappings s.views
  set_views set_related s.uri_mappings with_fqdds
