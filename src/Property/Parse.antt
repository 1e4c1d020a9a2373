-- ===== src/Property/Parse.antt =====
-- RedfishResourceProperty.Parse: merges a plain value into the Value of a property, wrapping each
-- entry in a property of its own and turning "name@meta" keys into meta data.
use mathlib.Core.Option
use sailfish.Base.{String, false, Option, none, some, if◌then◌else◌, str_eq}
use sailfish.Property.{
  Value, Values, Fields, null, boolean, number, text, list, dict, prop, nil, cons, end, field,
}
use sailfish.Property.Access.{get, put, delete, append}

-- strings.HasSuffix with the slice before the suffix.
unfoldable pub strip_suffix : String → String → Option String
strip_suffix suffix String.[] = if str_eq "" suffix then some "" else none
strip_suffix suffix (String.◌∷◌ c s) =
    let rest = strip_suffix suffix s in
    if str_eq (String.◌∷◌ c s) suffix then some "" else Option.map (String.◌∷◌ c) rest

-- The map that entries are merged into: the present one, or a new one.
abbrev pub dict_of : Value → Fields
dict_of (dict fs) = fs
dict_of _ = end

-- The slice that items are appended to: the present one, or a new one.
abbrev pub list_of : Value → Values
list_of (list xs) = xs
list_of _ = nil

-- newEntry.Value, ok = vMap["DEFAULT"], the nil interface if there is none.
abbrev pub default_of : Option Value → Value
default_of none = null
default_of (some v) = v

-- The property that a "name@meta" key stands for; no entry is made where its value is no map.
unfoldable pub put_meta : String → Value → Fields → Fields
put_meta name (dict m) fs =
    put name (prop (default_of (get "DEFAULT" m)) (delete "DEFAULT" m) false) fs
put_meta name _ fs = fs

unfoldable pub put_entry : String → Option String → Value → Value → Fields → Fields
unfolding put_meta
put_entry key (some name) raw parsed fs = put_meta name raw fs
put_entry key none raw parsed fs = put key (prop parsed end false) fs

-- `parse current thing` is rrp.Value after rrp.ParseUnlocked(thing), with rrp.Value before.
unfoldable mutual
  pub parse : Value → Value → Value
  parse current (dict fs) = dict (parse_fields (dict_of current) fs)
  parse current (list xs) = list (parse_values (list_of current) xs)
  parse current null = null
  parse current (boolean b) = boolean b
  parse current (number n) = number n
  parse current (text s) = text s
  parse current (prop v m e) = prop v m e

  pub parse_fields : Fields → Fields → Fields
  parse_fields into end = into
  parse_fields into (field k v fs) =
      parse_fields (put_entry k (strip_suffix "@meta" k) v (parse null v) into) fs

  pub parse_values : Values → Values → Values
  parse_values into nil = into
  parse_values into (cons v vs) =
      parse_values (append into (cons (prop (parse null v) end false) nil)) vs
