-- ===== src/Property/Merge.antt =====
-- What Parse leaves in a map that already has entries: the effect of a property update.
use mathlib.Core.Option
use sailfish.Base.{Option, String, arith, eq_iff, false, none, refl, some, ◌∙◌, ◌≡◌}
use sailfish.Property.{Fields, Value, end, field, null, prop}
use sailfish.Property.Access.{get, get-put, has, put}
use sailfish.Property.Parse.{parse, parse_fields, put_entry}
use sailfish.Property.Flatten.{flatten, flatten_fields}
use sailfish.Property.RoundTrip.{ArePlain, IsPlain, flatten-parse}

pub get-flatten :
    (j : String) (fs : Fields) → get j (flatten_fields fs) ≡ Option.map flatten (get j fs)
unfolding get flatten
get-flatten j end = refl
get-flatten j (field k v fs) = ground (arith, get-flatten j fs)

abbrev pub or_else : Option Value → Option Value → Option Value
or_else (some v) o = some v
or_else none o = o

get_new : (j : String) (fs : Fields) → has j fs ≡ false → get j fs ≡ none
unfolding get
get_new j end h = refl
get_new j (field k v fs) h = ground (arith, get_new j fs)

merge_step :
    (j k : String) (v : Value) (into fs : Fields)
    → has k fs ≡ false
    → IsPlain v
    → or_else (get j fs) (get j (flatten_fields (put k (prop (parse null v) end false) into)))
      ≡ or_else (get j (field k v fs)) (get j (flatten_fields into))
unfolding get flatten
merge_step j k v into fs new plain = ground (
  arith,
  get-flatten j (put k (prop (parse null v) end false) into),
  get-put k j (prop (parse null v) end false) into,
  get-flatten j into,
  get_new k fs,
  eq_iff k j,
  flatten-parse v plain,
)

-- After an update with plain data, a key of the data has its value there, and every other key
-- has the value that it had.
pub get-parse_fields :
    (j : String) (into fs : Fields)
    → ArePlain fs
    → get j (flatten_fields (parse_fields into fs))
      ≡ or_else (get j fs) (get j (flatten_fields into))
unfolding get parse put_entry
get-parse_fields j into end h = ground arith
get-parse_fields j into (field k v fs) h = rw (h.0) (
    get-parse_fields j (put k (prop (parse null v) end false) into) fs h.3
    ∙ merge_step j k v into fs h.1 h.2)
