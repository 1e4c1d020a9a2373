-- ===== src/Resource/Immutable.antt =====
-- What a creation and an update leave in a resource: the three immutable properties, and the
-- others.
use sailfish.Property.Access.{delete, get, get-delete, get-put, has}
use sailfish.Base.{
  Bool, Bool-cases, List, Option, String, [], arith, eq_iff, false, if◌then◌else◌, inl, inr, none,
  refl, some, str_eq, ◌||◌, ◌∙◌, ◌∷◌, ◌≡◌, ◌≢◌,
}
use sailfish.Property.{Fields, Value, dict, end, field, prop, text}
use sailfish.Property.Parse.{default_of, dict_of, parse, parse_fields, put_entry, strip_suffix}
use sailfish.Property.Flatten.{flatten, flatten_fields}
use sailfish.Property.RoundTrip.{ArePlain}
use sailfish.Property.Merge.{get-flatten, get-parse_fields, or_else}
use sailfish.Resource.{Aggregate}
use sailfish.Resource.Escape.{escape_uri}
use sailfish.Resource.Commands.{
  CreateRedfishResource, created, created_value, done, failed, handle_create, handle_update,
  immutable_properties, without_immutable,
}

has-delete : (k j : String) (fs : Fields) → has j fs ≡ false → has j (delete k fs) ≡ false
unfolding delete
has-delete k j end h = refl
has-delete k j (field i v fs) h = ground (arith, has-delete k j fs)

delete-ArePlain : (k : String) (fs : Fields) → ArePlain fs → ArePlain (delete k fs)
unfolding delete
delete-ArePlain k end h = tt
delete-ArePlain k (field j v fs) h = elim (Bool-cases (str_eq j k)) [
  | inl e ↦ rw e (delete-ArePlain k fs h.3)
  | inr e ↦ rw e (h.0, has-delete k j fs h.1, h.2, delete-ArePlain k fs h.3)
]

without_immutable-ArePlain :
    (ps : List String) (fs : Fields) → ArePlain fs → ArePlain (without_immutable ps fs)
unfolding without_immutable
without_immutable-ArePlain [] fs h = h
without_immutable-ArePlain (p ∷ ps) fs h =
    without_immutable-ArePlain ps (delete p fs) (delete-ArePlain p fs h)

abbrev pub is_one_of : String → List String → Bool
is_one_of k [] = false
is_one_of k (p ∷ ps) = str_eq p k || is_one_of k ps

get-without_immutable :
    (k : String) (ps : List String) (fs : Fields)
    → get k (without_immutable ps fs) ≡ (if is_one_of k ps then none else get k fs)
unfolding without_immutable
get-without_immutable k [] fs = refl
get-without_immutable k (p ∷ ps) fs =
    get-without_immutable k ps (delete p fs) ∙ ground (arith, get-delete p k fs)

-- The plain value of a property of a resource.
abbrev pub property_value : String → Value → Option Value
property_value k v = get k (dict_of (flatten v))

-- An update with plain data, of a resource whose value is a map, leaves the immutable properties as
-- they are, sets each other property that the data names to its value there, and leaves the rest as
-- it is.
pub property_value-handle_update :
    (a : Aggregate) (fs properties : Fields) (k : String)
    → a.value ≡ dict fs
    → ArePlain properties
    → (b : Aggregate) × (handle_update properties a ≡ done b)
      × (property_value k b.value ≡ (
          if is_one_of k immutable_properties
          then property_value k a.value
          else or_else (get k properties) (property_value k a.value)))
unfolding handle_update parse flatten
property_value-handle_update a fs properties k e plain = (
  record a { value = parse a.value (dict (without_immutable immutable_properties properties)) },
  refl,
  rw e (
      get-parse_fields k fs (without_immutable immutable_properties properties)
        (without_immutable-ArePlain immutable_properties properties plain)
      ∙ ground (arith, get-without_immutable k immutable_properties properties)),
)

parsed_property :
    (c : CreateRedfishResource) (k : String)
    → ArePlain c.properties
    → get k
        (flatten_fields (parse_fields end (without_immutable immutable_properties c.properties)))
      ≡ (if is_one_of k immutable_properties then none else get k c.properties)
unfolding flatten get
parsed_property c k plain =
    get-parse_fields k end (without_immutable immutable_properties c.properties)
      (without_immutable-ArePlain immutable_properties c.properties plain)
    ∙ ground (arith, get-without_immutable k immutable_properties c.properties)

created_property :
    (c : CreateRedfishResource) (k : String)
    → ArePlain c.properties
    → property_value k (created_value c) ≡ (
        if str_eq k "@odata.context"
        then some (text c.context)
        else if str_eq k "@odata.type"
        then some (text c.type)
        else if str_eq k "@odata.id"
        then some (text (escape_uri c.resource_uri))
        else get k c.properties)
unfolding created_value parse flatten
created_property c k plain =
    get-flatten k _
    ∙ simp get-put (
        ground (
          arith,
          get-flatten k (parse_fields end (without_immutable immutable_properties c.properties)),
          parsed_property c k plain,
          eq_iff k "@odata.context",
          eq_iff "@odata.context" k,
          eq_iff k "@odata.type",
          eq_iff "@odata.type" k,
          eq_iff k "@odata.id",
          eq_iff "@odata.id" k,
        ))

-- A creation with plain data, on an aggregate without an identifier, succeeds; the new resource has
-- the type, the context and the escaped URI of the command under the immutable names, and every
-- other property as the data gives it.
pub property_value-handle_create :
    (c : CreateRedfishResource) (a : Aggregate) (k : String)
    → a.id ≡ ""
    → ArePlain c.properties
    → (handle_create c a ≡ done (created c a))
      × (property_value k (created c a).value ≡ (
          if str_eq k "@odata.context"
          then some (text c.context)
          else if str_eq k "@odata.type"
          then some (text c.type)
          else if str_eq k "@odata.id"
          then some (text (escape_uri c.resource_uri))
          else get k c.properties))
unfolding handle_create
property_value-handle_create c a k e plain = (rw e refl, created_property c k plain)

-- Once a creation with an identifier that is not empty has succeeded, every further creation on the
-- same aggregate fails and changes nothing.
pub handle_create_twice :
    (c d : CreateRedfishResource) (a b : Aggregate)
    → c.id ≢ ""
    → handle_create c a ≡ done b
    → handle_create d b ≡ failed b
unfolding handle_create
handle_create_twice c d a b ne h = ground (arith, eq_iff a.id "", eq_iff b.id "", eq_iff c.id "")

-- The removal of the immutable names does not cover their meta forms: on a resource whose value is
-- a map, an update with the key "@odata.id@meta" and a map succeeds and replaces the property
-- "@odata.id" by what that map says.
pub odata_id_overwritten :
    (a : Aggregate) (fs m : Fields)
    → a.value ≡ dict fs
    → (b : Aggregate) × (handle_update (field "@odata.id@meta" (dict m) end) a ≡ done b)
      × (get "@odata.id" (dict_of b.value)
          ≡ some (prop (default_of (get "DEFAULT" m)) (delete "DEFAULT" m) false))
unfolding handle_update parse delete put_entry strip_suffix
odata_id_overwritten a fs m e = (
  record a { value = parse a.value (dict (field "@odata.id@meta" (dict m) end)) },
  refl,
  rw e (simp get-put),
)
