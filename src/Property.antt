-- ===== src/Property.antt =====
-- src/redfishresource/redfishresourceproperty.go and Flatten of runmeta.go: the tree of property
-- values that every Redfish resource holds.
pub mod Access
pub mod Parse
pub mod Flatten
pub mod RoundTrip
pub mod Merge
pub mod Update
pub mod UpdateLaws
pub mod Metric
use sailfish.Base.{ℤ, String, Bool}

-- A Go `interface{}` of a property tree. `prop v m e` is a pointer to a RedfishResourceProperty
-- with Value `v`, Meta `m` and Ephemeral `e`; `dict` is a map[string]interface{}, `list` a slice.
mutual
  pub data Value : Type 0 where
    null : Value
    boolean : Bool → Value
    number : ℤ → Value
    text : String → Value
    list : Values → Value
    dict : Fields → Value
    prop : Value → Fields → Bool → Value

  pub data Values : Type 0 where
    nil : Values
    cons : Value → Values → Values

  pub data Fields : Type 0 where
    end : Fields
    field : String → Value → Fields → Fields
