-- ===== src/Witness/Commands.antt =====
-- The commands on one resource.
use sailfish.Property.Access.{get}
use sailfish.Base.{false, if◌then◌else◌, refl, ◌≡◌}
use sailfish.Property.{end, field, prop, text}
use sailfish.Property.Parse.{strip_suffix}
use sailfish.Property.RoundTrip.{ArePlain}
use sailfish.Property.Merge.{or_else}
use sailfish.Resource.{Aggregate}
use sailfish.Resource.Commands.{done, handle_update, immutable_properties}
use sailfish.Resource.Immutable.{is_one_of, property_value, property_value-handle_update}
use sailfish.Witness.Data.{chassis_properties, named_resource}

plain : ArePlain chassis_properties
unfolding strip_suffix
plain = (refl, refl, tt, (refl, refl, (tt, tt), tt))

property_value-handle_update_example :
    (b : Aggregate) × (handle_update chassis_properties named_resource ≡ done b)
    × (property_value "Name" b.value ≡ (
        if is_one_of "Name" immutable_properties
        then property_value "Name" named_resource.value
        else or_else (get "Name" chassis_properties) (property_value "Name" named_resource.value)))
property_value-handle_update_example =
    property_value-handle_update named_resource (field "Name" (prop (text "old") end false) end)
      chassis_properties "Name" refl plain
