-- ===== src/Witness/Data.antt =====
-- The data that the examples share.
use sailfish.Base.{[], false, pos}
use sailfish.Property.{Fields, Value, cons, dict, end, field, list, nil, number, prop, text}
use sailfish.Resource.{Aggregate, new_aggregate}
use sailfish.Resource.Commands.{CreateRedfishResource}

-- {"Name": "Chassis", "Slots": [2]}
abbrev pub chassis_properties : Fields
chassis_properties =
    field "Name" (text "Chassis") (field "Slots" (list (cons (number (pos 2)) nil)) end)

abbrev pub chassis : CreateRedfishResource
chassis = record {
  id = "c1";
  resource_uri = "/redfish/v1/Chassis";
  type = "#Chassis";
  context = "/ctx";
  privileges = end;
  headers = [];
  plugin = "";
  default_filter = "";
  properties = chassis_properties;
  meta = end;
}

-- A resource with one property, "Name", and an identifier.
abbrev pub named_resource : Aggregate
named_resource = record new_aggregate {
  id = "c1";
  resource_uri = "/redfish/v1/Chassis";
  value = dict (field "Name" (prop (text "old") end false) end);
}

-- A tree with a value at "Status/Health" and one at "Status/State".
abbrev pub status_fields : Value → Fields
status_fields health =
    field "Health" (prop health end false) (field "State" (prop (text "Enabled") end false) end)

abbrev pub status_tree : Value → Value
status_tree health = dict (field "Status" (prop (dict (status_fields health)) end false) end)
