-- ===== src/Resource.antt =====
-- src/redfishresource/aggregate.go, internal_commands.go and http_commands.go: the aggregate that
-- holds one Redfish resource, and the commands on it.
pub mod Escape
pub mod Commands
pub mod Immutable
use sailfish.Base.{Dict, List, String, [], ℕ, ◌++◌, ◌∷◌}
use sailfish.Property.{Fields, Value, end, null}
use sailfish.Http.{HttpReq}

-- The events that the commands publish.
pub data Event : Type 0 where
  resource_created : String → String → Event
  resource_removed : String → String → Event
  properties_updated2 : String → String → Fields → Event
  http_cmd_processed : String → Value → ℕ → Event

-- RedfishResourceAggregate; `value` and `meta` are those of its Properties.
pub record Aggregate : Type 0 where
  pub events : List Event
  pub id : String
  pub resource_uri : String
  pub plugin : String
  pub value : Value
  pub meta : Fields
  pub status_code : ℕ
  pub default_filter : String
  pub privilege_map : List (HttpReq × Value)
  pub headers : Dict String

-- &RedfishResourceAggregate{}
abbrev pub new_aggregate : Aggregate
new_aggregate = record {
  events = [];
  id = "";
  resource_uri = "";
  plugin = "";
  value = null;
  meta = end;
  status_code = 0;
  default_filter = "";
  privilege_map = [];
  headers = [];
}

unfoldable pub publish_event : Aggregate → Event → Aggregate
publish_event a e = record a { events = a.events ++ (e ∷ []) }

-- The events, and the aggregate without them.
unfoldable pub events_to_publish : Aggregate → List Event × Aggregate
events_to_publish a = (a.events, record a { events = [] })
