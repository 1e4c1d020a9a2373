-- ===== src/Resource/Commands.antt =====
-- The commands, and the Handle method of each.
use sailfish.Property.Access.{delete, put}
use sailfish.Base.{
  Dict, List, Option, String, [], if◌then◌else◌, none, not, pos, some, str_eq, ℤ, ◌==◌, ◌∷◌,
}
use sailfish.Http.{HttpReq, http_req_number, map_string_to_http_req}
use sailfish.Property.{Fields, Value, dict, end, field, text}
use sailfish.Property.Parse.{dict_of, parse}
use sailfish.Property.Update.{Result, as_dict, err, ok, panic, update_agg}
use sailfish.Resource.{
  Aggregate, http_cmd_processed, properties_updated2, publish_event, resource_created,
  resource_removed,
}
use sailfish.Resource.Escape.{escape_uri, split}

-- CreateRedfishResource
pub record CreateRedfishResource : Type 0 where
  pub id : String
  pub resource_uri : String
  pub type : String
  pub context : String
  pub privileges : Fields
  pub headers : Dict String
  pub plugin : String
  pub default_filter : String
  pub properties : Fields
  pub meta : Fields

pub data Command : Type 0 where
  create_redfish_resource : CreateRedfishResource → Command
  remove_redfish_resource : String → Command
  remove_redfish_resource_property : String → String → Command
  update_redfish_resource_properties : String → Fields → Command
  update_redfish_resource_properties2 : String → Fields → Command
  update_metric_redfish_resource : String → Fields → ℤ → Command
  http_delete : String → String → Command

-- AggregateID()
unfoldable pub aggregate_id : Command → String
aggregate_id (create_redfish_resource c) = c.id
aggregate_id (remove_redfish_resource id) = id
aggregate_id (remove_redfish_resource_property id p) = id
aggregate_id (update_redfish_resource_properties id fs) = id
aggregate_id (update_redfish_resource_properties2 id fs) = id
aggregate_id (update_metric_redfish_resource id fs limit) = id
aggregate_id (http_delete id cmd) = id

-- How a handler ends: with no error, with an error, or by a panic.
pub data Outcome : Type 0 where
  done : Aggregate → Outcome
  failed : Aggregate → Outcome
  panicked : Outcome

abbrev pub immutable_properties : List String
immutable_properties = "@odata.id" ∷ "@odata.type" ∷ "@odata.context" ∷ []

-- for _, p := range immutableProperties { delete(c.Properties, p) }
unfoldable pub without_immutable : List String → Fields → Fields
without_immutable [] fs = fs
without_immutable (p ∷ ps) fs = without_immutable ps (delete p fs)

-- a.PrivilegeMap[MapStringToHTTPReq(k)] = v, the latest first
unfoldable pub privilege_entries : Fields → List (HttpReq × Value) → List (HttpReq × Value)
privilege_entries end into = into
privilege_entries (field k v fs) into = privilege_entries fs ((map_string_to_http_req k, v) ∷ into)

-- The index expression a.PrivilegeMap[r].
unfoldable pub privileges_of : HttpReq → List (HttpReq × Value) → Option Value
privileges_of r [] = none
privileges_of r ((s, v) ∷ rest) =
    if http_req_number s == http_req_number r then some v else privileges_of r rest

-- The properties of a new resource: those of the command without the immutable ones, then these.
unfoldable pub created_value : CreateRedfishResource → Value
unfolding without_immutable
created_value c =
    let parsed =
      dict_of (parse (dict end) (dict (without_immutable immutable_properties c.properties))) in
    dict (
      put "@odata.context" (text c.context) (
        put "@odata.type" (text c.type)
          (put "@odata.id" (text (escape_uri c.resource_uri)) parsed)))

-- The resource as the command makes it. The lists of updated property names that the code declares
-- stay empty, so the one event is that of the creation.
unfoldable pub created : CreateRedfishResource → Aggregate → Aggregate
unfolding publish_event privilege_entries created_value
created c a =
    publish_event
      (record a {
        id = c.id;
        resource_uri = c.resource_uri;
        default_filter = c.default_filter;
        plugin = c.plugin;
        headers = c.headers;
        privilege_map = privilege_entries c.privileges [];
        value = created_value c;
        meta = c.meta;
      })
      (resource_created c.id c.resource_uri)

unfoldable pub handle_create : CreateRedfishResource → Aggregate → Outcome
unfolding created
handle_create c a = if not (str_eq a.id "") then failed a else done (created c a)

unfoldable pub handle_remove : String → Aggregate → Outcome
unfolding publish_event
handle_remove id a = done (publish_event a (resource_removed id a.resource_uri))

-- The type assertion panics if the value is no map.
unfoldable pub handle_remove_property : String → Aggregate → Outcome
handle_remove_property property a = elim (as_dict a.value) [
  | none ↦ panicked
  | some fs ↦ done (record a { value = dict (delete property fs) })
]

-- As with a creation, no property name is ever listed, so no event is published.
unfoldable pub handle_update : Fields → Aggregate → Outcome
unfolding without_immutable
handle_update properties a =
    done (record a {
      value = parse a.value (dict (without_immutable immutable_properties properties));
    })

-- The loop of UpdateRedfishResourceProperties2 over its map: failures are passed over, and the
-- entries that were written are collected.
unfoldable pub update_all : Fields → Value → Fields → Result (Value × Fields)
update_all end tree written = ok (tree, written)
update_all (field k v fs) tree written = elim (update_agg tree (split b'/' k) v (pos 0)) [
  | ok tree' ↦ update_all fs tree' (put k v written)
  | err panic ↦ err panic
  | err _ ↦ update_all fs tree written
]

-- The error that the method returns is the outer variable, which nothing sets.
unfoldable pub handle_update2 : String → Fields → Aggregate → Outcome
unfolding publish_event update_all
handle_update2 id properties a =
    if str_eq a.id "" then failed a else elim (update_all properties a.value end) [
      | err x ↦ panicked
      | ok (tree, end) ↦ done (record a { value = tree })
      | ok (tree, field k v written) ↦ done (
          publish_event (record a { value = tree })
            (properties_updated2 id a.resource_uri (field k v written)))
    ]

-- The first failure ends the loop; what was written before it stays in the aggregate.
unfoldable pub handle_metric : Fields → ℤ → Aggregate → Outcome
handle_metric end limit a = done a
handle_metric (field k v fs) limit a = elim (update_agg a.value (split b'/' k) v limit) [
  | ok tree ↦ handle_metric fs limit (record a { value = tree })
  | err panic ↦ panicked
  | err _ ↦ failed a
]

unfoldable pub handle_http_delete : String → String → Aggregate → Outcome
unfolding publish_event
handle_http_delete id cmd_id a = done (
    publish_event (publish_event a (resource_removed id a.resource_uri))
      (http_cmd_processed cmd_id (dict end) 200))

-- RedfishResourceAggregate.HandleCommand
unfoldable pub handle : Command → Aggregate → Outcome
unfolding handle_create handle_remove handle_remove_property handle_update handle_update2
    handle_metric handle_http_delete
handle (create_redfish_resource c) a = handle_create c a
handle (remove_redfish_resource id) a = handle_remove id a
handle (remove_redfish_resource_property id p) a = handle_remove_property p a
handle (update_redfish_resource_properties id fs) a = handle_update fs a
handle (update_redfish_resource_properties2 id fs) a = handle_update2 id fs a
handle (update_metric_redfish_resource id fs limit) a = handle_metric fs limit a
handle (http_delete id cmd) a = handle_http_delete id cmd a
