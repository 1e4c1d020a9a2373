-- ===== src/Faults/Entries.antt =====
-- The data of the events on faults and logs, and the resources that src/dell-ec/lcl.go makes of them.
use sailfish.Base.{List, String, [], if◌then◌else◌, length, pos, str_eq, ℤ, ◌<>◌, ◌∷◌}
use sailfish.Property.{Fields, Value, Values, cons, dict, end, field, list, nil, number, text}
use sailfish.Query.Text.{has_prefix}
use sailfish.Resource.Commands.{CreateRedfishResource}

-- FaultEntryRmData
pub record FaultEntryRmData : Type 0 where
  pub id : ℤ
  pub name : String

-- FaultEntryAddData
pub record FaultEntryAddData : Type 0 where
  pub description : String
  pub entry_type : String
  pub id : ℤ
  pub created : String
  pub message : String
  pub message_args : List String
  pub message_id : String
  pub name : String
  pub severity : String
  pub category : String
  pub action : String
  pub comp_sub_system : String
  pub sub_system : String
  pub fqdd : String

-- LogEventData
pub record LogEventData : Type 0 where
  pub description : String
  pub entry_type : String
  pub id : ℤ
  pub created : String
  pub message : String
  pub message_args : List String
  pub message_id : String
  pub name : String
  pub severity : String
  pub category : String
  pub action : String
  pub fqdd : String
  pub log_alert : String
  pub event_id : String

-- A []string as a property, and the list of one text.
unfoldable pub texts : List String → Values
texts [] = nil
texts (s ∷ rest) = cons (text s) (texts rest)

-- link_mapper
unfoldable pub link_mapper : String → String
link_mapper fqdd =
    "/redfish/v1/Chassis/System.Chassis.1"
    <> (if has_prefix "Fan" fqdd
        then "/Sensors/Fans/" <> fqdd
        else if has_prefix "PSU" fqdd
        then "/Sensors/PowerSupplies/" <> fqdd
        else "")

unfoldable pub one_privilege : String → Value
unfolding texts
one_privilege p = list (texts (p ∷ []))

module _ (c_time : String → String) where
  -- The properties of a fault.
  unfoldable pub fault_properties : FaultEntryAddData → Fields
  unfolding texts
  fault_properties f = field "Created" (text (c_time f.created)) (
      field "Description" (text ("FaultList Entry " <> f.fqdd)) (
        field "Name" (text ("FaultList Entry " <> f.fqdd)) (
          field "EntryType" (text f.entry_type) (
            field "Id" (text f.name) (
              field "MessageArgs" (list (texts f.message_args)) (
                field "MessageArgs@odata.count" (number (pos (length f.message_args))) (
                  field "Message" (text f.message) (
                    field "MessageId" (text f.message_id) (
                      field "Category" (text f.category) (
                        field "Oem"
                          (dict (
                            field "Dell"
                              (dict (
                                field "@odata.type" (text "#DellLogEntry.v1_0_0.LogEntrySummary") (
                                  field "FQDD" (text f.fqdd)
                                    (field "SubSystem" (text f.sub_system) end))))
                              end))
                          (field "OemRecordFormat" (text "Dell") (
                            field "Severity" (text f.severity) (
                              field "Action" (text f.action)
                                (field "Links" (dict end) end))))))))))))))

  -- The resource of a fault, under its URI.
  unfoldable pub fault_resource : String → String → FaultEntryAddData → CreateRedfishResource
  unfolding fault_properties one_privilege
  fault_resource uuid log_uri f =
      let uri = log_uri <> ("/" <> f.name) in
      record {
        id = uuid;
        resource_uri = uri;
        type = "#LogEntry.LogEntry";
        context = "/redfish/v1/$metadata#LogEntry.LogEntry";
        privileges =
            field "GET" (one_privilege "Login")
              (field "DELETE" (one_privilege "ConfigureManager") end);
        headers = ("Location", uri) ∷ [];
        plugin = "ECFault";
        default_filter = "";
        properties = fault_properties f;
        meta = end;
      }

  unfoldable pub log_severity : String → String
  log_severity severity = if str_eq severity "Informational" then "OK" else severity

  -- The properties of a log entry.
  unfoldable pub log_properties : LogEventData → Fields
  unfolding texts link_mapper log_severity
  log_properties f = field "Created" (text (c_time f.created)) (
      field "Description" (text f.name) (
        field "Name" (text f.name) (
          field "EntryType" (text f.entry_type) (
            field "Id" (number f.id) (
              field "Links"
                (dict (
                  field "OriginOfCondition"
                    (dict (field "@odata.id" (text (link_mapper f.fqdd)) end)) end))
                (field "MessageArgs@odata.count" (number (pos (length f.message_args))) (
                  field "MessageArgs" (list (texts f.message_args)) (
                    field "Message" (text f.message) (
                      field "MessageId" (text f.message_id) (
                        field "Oem"
                          (dict (
                            field "Dell"
                              (dict (
                                field "@odata.type" (text "#DellLogEntry.v1_0_0.LogEntrySummary") (
                                  field "Category" (text f.category)
                                    (field "FQDD" (text f.fqdd) end))))
                              end))
                          (field "OemRecordFormat" (text "Dell") (
                            field "Severity" (text (log_severity f.severity))
                              (field "Action" (text f.action) end)))))))))))))
