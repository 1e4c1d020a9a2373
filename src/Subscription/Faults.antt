-- ===== src/Subscription/Faults.antt =====
-- makeMCHARSevents of src/ocp/eventservice/entrypoint.go: the faults of the fault list, replayed as
-- events. The resources are those that addfaultentry of src/dell-ec/lcl.go makes.
use sailfish.Base.{List, Option, String, [], false, none, refl, some, str_eq, ◌>>=◌, ◌∙◌, ◌∷◌, ◌≡◌}
use sailfish.Property.{Fields, Value, Values, cons, dict, end, list, nil, text}
use sailfish.Property.Access.{get}
use sailfish.Property.Parse.{dict_of, strip_suffix}
use sailfish.Property.Flatten.{flatten}
use sailfish.Property.RoundTrip.{AllPlain, ArePlain}
use sailfish.Resource.{Aggregate}
use sailfish.Resource.Commands.{created}
use sailfish.Faults.Entries.{FaultEntryAddData, fault_properties, fault_resource, texts}
use sailfish.Resource.Immutable.{property_value-handle_create}
use sailfish.EventService.Publisher.{RedfishEvent}

-- What is made of one resource: nothing, a panic of a type assertion, or something.
pub data Made (A : Type 0) : Type 0 where
  skipped asserted : Made A
  made : A → Made A

-- v.(string)
unfoldable pub text_of : Option Value → Option String
text_of (some (text s)) = some s
text_of o = none

unfoldable pub fqdd_of_dell : Option Value → Made String
unfolding text_of
fqdd_of_dell (some (dict dell)) = elim (text_of (get "FQDD" dell)) [
  | none ↦ asserted
  | some s ↦ made s
]
fqdd_of_dell o = skipped

-- mcharsMap["Oem"]["Dell"]["FQDD"]
unfoldable pub fqdd_of : Option Value → Made String
unfolding fqdd_of_dell
fqdd_of (some (dict oem)) = fqdd_of_dell (get "Dell" oem)
fqdd_of o = made ""

-- arg.(string) for each item
unfoldable pub texts_of : Values → Option (List String)
unfolding text_of
texts_of nil = some []
texts_of (cons v vs) = do s ← text_of (some v); rest ← texts_of vs; some (s ∷ rest)

unfoldable pub args_of : Option Value → Option (List String)
unfolding texts_of
args_of (some (list xs)) = texts_of xs
args_of o = some []

-- The event of one fault; none is a panic.
unfoldable pub main_event : Fields → String → Option RedfishEvent
unfolding text_of args_of
main_event m fqdd = do
  args ← args_of (get "MessageArgs" m)
  id ← text_of (get "Id" m)
  created ← text_of (get "Created" m)
  severity ← text_of (get "Severity" m)
  message ← text_of (get "Message" m)
  message_id ← text_of (get "MessageId" m)
  some (record {
    event_type = "Alert";
    event_id = id;
    event_timestamp = created;
    severity = severity;
    message = message;
    message_id = message_id;
    message_args = args;
    origin_of_condition = fqdd;
    oem = end;
  })

unfoldable pub fault_event : Fields → Made RedfishEvent
unfolding fqdd_of main_event
fault_event m = elim (fqdd_of (get "Oem" m)) [
  | skipped ↦ skipped
  | asserted ↦ asserted
  | made fqdd ↦ elim (main_event m fqdd) [ none ↦ asserted | some e ↦ made e ]
]

-- The events of the resources that ExpandURI finds, flattened; none of a URI that it does not find.
unfoldable pub make_mchars_events : List (Option Value) → Option (List RedfishEvent)
unfolding fault_event
make_mchars_events [] = some []
make_mchars_events (some (dict m) ∷ rest) = elim (fault_event m) [
  | asserted ↦ none
  | skipped ↦ make_mchars_events rest
  | made e ↦ elim (make_mchars_events rest) [ none ↦ none | some es ↦ some (e ∷ es) ]
]
make_mchars_events (v ∷ rest) = make_mchars_events rest

texts-AllPlain : (l : List String) → AllPlain (texts l)
unfolding texts
texts-AllPlain [] = tt
texts-AllPlain (s ∷ l) = (tt, texts-AllPlain l)

texts_of-texts : (l : List String) → texts_of (texts l) ≡ some l
unfolding texts texts_of text_of
texts_of-texts [] = refl
texts_of-texts (s ∷ l) = rw (texts_of-texts l) refl

fault_properties-ArePlain :
    (c_time : String → String) (f : FaultEntryAddData) → ArePlain (fault_properties c_time f)
unfolding fault_properties strip_suffix get
fault_properties-ArePlain c_time f = (
  refl,
  refl,
  tt,
  (
    refl,
    refl,
    tt,
    (
      refl,
      refl,
      tt,
      (
        refl,
        refl,
        tt,
        (
          refl,
          refl,
          tt,
          (
            refl,
            refl,
            texts-AllPlain f.message_args,
            (
              refl,
              refl,
              tt,
              (
                refl,
                refl,
                tt,
                (
                  refl,
                  refl,
                  tt,
                  (
                    refl,
                    refl,
                    tt,
                    (
                      refl,
                      refl,
                      (refl, refl, (refl, refl, tt, (refl, refl, tt, (refl, refl, tt, tt))), tt),
                      (refl, refl, tt, (refl, refl, tt, (refl, refl, tt, (refl, refl, tt, tt)))),
                    ),
                  ),
                ),
              ),
            ),
          ),
        ),
      ),
    ),
  ),
)

-- The alert of a fault.
abbrev pub alert : (String → String) → FaultEntryAddData → RedfishEvent
alert c_time f = record {
  event_type = "Alert";
  event_id = f.name;
  event_timestamp = c_time f.created;
  severity = f.severity;
  message = f.message;
  message_id = f.message_id;
  message_args = f.message_args;
  origin_of_condition = f.fqdd;
  oem = end;
}

fault_event-from :
    (c_time : String → String) (f : FaultEntryAddData) (m : Fields)
    → ((k : String)
        → str_eq k "@odata.context" ≡ false
        → str_eq k "@odata.type" ≡ false
        → str_eq k "@odata.id" ≡ false
        → get k m ≡ get k (fault_properties c_time f))
    → fault_event m ≡ made (alert c_time f)
unfolding fault_event fqdd_of fqdd_of_dell main_event args_of text_of fault_properties get
fault_event-from c_time f m h =
    rw
      (
        fault_event,
        fqdd_of,
        main_event,
        args_of,
        text_of,
        h "Oem" refl refl refl,
        h "MessageArgs" refl refl refl,
        h "Id" refl refl refl,
        h "Created" refl refl refl,
        h "Severity" refl refl refl,
        h "Message" refl refl refl,
        h "MessageId" refl refl refl,
        texts_of-texts f.message_args,
      )
      refl

-- The resource of a fault, as its creation leaves it, is replayed as the alert of that fault: no
-- type assertion panics, and the event has the fault's own name, time, severity, message, arguments
-- and component.
pub fault_event-created :
    (c_time : String → String) (uuid log_uri : String) (f : FaultEntryAddData) (a : Aggregate)
    → a.id ≡ ""
    → fault_event (dict_of (flatten (created (fault_resource c_time uuid log_uri f) a).value))
      ≡ made (alert c_time f)
unfolding fault_resource fault_properties
fault_event-created c_time uuid log_uri f a h =
    fault_event-from c_time f
      (dict_of (flatten (created (fault_resource c_time uuid log_uri f) a).value))
      (λ k no_context no_type no_id.
        (property_value-handle_create (fault_resource c_time uuid log_uri f) a k h
          (fault_properties-ArePlain c_time f)).1
        ∙ rw (no_context, no_type, no_id) refl)
