-- ===== src/Subscription/Matching.antt =====
-- Which events a subscription sends on.
use sailfish.Base.{
  Bool-cases, List, Option, String, [], if◌then◌else◌, inl, inr, none, refl, some, str_eq, suc, sym,
  zero, ℕ, ◌++◌, ◌∙◌, ◌∷◌, ◌≡◌,
}
use sailfish.Property.{Fields}
use sailfish.EventService.Publisher.{RedfishEvent}
use sailfish.Subscription.{
  EventBinary, SubscriptionCtx, append_event, default_types, make_external_redfish_event,
  match_events, match_types,
}
use mathlib.Core.List.{append_assoc, append-nil}

-- How often a text stands in a list.
abbrev pub occurrences : String → List String → ℕ
occurrences s [] = 0
occurrences s (t ∷ ts) = if str_eq s t then suc (occurrences s ts) else occurrences s ts

abbrev pub copies : ℕ → List EventBinary → List EventBinary
copies zero bs = []
copies (suc n) bs = bs ++ copies n bs

abbrev encoded : String → Option String → List EventBinary
encoded id none = []
encoded id (some body) = record { id = id; body = body } ∷ []

append-encoded :
    (id : String) (o : Option String) (l : List EventBinary)
    → ◌≡◌ {A = List EventBinary}
        (elim o [ none ↦ l | some body ↦ l ++ (record { id = id; body = body } ∷ []) ])
        (l ++ encoded id o)
append-encoded id none l = sym (append-nil l)
append-encoded id (some body) l = refl

module _ (marshal : String → String → RedfishEvent → Option String)
    (marshal_metric : Fields → Option String) where
  -- The binary of an event, if it can be encoded.
  abbrev pub binary : String → String → RedfishEvent → List EventBinary
  binary context uuid e = encoded e.message_id (marshal context uuid e)

  -- For each event in turn, its binary once for each time that its type stands in the list.
  abbrev pub matching : String → String → List String → List RedfishEvent → List EventBinary
  matching context uuid types [] = []
  matching context uuid types (e ∷ es) =
      copies (occurrences e.event_type types) (binary context uuid e)
      ++ matching context uuid types es

  append_event-binary :
      (context uuid : String) (e : RedfishEvent) (l : List EventBinary)
      → append_event marshal marshal_metric context uuid e l ≡ l ++ binary context uuid e
  unfolding append_event
  append_event-binary context uuid e l = append-encoded e.message_id (marshal context uuid e) l

  match_types-copies :
      (context uuid : String) (e : RedfishEvent) (ts : List String) (l : List EventBinary)
      → match_types marshal marshal_metric context uuid e ts l
        ≡ l ++ copies (occurrences e.event_type ts) (binary context uuid e)
  unfolding match_types
  match_types-copies context uuid e [] l = sym (append-nil l)
  match_types-copies context uuid e (t ∷ ts) l = elim (Bool-cases (str_eq e.event_type t)) [
    | inl b ↦
        rw (b, match_types, append_event-binary context uuid e l)
          (match_types-copies context uuid e ts (l ++ binary context uuid e)
            ∙ append_assoc l (binary context uuid e)
                (copies (occurrences e.event_type ts) (binary context uuid e)))
    | inr b ↦ rw (b, match_types) (match_types-copies context uuid e ts l)
  ]

  match_events-matching :
      (context uuid : String) (es : List RedfishEvent) (ts : List String) (l : List EventBinary)
      → match_events marshal marshal_metric context uuid es ts l ≡ l ++ matching context uuid ts es
  unfolding match_events
  match_events-matching context uuid [] ts l = sym (append-nil l)
  match_events-matching context uuid (e ∷ es) ts l =
      match_events-matching context uuid es ts
        (match_types marshal marshal_metric context uuid e ts l)
      ∙ rw (match_types-copies context uuid e ts l) (
          append_assoc l (copies (occurrences e.event_type ts) (binary context uuid e))
            (matching context uuid ts es))

  -- A subscription sends exactly the events whose type is one of its types, each as often as the
  -- type stands in its list and in the order in which they came, and leaves out those that cannot
  -- be encoded. A subscription without types has the one type "Alert".
  pub make_external_redfish_event-matching :
      (sub : SubscriptionCtx) (es : List RedfishEvent) (uuid : String)
      → make_external_redfish_event marshal marshal_metric sub es uuid
        ≡ matching sub.context uuid (default_types sub.event_types) es
  unfolding make_external_redfish_event
  make_external_redfish_event-matching sub es uuid =
      match_events-matching sub.context uuid es (default_types sub.event_types) []
