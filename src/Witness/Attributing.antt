-- ===== src/Witness/Attributing.antt =====
-- A PATCH of attributes and its answers, and the mapping of models.
use sailfish.Base.{
  List, Option, String, [], arith, if◌then◌else◌, insert, length, none, some, str_eq, ℕ, ◌+◌, ◌==◌,
  ◌∷◌, ◌≡◌, ◌≤◌,
}
use sailfish.Property.{Fields, end, field, text}
use sailfish.Attributes.{Service, close_mapping, models_of, new_mapping}
use sailfish.Attributes.Request.{AttrValue, Waiting, answered, collect, decoded, no_privilege_data}
use sailfish.Attributes.Collecting.{count_of}
use sailfish.Attributes.Answering.{answered_ids, collect-answered, happenings}
use sailfish.Attributes.Caching.{models_of-new_mapping, owners}
use sailfish.Subscription.Matching.{occurrences}

abbrev plain_response : String → String → String → String
plain_response err k sort = err

abbrev one_attr : String → String → String → Option AttrValue
one_attr group index name = if str_eq name "Name" then some (decoded no_privilege_data) else none

abbrev two_ids : ℕ → String
two_ids n = if n == 0 then "r0" else "r1"

-- The first attribute is there, the second is not.
abbrev patch : Fields
patch = field "Chassis.1.Name" (text "a") (field "Chassis.1.Other" (text "b") end)

abbrev two_pending : Waiting
two_pending = record { req_ids = "r0" ∷ "r1" ∷ []; errs = []; num_success = 0 }

abbrev both_answers : List (String × String)
both_answers = ("r1", "denied") ∷ ("r0", "") ∷ []

both_answered :
    (s : String) → occurrences s two_pending.req_ids ≤ occurrences s (answered_ids both_answers)
both_answered s = ground arith

collect-answered_example :
    (errs : List String) × (n : ℕ) × (collect "timeout" (happenings both_answers) two_pending
      ≡ answered errs n)
    × (n + length errs ≡ count_of two_pending)
collect-answered_example =
    collect-answered "timeout" both_answers two_pending (omega arith) both_answered

abbrev no_models : Service
no_models = record { forward_mapping = []; cache = [] }

models_of-new_mapping_example :
    (models_of "System.Chassis.1" (new_mapping "m" ("System.Chassis.1" ∷ []) no_models)
      ≡ owners "System.Chassis.1" (insert "m" ("System.Chassis.1" ∷ []) []))
    × (models_of "System.Chassis.1"
          (close_mapping "m" (new_mapping "m" ("System.Chassis.1" ∷ []) no_models))
        ≡ owners "System.Chassis.1" (insert "m" ("System.Chassis.1" ∷ []) []))
models_of-new_mapping_example =
    models_of-new_mapping "m" "System.Chassis.1" ("System.Chassis.1" ∷ []) no_models
