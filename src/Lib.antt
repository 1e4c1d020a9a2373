-- ===== src/Lib.antt =====
-- Verification library of sailfish, a Redfish server: a store of resources, each with a tree of
-- properties, that commands change and events announce.
--
-- The parts of the program and the files that model them:
--
-- - Property/ a resource's properties. `Value` is a Go interface{} in the property tree of
--   src/redfishresource/redfishresourceproperty.go; `parse` is ParseUnlocked, `flatten` is Flatten of
--   src/redfishresource/runmeta.go, `update_agg` and `get_value` are UpdateAgg and GetValueinAgg of
--   src/redfishresource/internal_commands.go. Maps are association lists, whose order the code does
--   not fix either.
-- - Http/ src/redfishresource/http_reqs.go, isAuthorized of src/redfishresource/redfish_handler.go,
--   and src/dell-resources/dellauth/dellauth.go.
-- - Resource/ the aggregate of src/redfishresource/aggregate.go and the Handle methods of the
--   commands of src/redfishresource/internal_commands.go and of DELETE. A handler ends done, failed or
--   panicked.
-- - Store/ src/looplab/bbolt/repo.go and src/looplab/aggregatestore/aggregatestore.go over a database
--   and a codec, which are parameters with laws (Store/Db); the CommandHandler of
--   src/redfishresource/aggregate.go in two parts, so that commands may overlap (Store/Handler); the
--   tree of URIs of src/redfishresource/handler.go (Store/Tree); a creation from the command to the
--   look-up (Store/Creation); a command with all that its events do to the tree (Store/World).
-- - Waiter/ src/looplab/eventwaiter/eventwaiter.go as a machine of steps in any order.
-- - Inject/ the goroutine of StartInjectService, with its queue and timer (Inject/Queue), and sendToChn
--   (Inject/Trains), both of src/redfishresource/internal_commands.go.
-- - Query/ the numbers and the paging of src/redfishresource/redfish_filter.go: `setup_options` is
--   SetupAuthorization, `handle_collection_query_options` is handleCollectionQueryOptions, and
--   `handle_collection_filter` is handleCollectionFilter on tests that are read already. Sums of ints
--   wrap around at 64 bits. time.Parse is an argument.
-- - Session/ the handler of X-Auth-Token in src/ocp/session/sessions.go with its cache, and the login of
--   src/ocp/session/commands.go (Session/Granting). The token library is an argument.
-- - Serve/ the first half of ServeHTTP in src/redfishresource/redfish_handler.go: a request is refused
--   with a status, or a command runs on a resource. The event library's registry of commands and the
--   etag of a resource are arguments.
-- - EventService/ the goroutine of PublishRedfishEvents in src/ocp/eventservice/controller.go, with the
--   two states of a Go timer: running, and a value in its channel.
-- - Faults/ the mapper functions removefaultentry, addfaultentry, addlclog and clearuris of
--   src/dell-ec/lcl.go: the list of tombstones for faults that are removed before they arrive, the
--   resources of faults and log entries (Faults/Entries), and the trimming of the log (Faults/Log), whose
--   commands run in Store/World. The lists of faults read the tree as it is then; path.Dir, path.Base and
--   the formats of numbers and times are arguments.
-- - Inventory/ the scan of the firmware inventory in src/dell-ec/lcl.go, from the models that are known
--   to the views of components. What Instantiate makes depends on the configuration and is any function
--   here, with or without a view and a default model; strings.EqualFold is an argument.
-- - Models/ src/ocp/model/model.go. An observer is a function from the properties and a batch of updates
--   to the updates that it makes. notifyObserversUnlocked calls itself through its observers and takes
--   fuel for this nesting: with balanced stops and starts one level is enough, which is proved.
-- - Mapper/ src/ocp/awesome_mapper2: the table of rules and the run of an event in controller.go
--   (Mapper/Controller, without the functions that a rule asks to run afterwards), the update of models
--   (Mapper/Update), updates of resources and the power limit (Mapper/Power), conversions and tests of
--   URIs (Mapper/Convert), and the set functions on a slice that is shared (Mapper/Sets). The
--   expression library is an argument.
-- - Subscription/ src/ocp/eventservice/entrypoint.go: the choice of events for a subscription, the replay
--   of faults (Subscription/Faults), the goroutine of a subscription (Subscription/Life) and the
--   attempts to post an event (Subscription/Delivery). The encoding and the answers of the receiver are
--   arguments.
-- - Attributes/ src/dell-resources/attributes/controller-new.go and
--   src/dell-resources/attributedef/attributedef.go: the table of models, which an event on an fqdd
--   reaches (Attributes/Caching), and UpdateRequest, which sends a request for each attribute of a PATCH
--   and waits for the answers (Attributes/Request). getAttrValue and new identifiers are arguments.
-- - Witness/ the theorems at concrete inputs.
--
-- A command changes the aggregate that the store has loaded; the command handler saves it and
-- publishes its events; the domain's tree follows the events of creation and removal; the event waiter
-- hands events on to whoever listens. Faults become resources by commands, and a new subscription reads
-- them back from the tree; rules of the mapper update models, and models tell their observers.
--
-- Locks and channels are not modelled as such: what runs under a lock is one step, and where a lock
-- does not cover an operation, as in HandleCommand, the operation is split there. Times and log lines
-- are left out. Apart from the nesting in Models/, no model needs fuel: every loop is over a list, a path
-- or a tree, or counts down.
pub mod Base
pub mod Property
pub mod Http
pub mod Resource
pub mod Store
pub mod Waiter
pub mod Inject
pub mod Query
pub mod EventService
pub mod Serve
pub mod Session
pub mod Faults
pub mod Models
pub mod Subscription
pub mod Mapper
pub mod Attributes
pub mod Inventory
pub mod Witness
