-- ===== src/Store.antt =====
-- Where the resources are kept: src/looplab/bbolt/repo.go, src/looplab/aggregatestore/aggregatestore.go,
-- the CommandHandler of src/redfishresource/aggregate.go, and the tree of src/redfishresource/handler.go.
pub mod Db
pub mod Repo
pub mod Handler
pub mod Tree
pub mod Creation
pub mod World
