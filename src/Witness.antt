-- ===== src/Witness.antt =====
-- The theorems at concrete inputs, one module per area.
pub mod Data
pub mod Trees
pub mod Commands
pub mod Repository
pub mod Handling
pub mod Waiting
pub mod Injecting
pub mod Querying
pub mod Publishing
pub mod Serving
pub mod Sessions
pub mod Faulty
pub mod Trimming
pub mod Observing
pub mod Subscribing
pub mod Mapping
pub mod Attributing
pub mod Scanning
