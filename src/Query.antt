-- ===== src/Query.antt =====
-- src/redfishresource/redfish_filter.go: the query options of a GET request.
pub mod Text
pub mod Page
pub mod Window
pub mod Options
pub mod Filter
pub mod Kept
