-- ===== src/Mapper.antt =====
-- src/ocp/awesome_mapper2: events of the bus become updates of models and of resources, by rules of
-- the configuration.
pub mod Update
pub mod Silence
pub mod Sets
pub mod Aliasing
pub mod Convert
pub mod Power
pub mod Controller
pub mod Hash
