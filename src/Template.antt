-- ===== src/Template.antt =====
-- codegen/templates: the service and the interface that the generator wrote for service.json, and that the
-- repository holds inside the templates.
pub mod Members
pub mod Description
pub mod Registers
pub mod Params
pub mod Calls
pub mod Cbor
pub mod Advertise
pub mod Generated
pub mod Ticks
pub mod Client
