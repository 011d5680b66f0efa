-- ===== src/Interface.antt =====
-- libxbot-service-interface: the host's side.
pub mod Maps
pub mod Discovery
pub mod Io
pub mod Base
pub mod LogReceiver
pub mod Socket
