-- ===== src/Service.antt =====
-- libxbot-service/src/Service.cpp and its header: the service side of the protocol.
pub mod State
pub mod Send
pub mod Rpc
pub mod User
pub mod Lifecycle
pub mod Handlers
pub mod Loop
pub mod Logging
pub mod Status
pub mod Ticks
pub mod Packets
pub mod Sending
pub mod Responses
pub mod Answers
pub mod Parts
pub mod Collect
