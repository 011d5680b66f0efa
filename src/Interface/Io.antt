-- ===== src/Interface/Io.antt =====
-- libxbot-service-interface/src/ServiceIO.cpp: which services the interface claims, when they time out, and to
-- whom it hands their messages. The calls of registered callbacks are `events`, the newest first, and what is
-- handed to the socket is `sent`. Times are nanoseconds of the steady clock, which does not move within one
-- call. The callbacks do not register or unregister callbacks; `configures` is what OnConfigurationRequested
-- answers, `socket_sends` what the socket answers, and `own_endpoint` the address of the bound socket.
pub mod State
pub mod Claims
pub mod Messages
pub mod Packets
pub mod Keeps
pub mod Interest
pub mod Delivery
pub mod Ordered
pub mod Scans
pub mod Timeouts
