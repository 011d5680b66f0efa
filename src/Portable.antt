-- ===== src/Portable.antt =====
-- libxbot-service/src/portable/linux: the queue, the packets and the IO thread of the Linux port.
pub mod Queue
pub mod Packet
pub mod Routing
pub mod Nics
pub mod Sockets
