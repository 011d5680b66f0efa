-- ===== src/Tests.antt =====
-- The theorems at concrete inputs.
mod Fixtures
mod Wire
mod Portable
mod Routing
mod Scheduler
mod Service
mod Interface
mod Base
mod Template
mod Sockets
