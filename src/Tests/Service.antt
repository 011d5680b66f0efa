-- ===== src/Tests/Service.antt =====
-- The theorems on services, of the service of the fixtures.
mod Status
mod Sending
mod Answers
