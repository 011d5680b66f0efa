-- ===== src/Wire.antt =====
-- include/xbot/datatypes: the packed structs of the protocol as bytes.
pub mod Bytes
pub mod Header
pub mod Payloads
pub mod Frames
