-- ===== src/Wire.antt =====
-- wire.go and query.go: the PostgreSQL v3 wire protocol as the library speaks it.
pub mod Bytes
pub mod Message
pub mod Value
pub mod Response
pub mod Session
pub mod Frames
pub mod Total
pub mod Parse
pub mod Reply
pub mod Bytea
pub mod Params
pub mod Transfer
pub mod Server
