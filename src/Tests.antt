-- ===== src/Tests.antt =====
-- Concrete inputs, and the theorems applied to them.
pub mod Columns
mod Frames
pub mod Stores
pub mod Streams
mod Writers
pub mod Transports
mod Storage
