-- ===== src/Tests.antt =====
-- Concrete instances of the parameters, and the theorems at concrete inputs.
pub mod Json
pub mod World
pub mod Facts
mod Tables
mod Buffers
mod Handlers
mod Rooms
pub mod Large
mod Traffic
mod Program
mod Invitations
mod Interleaved
mod Listed
mod Memory
