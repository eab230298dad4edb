-- ===== src/CanRing/Spsc.antt =====
-- The ring between a producer and a consumer that interleave at every access of shared memory:
-- the loads, the copies byte by byte, and the stores that publish a frame or free its slot.
pub mod Defs
mod Producer
mod Consumer
mod Reachable
pub use Defs.*
pub use Reachable.*
