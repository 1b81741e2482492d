-- ===== src/Swarm.antt =====
-- zero/swarm.py: the primitives of the market-scanning swarm.
pub mod Leases
pub mod Book
pub mod Topology
pub mod Allocator
pub mod Worker
pub mod Discovery
pub mod Block
