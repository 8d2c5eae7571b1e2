-- ===== src/Tests.antt =====
-- Runs of the definitions at concrete inputs.
pub mod Scheduling
pub mod Names
pub mod Responses
pub mod Calculations
pub mod Caches
pub mod Topologies
pub mod Snapshots
pub mod Agents
pub mod Usages
pub mod Workers
pub mod Sources
pub mod Measures
pub mod Patches
pub mod Listings
pub mod Allocations
