-- ===== src/Tests.antt =====
-- Examples: the theorems at concrete inputs.
mod Toys
mod Updates
mod Recoveries
mod Manifests
mod Stores
mod Records
mod Inputs
mod Workloads
mod Leases
mod Transit
mod Meshes
mod Collaterals
mod Caches
mod Peers
mod Documents
