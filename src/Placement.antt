-- ===== src/Placement.antt =====
-- operator/controllers/algorithm: the placement of CUs and DUs on the nodes of a topology.
pub mod State
pub mod Build
pub mod Paths
pub mod Dsg8
pub mod Network
pub mod Place
pub mod Samples
pub mod Plan
