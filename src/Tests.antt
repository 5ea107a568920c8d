-- ===== src/Tests.antt =====
-- Tests at concrete inputs, and the theorems at these inputs.
pub mod Graphs
pub mod Placements
pub mod Splits
pub mod Placers
pub mod Deployments
pub mod Replacing
pub mod Values
pub mod Yaml
pub mod Feeding
pub mod Wholes
pub mod Reconciling
pub mod Copies
pub mod Listings
pub mod Accounting
