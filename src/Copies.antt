-- ===== src/Copies.antt =====
-- operator/api/v1beta1/zz_generated.deepcopy.go: copies of the resources that share no memory with what they were made of.
pub mod Memory
pub mod Separate
pub mod Parts
pub mod Rules
pub mod Objects
pub mod Blocks
pub mod Generated
pub mod Methods
pub mod Values
pub mod Deep
pub mod Resources
