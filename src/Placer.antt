-- ===== src/Placer.antt =====
-- `SplitsPlacerReconciler` (operator/controllers/splitsplacer_controller.go), in parts: its state and
-- interfaces, `syncTopology`, `syncSplits` and `Reconcile`.
pub mod Defs
pub mod Topology
pub mod Splits
pub mod Reconcile
pub mod Status
pub mod Machine
pub mod Checked
