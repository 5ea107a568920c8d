-- ===== src/SplitController.antt =====
-- `SplitReconciler` (operator/controllers/split_controller.go): the state and the interfaces of its
-- parts, which are the child modules, and `Reconcile` itself in `Reconcile`.
pub mod Defs
pub mod Pods
pub mod ConfigMaps
pub mod Deployments
pub mod Reconcile
pub mod Deployed
pub mod Observed
pub mod Values
pub mod Templates
pub mod Whole
pub mod Listing
pub mod Again
pub mod Steady
pub mod Untouched
pub mod Reconciled
