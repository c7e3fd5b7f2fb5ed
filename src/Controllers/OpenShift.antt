-- ===== src/Controllers/OpenShift.antt =====
-- controllers/openshift_controller.go.
pub mod Dropin
pub mod Objects
pub mod Oldest
pub mod Queries
pub mod Cooperation
pub mod Install
pub mod Runtime
pub mod Monitor
pub mod Delete
pub mod Reconcile
