-- ===== src/Controllers.antt =====
-- The controllers of the operator, controllers/*.go.
pub mod Common
pub mod Reconciler
pub mod OpenShift
pub mod Kubernetes
