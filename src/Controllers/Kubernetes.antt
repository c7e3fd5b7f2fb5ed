-- ===== src/Controllers/Kubernetes.antt =====
-- controllers/kubernetes_controller.go.
pub mod Objects
pub mod Runtime
pub mod Monitor
pub mod Install
pub mod Watch
