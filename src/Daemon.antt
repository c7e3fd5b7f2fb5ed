-- ===== src/Daemon.antt =====
-- The daemon on the nodes: images/daemon/pkg/daemon.
pub mod Version
pub mod Host
pub mod Events
pub mod Trace
pub mod Status
pub mod Actions
pub mod Install
pub mod Fleet
pub mod Rpm
pub mod Command
pub mod Uninstall
pub mod Removal
