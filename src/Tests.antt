-- ===== src/Tests.antt =====
-- Concrete clusters, and the theorems at inputs that meet their hypotheses.
mod Clusters
mod Deletion
mod Nodes
mod Competition
mod Daemons
mod Kubernetes
mod Marks
mod Monitoring
mod Endings
mod Fleets
mod Removals
mod Hosts
mod Managers
