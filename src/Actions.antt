-- ===== src/Actions.antt =====
-- pkg/actions: what the actions do to the cluster, how they are built from a countermeasure, and
-- the runner that performs them.
pub mod Cluster
pub mod Perform
pub mod Registry
pub mod Runner
pub mod Manager
