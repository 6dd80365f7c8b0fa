-- ===== src/Controller.antt =====
-- internal/controller: the decisions and the reconcilers.
pub mod Matching
pub mod Capacity
pub mod Selector
pub mod NodeStatus
pub mod Provisioner
pub mod NodeReady
pub mod Reaper
pub mod Orphan
pub mod Watch
pub mod LifeCycle
