-- ===== src/Controller/Watch.antt =====
-- internal/controller, the `SetupWithManager` functions of `ProvisionerReconciler`, `NodeReadyReconciler`
-- and `ReaperReconciler`: which events of the watched objects reach `Reconcile`, and the index by which
-- the reaper lists the pods of a node.
pub mod Dropped
pub mod Idle
use cloud_burst_controller.Common.{
  String, Bool, true, false, not, ◌&&◌, List, [], ◌∷◌, str_eq, if◌then◌else◌,
}
use cloud_burst_controller.Kube.{Pod, Node}
use cloud_burst_controller.Controller.Matching.{is_pod_unschedulable}
use cloud_burst_controller.Controller.NodeReady.{is_managed}

pub data WatchEvent (A : Type 0) : Type 0 where
  created : A → WatchEvent A
  updated : (old new : A) → WatchEvent A
  deleted : A → WatchEvent A
  generic : A → WatchEvent A

-- An update passes when the pod becomes unschedulable.
unfoldable pub provisioner_filter : WatchEvent Pod → Bool
provisioner_filter (created pod) = true
provisioner_filter (updated old new) = is_pod_unschedulable new && not (is_pod_unschedulable old)
provisioner_filter (deleted pod) = false
provisioner_filter (generic pod) = false

unfoldable pub node_ready_filter : WatchEvent Node → Bool
node_ready_filter (created node) = true
node_ready_filter (updated old new) = true
node_ready_filter (deleted node) = false
node_ready_filter (generic node) = false

-- Nil labels have no such label.
unfoldable pub reaper_filter : WatchEvent Node → Bool
reaper_filter (created node) = is_managed node
reaper_filter (updated old new) = is_managed new
reaper_filter (deleted node) = false
reaper_filter (generic node) = false

-- The values of the index `spec.nodeName`.
unfoldable pub node_name_index : Pod → List String
node_name_index pod = if str_eq pod.node_name "" then [] else pod.node_name ∷ []
