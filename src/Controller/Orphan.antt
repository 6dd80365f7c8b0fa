-- ===== src/Controller/Orphan.antt =====
-- internal/controller/orphan_reconciler.go: instances without a node are terminated, nodes without an
-- instance deleted, and the entries of both removed. The clock is also read for a log line, which is
-- left out.
pub mod Removal
pub mod Safe
pub mod Runs
pub mod Sweep
pub mod Runner
pub mod Changes
use cloud_burst_controller.Common.{
  String, ℤ, pos, ltb_ℤ, Bool, Option, none, some, List, [], ◌∷◌, any, str_eq, if◌then◌else◌,
}
use cloud_burst_controller.Kube.{Time, Duration, Node}
use cloud_burst_controller.Api.{
  NodeState, pending, running, cordoned, draining, terminating, BurstNodePoolStatus, BurstNodePool,
}
use cloud_burst_controller.Cloud.{CloudNode}
use cloud_burst_controller.Errors.{Error, wrapped, Result, ok, err}
use cloud_burst_controller.Effect.{
  list_pools, update_pool_status, list_managed_nodes, delete_node, terminate_node,
  list_managed_instances, now, Program, ret, call, ◌>>=◌, since, seconds, Outcome, requeue, fail,
}
use cloud_burst_controller.Controller.NodeStatus.{
  Split, Found, find_pool_and_node, has_name, without_entry, decrement, at_least_zero,
}

-- The `switch` on the state of the removed entry.
unfoldable pub pending_after : NodeState → ℤ → ℤ
pending_after pending n = decrement n
pending_after running n = n
pending_after cordoned n = n
pending_after draining n = n
pending_after terminating n = n

unfoldable pub active_after : NodeState → ℤ → ℤ
active_after pending n = n
active_after running n = decrement n
active_after cordoned n = decrement n
active_after draining n = decrement n
active_after terminating n = n

unfoldable pub remove_entry : Found → BurstNodePool
remove_entry f = record f.pool {
  status = record (without_entry f) {
    active_nodes = at_least_zero (active_after f.split.entry.state f.pool.status.active_nodes);
    pending_nodes = at_least_zero (pending_after f.split.entry.state f.pool.status.pending_nodes);
  };
}

-- Errors are logged.
unfoldable pub remove_found : Option Found → Program Unit
remove_found none = ret tt
remove_found (some f) = call (update_pool_status (remove_entry f)) λ _. ret tt

unfoldable pub remove_from_pool_status : String → Program Unit
remove_from_pool_status name =
    call list_pools
      (elim [ err e ↦ ret tt | ok pools ↦ remove_found (find_pool_and_node (has_name name) pools) ])

unfoldable pub has_node : List Node → String → Bool
unfolding any
has_node nodes name = any (λ (n : Node). str_eq n.name name) nodes

unfoldable pub has_instance : List CloudNode → String → Bool
unfolding any
has_instance instances name = any (λ (cn : CloudNode). str_eq cn.name name) instances

unfoldable pub in_boot_timeout : Duration → CloudNode → Time → Bool
in_boot_timeout timeout cn at_time = ltb_ℤ (since at_time cn.launched_at) timeout

-- Case 1, one instance.
unfoldable pub check_instance : Duration → List Node → CloudNode → Program Unit
check_instance timeout nodes cn =
    if has_node nodes cn.name
    then ret tt
    else call now λ at_time.
      if in_boot_timeout timeout cn at_time
      then ret tt
      else call (terminate_node cn.instance_id) λ _. remove_from_pool_status cn.name

unfoldable pub check_instances : Duration → List Node → List CloudNode → Program Unit
check_instances timeout nodes [] = ret tt
check_instances timeout nodes (cn ∷ cns) =
    check_instance timeout nodes cn >>= λ _. check_instances timeout nodes cns

-- Case 2, one node.
unfoldable pub check_node : List CloudNode → Node → Program Unit
check_node instances node =
    if has_instance instances node.name
    then ret tt
    else call (delete_node node.name) λ _. remove_from_pool_status node.name

unfoldable pub check_nodes : List CloudNode → List Node → Program Unit
check_nodes instances [] = ret tt
check_nodes instances (n ∷ ns) = check_node instances n >>= λ _. check_nodes instances ns

module _ (configured_interval configured_timeout : Duration) where
  unfoldable pub check_interval : Duration
  check_interval = if ltb_ℤ (pos 0) configured_interval then configured_interval else seconds 300

  unfoldable pub boot_timeout : Duration
  boot_timeout = if ltb_ℤ (pos 0) configured_timeout then configured_timeout else seconds 300

  unfoldable pub reconcile : Program Outcome
  reconcile = call list_managed_instances (elim [
    | err e ↦ ret (fail (wrapped "listing managed cloud nodes" e))
    | ok instances ↦ call list_managed_nodes (elim [
      | err e ↦ ret (fail (wrapped "listing burst K8s nodes" e))
      | ok nodes ↦ check_instances boot_timeout nodes instances >>= λ _.
          check_nodes instances nodes >>= λ _. ret (requeue check_interval)
    ])
  ])
