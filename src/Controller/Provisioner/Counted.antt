-- ===== src/Controller/Provisioner/Counted.antt =====
-- What `ProvisionerReconciler.Reconcile` keeps to when a pool may count active nodes without an entry.
use cloud_burst_controller.Common.{ℕ, ◌+◌, ◌≤◌, ◌<◌, ◌≡◌, IsInt32, pos_part, ◌++◌, length}
use cloud_burst_controller.Api.{BurstNodePool}
use cloud_burst_controller.Errors.{ok}
use cloud_burst_controller.Effect.{
  Request, Response, get_pool, list_pods, update_pool_status, launch_node, terminate_node,
}
use cloud_burst_controller.Effect.Contract.{Trace, Happened, Contract}
use cloud_burst_controller.Controller.NodeStatus.Valid.{IsCountedBy, IsCounted}
use cloud_burst_controller.Controller.Provisioner.Promise.{
  launches, instance_ids, entries, Fetched, Extends,
}

abbrev pub Assume : (q : Request) → Response q → Type 0
Assume (get_pool key) (ok pool) = IsCounted pool.status × IsInt32 pool.spec.scaling.max_nodes
Assume list_pods (ok pods) = length pods ≤ 2147483647
Assume _ _ = Unit

-- A launch needs room in the pool that was fetched, beside what it counts and the launches so far.
pub record MayLaunch (tr : Trace) : Type 0 where
  pub slack : ℕ
  pub fetched : BurstNodePool
  pub was_fetched : Happened (Fetched fetched) tr
  pub before : IsCountedBy slack fetched.status
  pub room :
      slack + (entries fetched + length (launches tr)) < pos_part fetched.spec.scaling.max_nodes

-- The stored status counts as many nodes without an entry as the fetched one.
pub record MayStore (tr : Trace) (stored : BurstNodePool) : Type 0 where
  pub slack : ℕ
  pub fetched : BurstNodePool
  pub was_fetched : Happened (Fetched fetched) tr
  pub before : IsCountedBy slack fetched.status
  pub after : IsCountedBy slack stored.status
  pub accounted : instance_ids stored ≡ instance_ids fetched ++ launches tr
  pub extends : Extends fetched stored (launches tr)
  pub within : slack + entries stored ≤ pos_part fetched.spec.scaling.max_nodes

abbrev pub Promise : Trace → Request → Type 0
Promise tr (launch_node opts) = MayLaunch tr
Promise tr (update_pool_status pool) = MayStore tr pool
Promise tr (terminate_node id) = ⊥
Promise tr _ = Unit

abbrev pub contract : Contract
contract = record { assume = Assume; promise = Promise }
