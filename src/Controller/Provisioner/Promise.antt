-- ===== src/Controller/Provisioner/Promise.antt =====
-- What `ProvisionerReconciler.Reconcile` keeps to: room in the pool at each launch, and a stored status
-- that accounts for the launches.
use cloud_burst_controller.Common.{
  ℕ, ◌+◌, ◌≤◌, ◌<◌, ◌≡◌, IsInt32, pos_part, String, List, [], ◌∷◌, ◌++◌, map, length, All,
}
use cloud_burst_controller.Kube.{NamespacedName}
use cloud_burst_controller.Api.{pending, BurstNodeStatus, BurstNodePool}
use cloud_burst_controller.Errors.{ok}
use cloud_burst_controller.Effect.{
  Request, Response, get_pool, list_pods, update_pool_status, launch_node, terminate_node,
}
use cloud_burst_controller.Effect.Contract.{Event, event, Trace, Happened, Contract}
use cloud_burst_controller.Controller.NodeStatus.Valid.{
  pending_weight, active_weight, weigh, IsValid,
}

-- The instances that were launched, in order.
abbrev pub extend_launches : (q : Request) → Response q → List String → List String
extend_launches (launch_node opts) (ok id) ids = ids ++ id ∷ []
extend_launches _ _ ids = ids

abbrev pub launches : Trace → List String
launches [] = []
launches (e ∷ tr) = extend_launches e.request e.response (launches tr)

abbrev pub instance_ids : BurstNodePool → List String
instance_ids pool = map (λ (n : BurstNodeStatus). n.instance_id) pool.status.nodes

-- The number of entries in a pool's status.
abbrev pub entries : BurstNodePool → ℕ
entries pool = weigh active_weight pool.status.nodes + weigh pending_weight pool.status.nodes

abbrev pub Fetched : BurstNodePool → Event → Type 0
Fetched pool e = (key : NamespacedName) × (e ≡ event (get_pool key) (ok pool))

-- What is assumed of a response: a fetched pool has a valid status and an int32 maximum, and a list of
-- pods has an int32 length.
abbrev pub Assume : (q : Request) → Response q → Type 0
Assume (get_pool key) (ok pool) = IsValid pool.status × IsInt32 pool.spec.scaling.max_nodes
Assume list_pods (ok pods) = length pods ≤ 2147483647
Assume _ _ = Unit

-- A launch needs room in the pool that was fetched, beside its entries and the launches so far.
abbrev pub MayLaunch : Trace → Type 0
MayLaunch tr =
    (pool : BurstNodePool) × Happened (Fetched pool) tr
    × (entries pool + length (launches tr) < pos_part pool.spec.scaling.max_nodes)

-- The stored pool is the fetched one with these instances added: the entries that were there are
-- unchanged, and after them comes one pending entry for each of the instances, in order.
pub record Extends (fetched stored : BurstNodePool) (ids : List String) : Type 0 where
  pub namespace : stored.namespace ≡ fetched.namespace
  pub name : stored.name ≡ fetched.name
  pub spec : stored.spec ≡ fetched.spec
  pub added : List BurstNodeStatus
  pub nodes : stored.status.nodes ≡ fetched.status.nodes ++ added
  pub all_pending : All (λ (n : BurstNodeStatus). n.state ≡ pending) added
  pub each_launched : map (λ (n : BurstNodeStatus). n.instance_id) added ≡ ids

-- The stored status is valid, within the maximum, and has the entries of the fetched pool and one more
-- for each launch, in order: the former unchanged and the latter pending.
pub record MayStore (tr : Trace) (stored : BurstNodePool) : Type 0 where
  pub fetched : BurstNodePool
  pub was_fetched : Happened (Fetched fetched) tr
  pub valid : IsValid stored.status
  pub accounted : instance_ids stored ≡ instance_ids fetched ++ launches tr
  pub extends : Extends fetched stored (launches tr)
  pub within : entries stored ≤ pos_part fetched.spec.scaling.max_nodes

abbrev pub Promise : Trace → Request → Type 0
Promise tr (launch_node opts) = MayLaunch tr
Promise tr (update_pool_status pool) = MayStore tr pool
Promise tr (terminate_node id) = ⊥
Promise tr _ = Unit

abbrev pub contract : Contract
contract = record { assume = Assume; promise = Promise }
