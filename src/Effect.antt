-- ===== src/Effect.antt =====
-- A reconciler as a program of calls: each call of the Kubernetes API, the cloud provider, the drain
-- helper, the clock and the random source is a `Request`, and the program goes on with whatever
-- response the environment gives. Nothing is assumed of the environment but what a contract says.
pub mod Contract
use cloud_burst_controller.Common.{
  ℕ, ◌*◌, String, Bool, List, ℤ, pos, sub_ℕ, ltb_ℤ, negsuc, if◌then◌else◌, Option, none, some,
}
use cloud_burst_controller.Kube.{Time, Duration, NamespacedName, Pod, Node, Secret}
use cloud_burst_controller.Api.{BurstNodePool}
use cloud_burst_controller.Cloud.{LaunchOptions, CloudNode}
use cloud_burst_controller.Errors.{Error, Result, is_not_found}

-- `kubedrain.Helper`, without its context and client. kubectl documents a negative grace period as that of
-- each pod.
pub record DrainHelper : Type 0 where
  pub force : Bool
  pub grace_period_seconds : ℤ
  pub ignore_all_daemon_sets : Bool
  pub delete_empty_dir_data : Bool
  pub timeout : Duration

pub data Request : Type 0 where
  get_pod : NamespacedName → Request
  list_pods : Request
  -- the pods with this `spec.nodeName`
  list_pods_on : String → Request
  update_pod : Pod → Request
  get_pool : NamespacedName → Request
  list_pools : Request
  update_pool_status : BurstNodePool → Request
  get_secret : NamespacedName → Request
  get_node : String → Request
  -- the nodes labelled burst.homelab.dev/managed=true
  list_managed_nodes : Request
  update_node : Node → Request
  delete_node : String → Request
  -- `kubedrain.RunNodeDrain`
  run_node_drain : DrainHelper → String → Request
  launch_node : LaunchOptions → Request
  terminate_node : String → Request
  list_managed_instances : Request
  now : Request
  random_bytes : ℕ → Request

abbrev pub Response : Request → Type 0
Response (get_pod key) = Result Pod
Response list_pods = Result (List Pod)
Response (list_pods_on name) = Result (List Pod)
Response (update_pod pod) = Result Unit
Response (get_pool key) = Result BurstNodePool
Response list_pools = Result (List BurstNodePool)
Response (update_pool_status pool) = Result Unit
Response (get_secret key) = Result Secret
Response (get_node name) = Result Node
Response list_managed_nodes = Result (List Node)
Response (update_node node) = Result Unit
Response (delete_node name) = Result Unit
Response (run_node_drain helper name) = Result Unit
Response (launch_node opts) = Result String
Response (terminate_node id) = Result Unit
Response list_managed_instances = Result (List CloudNode)
Response now = Time
Response (random_bytes n) = List ℕ

-- `panic` is a nil pointer dereference.
pub data Program (A : Type 0) : Type 0 where
  ret : A → Program A
  panic : Program A
  call : (q : Request) → (Response q → Program A) → Program A

module _ {A B : Type 0} where
  infixl 5 ◌>>=◌
  abbrev pub ◌>>=◌ : Program A → (A → Program B) → Program B
  ret a >>= f = f a
  panic >>= f = panic
  call q k >>= f = call q (λ r. k r >>= f)

-- `time.Since(t)` at the time `n`: the difference, kept within an int64.
unfoldable pub since : (n t : Time) → Duration
since n t =
    let d = sub_ℕ n t in
    if ltb_ℤ (pos 9223372036854775807) d
    then pos 9223372036854775807
    else (if ltb_ℤ d (negsuc 9223372036854775807) then negsuc 9223372036854775807 else d)

abbrev pub seconds : ℕ → Duration
seconds n = pos (n * 1000000000)

-- What a call of `Reconcile` returns: `ctrl.Result` and the error.
pub record Outcome : Type 0 where
  pub requeue_after : Duration
  pub error : Option Error

abbrev pub done : Outcome
done = record { requeue_after = pos 0; error = none }

abbrev pub requeue : Duration → Outcome
requeue d = record { requeue_after = d; error = none }

abbrev pub fail : Error → Outcome
fail e = record { requeue_after = pos 0; error = some e }

-- `if errors.IsNotFound(err) { return ctrl.Result{}, nil }; return ctrl.Result{}, err`
abbrev pub fail_unless_not_found : Error → Outcome
fail_unless_not_found e = if is_not_found e then done else fail e
