-- ===== src/Controller/Provisioner.antt =====
-- internal/controller/provisioner_reconciler.go, `ProvisionerReconciler`: from an unschedulable pod to
-- launched instances and an updated pool status. Each stage is the part of `Reconcile` behind one
-- call or early return.
pub mod Launch
pub mod Promise
pub mod Counted
pub mod Launching
pub mod Sizing
pub mod Safe
pub mod Exact
pub mod Runs
pub mod Working
pub mod Works
pub mod Fallback
use cloud_burst_controller.Common.{
  ℕ, zero, suc, ◌/◌, ◌%◌, String, cat, ℤ, pos, ◌+ℤ◌, int32, leb_ℤ, ltb_ℤ, pos_part, Bool, true, not,
  ◌&&◌, ◌||◌, Option, none, some, List, [], ◌∷◌, ◌++◌, filter, get_or, is_some, lookup, insert,
  text_at, str_eq, ◌==◌, if◌then◌else◌,
}
use cloud_burst_controller.Common.Sorting.{Sorter}
use cloud_burst_controller.Kube.{Time, Duration, Condition, NamespacedName, Pod, Secret}
use cloud_burst_controller.Api.{
  InstanceTypeConfig, AwsConfig, BurstNodePool, BurstNodePoolStatus, pending,
}
use cloud_burst_controller.Errors.{Error, message, wrapped, Result, ok, err}
use cloud_burst_controller.Effect.{
  get_pod, list_pods, update_pod, get_pool, list_pools, update_pool_status, get_secret, now,
  random_bytes, Program, ret, call, ◌>>=◌, since, seconds, Outcome, done, requeue, fail,
  fail_unless_not_found,
}
use cloud_burst_controller.Talos.{Yaml, patch_and_encode}
use cloud_burst_controller.Controller.Matching.{
  name_less, match_pod_to_pool, is_burst_enabled, says_unschedulable, is_pod_unschedulable,
}
use cloud_burst_controller.Controller.Capacity.{
  InstanceCapacity, default_capacity, calculate_nodes_needed,
}
use cloud_burst_controller.Controller.Capacity.Table.{get_instance_capacity}
use cloud_burst_controller.Controller.Selector.{type_less, select_instance_types}
use cloud_burst_controller.Controller.NodeStatus.{increment}
use Launch.{launch_with_fallback, Launched}

abbrev pub default_debounce_period : Duration
default_debounce_period = seconds 30

-- The last transition of the condition that says that the pod is unschedulable; else the zero time.
unfoldable pub unschedulable_since : List Condition → Time
unschedulable_since [] = 0
unschedulable_since (c ∷ cs) =
    if says_unschedulable c then c.last_transition_time else unschedulable_since cs

unfoldable pub pod_unschedulable_since : Pod → Time
unfolding unschedulable_since
pod_unschedulable_since pod = unschedulable_since pod.conditions

-- Four random bytes in hexadecimal.
abbrev hex_digits : List String
hex_digits =
    "0" ∷ "1" ∷ "2" ∷ "3" ∷ "4" ∷ "5" ∷ "6" ∷ "7" ∷ "8" ∷ "9" ∷ "a" ∷ "b" ∷ "c" ∷ "d" ∷ "e" ∷ "f"
    ∷ []

unfoldable pub encode_hex : List ℕ → String
unfolding cat
encode_hex [] = ""
encode_hex (b ∷ bs) =
    cat (get_or hex_digits (b / 16) "") (cat (get_or hex_digits (b % 16) "") (encode_hex bs))

unfoldable pub node_name_for : BurstNodePool → List ℕ → String
unfolding encode_hex
node_name_for pool bytes = cat "burst-" (cat pool.name (cat "-" (encode_hex bytes)))

-- The pool with one more pending node in its status.
unfoldable pub add_pending_node : BurstNodePool → String → Launched → Time → BurstNodePool
add_pending_node pool node_name launched at_time = record pool {
  status = record {
    active_nodes = pool.status.active_nodes;
    pending_nodes = increment pool.status.pending_nodes;
    nodes =
        pool.status.nodes
        ++ record {
          name = node_name;
          instance_id = launched.instance_id;
          instance_type = launched.instance_type;
          state = pending;
          launched_at = at_time;
          ready_at = none;
          last_pod_finished = none;
        }
          ∷ [];
  };
}

-- The capacity of the primary type, or the default.
unfoldable pub capacity_or_default : Option InstanceCapacity → InstanceCapacity
capacity_or_default none = default_capacity
capacity_or_default (some cap) = cap

unfoldable pub config_key_of : BurstNodePool → String
config_key_of pool =
    let key = pool.spec.talos.machine_config_key in if str_eq key "" then "worker.yaml" else key

unfoldable pub is_provisioned : Pod → Bool
is_provisioned pod = str_eq (text_at "burst.homelab.dev/provisioned" pod.annotations) "true"

unfoldable pub mark_provisioned : Pod → Pod
mark_provisioned pod = record pod {
  annotations = insert "burst.homelab.dev/provisioned" "true" pod.annotations;
}

module _ (yaml : Yaml) (config_data : List ℕ) (candidates : List InstanceTypeConfig) where
  unfoldable pub add_launched : BurstNodePool → String → Result Launched → Program BurstNodePool
  add_launched pool node_name (err e) = ret pool
  add_launched pool node_name (ok launched) =
      call now λ at_time. ret (add_pending_node pool node_name launched at_time)

  unfoldable pub launch_configured :
      BurstNodePool → String → Result (List ℕ) → Program BurstNodePool
  launch_configured pool node_name (err e) = ret pool
  launch_configured pool node_name (ok user_data) =
      launch_with_fallback pool.spec.aws candidates node_name user_data
      >>= add_launched pool node_name

  -- One round of the loop over `nodesNeeded`; a failure is logged and leaves the pool.
  unfoldable pub launch_node_for : BurstNodePool → Program BurstNodePool
  launch_node_for pool = call (random_bytes 4) λ bytes.
      let node_name = node_name_for pool bytes in
      launch_configured pool node_name (patch_and_encode yaml config_data node_name)

  unfoldable pub launch_nodes : ℕ → BurstNodePool → Program BurstNodePool
  launch_nodes zero pool = ret pool
  launch_nodes (suc n) pool = launch_node_for pool >>= λ pool'. launch_nodes n pool'

-- The `ProvisionerReconciler` with its configuration, and the two uses of `sort.Slice`.
module _ (yaml : Yaml) (sort_pools : Sorter name_less) (sort_types : Sorter type_less)
    (configured_period : Duration) where
  unfoldable pub debounce_period : Duration
  debounce_period =
      if ltb_ℤ (pos 0) configured_period then configured_period else default_debounce_period

  -- After the launches: persist the status, then annotate the pod (an error of that is logged).
  unfoldable pub persist : Pod → BurstNodePool → Program Outcome
  persist pod pool = call (update_pool_status pool) (elim [
    | err e ↦ ret (fail (wrapped "updating pool status" e))
    | ok _ ↦ call (update_pod (mark_provisioned pod)) λ _. ret done
  ])

  unfoldable pub provision :
      Pod → BurstNodePool → List InstanceTypeConfig → ℕ → Secret → Program Outcome
  provision pod pool candidates needed secret = elim (lookup (config_key_of pool) secret.contents) [
    | none ↦ ret (fail (message "key not found in secret"))
    | some config_data ↦
        launch_nodes yaml config_data candidates needed pool >>= λ pool'. persist pod pool'
  ]

  -- From the candidates on: how many nodes, and the Talos secret.
  unfoldable pub size_and_provision :
      Pod → BurstNodePool → List Pod → List InstanceTypeConfig → Program Outcome
  size_and_provision pod pool matching [] = ret (requeue (seconds 30))
  size_and_provision pod pool matching (primary ∷ others) =
      let needed =
        calculate_nodes_needed matching (capacity_or_default (get_instance_capacity primary.name))
          (int32 (pool.status.active_nodes +ℤ pool.status.pending_nodes))
          pool.spec.scaling.max_nodes in
      if leb_ℤ needed (pos 0)
      then ret (requeue (seconds 30))
      else call
          (get_secret
            (record { namespace = pool.namespace; name = pool.spec.talos.machine_config_secret }))
          (elim [
            | err e ↦ ret (fail (wrapped "getting Talos config secret" e))
            | ok secret ↦ provision pod pool (primary ∷ others) (pos_part needed) secret
          ])

  -- The unschedulable pods that match the pool.
  unfoldable pub matching_pods : BurstNodePool → List Pod → List Pod
  matching_pods pool =
      filter (λ p. is_pod_unschedulable p && is_some (match_pod_to_pool sort_pools p (pool ∷ [])))

  -- With the pool fetched again: the capacity check and the batch.
  unfoldable pub check_capacity : Pod → BurstNodePool → Program Outcome
  check_capacity pod pool =
      if leb_ℤ pool.spec.scaling.max_nodes
        (int32 (pool.status.active_nodes +ℤ pool.status.pending_nodes))
      then ret (requeue (seconds 30))
      else call list_pods (elim [
        | err e ↦ ret (fail (wrapped "listing pods" e))
        | ok pods ↦
            let matching = matching_pods pool pods in
            size_and_provision pod pool matching (select_instance_types sort_types pool matching)
      ])

  unfoldable pub with_pool : Pod → BurstNodePool → Program Outcome
  with_pool pod pool =
      if is_provisioned pod
      then ret done
      else call (get_pool (record { namespace = pool.namespace; name = pool.name })) (elim [
        | err e ↦ ret (fail (wrapped "re-fetching pool" e))
        | ok fresh ↦ check_capacity pod fresh
      ])

  unfoldable pub match_pool : Pod → Program Outcome
  match_pool pod = call list_pools (elim [
    | err e ↦ ret (fail (wrapped "listing BurstNodePools" e))
    | ok pools ↦ elim (match_pod_to_pool sort_pools pod pools) [
      | none ↦ ret done
      | some pool ↦ with_pool pod pool
    ]
  ])

  -- The debounce of a pod that is not burst-enabled: the clock is read only for a known time.
  unfoldable pub debounce : Pod → Program Outcome
  debounce pod =
      if is_burst_enabled pod
      then match_pool pod
      else (if pod_unschedulable_since pod == 0
          then ret (requeue debounce_period)
          else call now λ at_time.
            if ltb_ℤ (since at_time (pod_unschedulable_since pod)) debounce_period
            then ret (requeue debounce_period)
            else match_pool pod)

  unfoldable pub reconcile : NamespacedName → Program Outcome
  reconcile key = call (get_pod key) (elim [
    | err e ↦ ret (fail_unless_not_found e)
    | ok pod ↦ if is_pod_unschedulable pod then debounce pod else ret done
  ])
