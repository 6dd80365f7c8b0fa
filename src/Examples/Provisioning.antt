-- ===== src/Examples/Provisioning.antt =====
-- The provisioner of the cluster: while everything works, when the launches fail, and for a pod that
-- no pool matches.
use cloud_burst_controller.Common.{
  ℕ, zero, suc, text_at, ℤ, ◌≡◌, refl, pos, true, false, String, some, List, [], ◌∷◌, lookup, int32,
  int64, quot, filter, ◌+ℤ◌, ◌-ℤ◌, leb_ℤ, pos_part,
}
use cloud_burst_controller.Common.Sorting.{insertion_sort}
use cloud_burst_controller.Kube.{NamespacedName, Pod}
use cloud_burst_controller.Api.{BurstNodePool}
use cloud_burst_controller.Api.Resolve.{resolve_instance_types}
use cloud_burst_controller.Errors.{api_error, ok, err}
use cloud_burst_controller.Talos.{
  patch_and_encode, patch_hostname, patch_config, set_hostname, get_field,
}
use cloud_burst_controller.Effect.{
  get_pod, list_pools, get_pool, list_pods, get_secret, launch_node, seconds, Request, Response,
}
use cloud_burst_controller.Effect.Contract.{
  any_answer, Contract, Environment, Succeeded, run, Meets, EndsWell,
}
use cloud_burst_controller.Controller.Matching.{
  is_pod_unschedulable, is_burst_enabled, match_pod_to_pool, scan_pools, is_better,
  pod_matches_pool, pool_specificity_score,
}
use cloud_burst_controller.Controller.Selector.{
  select_instance_types, candidate_fits, max_pod_requirements, capacity_fits, required_architecture,
  max_requirements_from, raise_requirements, pod_gpu_requests, known_less,
}
use cloud_burst_controller.Controller.Capacity.{
  sum_requests, requested, pod_resource_requests, estimate_pods_per_node, estimate_for,
  max_requests, at_least_one, min_ℤ, fit_by, calculate_nodes_needed, nodes_for, div_ceil,
}
use cloud_burst_controller.Controller.Capacity.Table.{get_instance_capacity, instance_capacities}
use cloud_burst_controller.Controller.Provisioner
use cloud_burst_controller.Controller.Provisioner.Launch.{launch_with_fallback}
use cloud_burst_controller.Controller.Provisioner.Works
use cloud_burst_controller.Controller.Provisioner.Works.{reconcile_launches}
use cloud_burst_controller.Controller.Provisioner.Fallback
use cloud_burst_controller.Controller.Provisioner.Fallback.{launch_with_fallback-FallsBack}
use cloud_burst_controller.Controller.Watch
use cloud_burst_controller.Controller.Watch.{updated, provisioner_filter}
use cloud_burst_controller.Controller.Watch.Dropped
use cloud_burst_controller.Controller.Watch.Dropped.{reconcile_gives_up}
use cloud_burst_controller.Examples.{
  running_pool, waiting_pod, pool_sorter, type_sorter, plain_yaml, aws_config, medium, large,
  answer, cluster,
}

abbrev job_key : NamespacedName
job_key = record { namespace = "default"; name = "job" }

abbrev waiting : List Pod
waiting = waiting_pod ∷ []

abbrev job_contract : Contract
job_contract =
    Provisioner.Works.contract true pool_sorter waiting_pod running_pool running_pool waiting
      (0 ∷ [])

works_meets : Meets (cluster running_pool "True") job_contract
unfolding match_pod_to_pool scan_pools insertion_sort is_better pod_matches_pool
    pool_specificity_score Provisioner.config_key_of lookup
works_meets s (get_pod key) = refl
works_meets s list_pools = refl
works_meets s (get_pool key) = refl
works_meets s list_pods = refl
works_meets s (get_secret key) = refl
works_meets s _ = tt

patched : (name : String) → Succeeded (patch_and_encode plain_yaml (0 ∷ []) name)
unfolding patch_and_encode patch_hostname patch_config set_hostname get_field
patched name = tt

unschedulable : is_pod_unschedulable waiting_pod ≡ true
unfolding is_pod_unschedulable
unschedulable = refl

enabled : is_burst_enabled waiting_pod ≡ true
unfolding is_burst_enabled
enabled = refl

not_provisioned : Provisioner.is_provisioned waiting_pod ≡ false
unfolding Provisioner.is_provisioned text_at
not_provisioned = refl

below_maximum :
    leb_ℤ running_pool.spec.scaling.max_nodes
      (int32 (running_pool.status.active_nodes +ℤ running_pool.status.pending_nodes))
    ≡ false
unfolding int32 ◌+ℤ◌
below_maximum = refl

abbrev matching : List Pod
matching =
    Provisioner.matching_pods plain_yaml pool_sorter type_sorter (seconds 30) running_pool waiting

matching_all : matching ≡ waiting
unfolding Provisioner.matching_pods is_pod_unschedulable match_pod_to_pool scan_pools insertion_sort
    is_better pod_matches_pool pool_specificity_score filter is_burst_enabled
matching_all = refl

two_types : select_instance_types type_sorter running_pool waiting ≡ medium ∷ large ∷ []
unfolding select_instance_types insertion_sort candidate_fits max_pod_requirements filter
    resolve_instance_types get_instance_capacity capacity_fits required_architecture
    max_requirements_from raise_requirements pod_gpu_requests sum_requests int64 ◌+ℤ◌ requested
    pod_resource_requests known_less
two_types = refl

selected : select_instance_types type_sorter running_pool matching ≡ medium ∷ large ∷ []
selected = rw matching_all two_types

abbrev needed_for : List Pod → ℤ
needed_for pods =
    calculate_nodes_needed pods
      (Provisioner.capacity_or_default (get_instance_capacity medium.name))
      (int32 (running_pool.status.active_nodes +ℤ running_pool.status.pending_nodes))
      running_pool.spec.scaling.max_nodes

one_needed : leb_ℤ (needed_for waiting) (pos 0) ≡ false
unfolding calculate_nodes_needed nodes_for div_ceil estimate_pods_per_node estimate_for max_requests
    pod_resource_requests sum_requests int64 ◌+ℤ◌ ◌-ℤ◌ requested at_least_one min_ℤ fit_by int32
    quot Provisioner.capacity_or_default get_instance_capacity instance_capacities
one_needed = refl

some_needed : leb_ℤ (needed_for matching) (pos 0) ≡ false
some_needed = rw matching_all one_needed

reconcile_launches_example :
    EndsWell job_contract (Provisioner.Working.Provisioned true (pos_part (needed_for matching))) (
      run
        (cluster running_pool "True")
        tt
        []
        (Provisioner.reconcile plain_yaml pool_sorter type_sorter (seconds 30) job_key))
reconcile_launches_example =
    reconcile_launches true pool_sorter waiting_pod running_pool running_pool waiting (0 ∷ [])
      plain_yaml patched type_sorter (seconds 30) medium (large ∷ []) aws_config unschedulable
      enabled not_provisioned refl below_maximum selected some_needed job_key
      (cluster running_pool "True") tt works_meets

-- The first launch fails for want of capacity, and the later ones succeed.
abbrev launch_answer : ℕ → (q : Request) → Response q
launch_answer zero (launch_node opts) = err (api_error "InsufficientInstanceCapacity")
launch_answer (suc n) (launch_node opts) = ok "i-3"
launch_answer n q = answer running_pool "True" q

abbrev scarce : Environment
scarce = record { State = ℕ; respond = λ n q. (launch_answer n q, suc n) }

launch_with_fallback-FallsBack_example :
    EndsWell any_answer
      (Provisioner.Fallback.FallsBack aws_config "burst-c" (0 ∷ []) (medium ∷ large ∷ []))
      (run scarce 0 []
        (launch_with_fallback (some aws_config) (medium ∷ large ∷ []) "burst-c" (0 ∷ [])))
launch_with_fallback-FallsBack_example =
    launch_with_fallback-FallsBack aws_config "burst-c" (0 ∷ []) (medium ∷ large ∷ []) scarce 0

-- A pool for pods with another toleration.
abbrev gpu_pool : BurstNodePool
gpu_pool = record running_pool {
  spec = record running_pool.spec {
    match_rules = record {
      tolerations = record { key = "gpu"; operator = "Exists"; value = "" } ∷ [];
      node_affinity_labels = [];
      resources = [];
    };
  };
}

no_match_meets :
    Meets (cluster gpu_pool "True") (Watch.Dropped.pod_contract pool_sorter waiting_pod)
unfolding match_pod_to_pool scan_pools insertion_sort is_better pod_matches_pool
    pool_specificity_score
no_match_meets s (get_pod key) = refl
no_match_meets s list_pools = refl
no_match_meets s _ = tt

reconcile_gives_up_example :
    EndsWell (Watch.Dropped.pod_contract pool_sorter waiting_pod) Watch.Dropped.Done (
      run
        (cluster gpu_pool "True")
        tt
        []
        (Provisioner.reconcile plain_yaml pool_sorter type_sorter (seconds 30) job_key))
    × ((later : Pod) → provisioner_filter (updated waiting_pod later) ≡ false)
reconcile_gives_up_example =
    reconcile_gives_up plain_yaml pool_sorter type_sorter (seconds 30) waiting_pod unschedulable
      enabled job_key (cluster gpu_pool "True") tt no_match_meets
