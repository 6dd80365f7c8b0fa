-- ===== src/Examples/Traces.antt =====
-- What is called in the runs of the cluster.
use cloud_burst_controller.Common.{
  true, ◌≡◌, refl, String, List, [], ◌∷◌, lookup, all, int32, int64, quot, filter, ◌+ℤ◌, ◌-ℤ◌,
}
use cloud_burst_controller.Kube.{NamespacedName}
use cloud_burst_controller.Effect.{Request, terminate_node, seconds, Outcome, since}
use cloud_burst_controller.Effect.Contract.{Trace, Ending, returned, panicked, run}
use cloud_burst_controller.Controller.Reaper
use cloud_burst_controller.Controller.Orphan
use cloud_burst_controller.Controller.NodeReady
use cloud_burst_controller.Controller.Provisioner
use cloud_burst_controller.Drain.{cordon_node, drain_node}
use cloud_burst_controller.Controller.NodeStatus.{find_pool_and_node, find_node, has_name}
use cloud_burst_controller.Common.Sorting.{insertion_sort}
use cloud_burst_controller.Api.Resolve.{resolve_instance_types}
use cloud_burst_controller.Talos.{patch_and_encode, patch_hostname, set_hostname, get_field}
use cloud_burst_controller.Controller.Matching.{
  is_pod_unschedulable, is_burst_enabled, match_pod_to_pool, scan_pools, is_better,
  pod_matches_pool, pool_specificity_score,
}
use cloud_burst_controller.Controller.Selector.{
  select_instance_types, candidate_fits, max_pod_requirements, capacity_fits, required_architecture,
  max_requirements_from, raise_requirements, pod_gpu_requests, known_less,
}
use cloud_burst_controller.Controller.Capacity.{
  sum_requests, requested, pod_resource_requests, estimate_pods_per_node, estimate_for,
  max_requests, at_least_one, min_ℤ, fit_by, calculate_nodes_needed, nodes_for, div_ceil,
}
use cloud_burst_controller.Controller.Capacity.Table.{get_instance_capacity}
use cloud_burst_controller.Controller.Provisioner.Launch.{launch_with_fallback}
use cloud_burst_controller.Examples.{
  running_pool, pending_pool, pool_sorter, type_sorter, plain_yaml, cluster,
}

abbrev trace_of : Ending Outcome → Trace
trace_of (returned tr o) = tr
trace_of (panicked tr) = tr

-- The instances whose termination was asked for, the latest first.
abbrev terminated_by : Request → List String → List String
terminated_by (terminate_node id) ids = id ∷ ids
terminated_by _ ids = ids

abbrev terminated : Trace → List String
terminated [] = []
terminated (e ∷ tr) = terminated_by e.request (terminated tr)

reaper_run :
    terminated (
      trace_of
        (run (cluster running_pool "True") tt [] (Reaper.reconcile true (seconds 30) "burst-a")))
    ≡ "i-1" ∷ []
unfolding run Reaper.reconcile NodeReady.is_managed Reaper.handle_found find_pool_and_node find_node
    has_name Reaper.is_running Reaper.handle_running all Reaper.handle_idle Reaper.check_cooldown
    Reaper.in_cooldown since Reaper.cooldown_of Reaper.tear_down Reaper.update_then
    Reaper.if_drainer cordon_node drain_node Reaper.terminate Reaper.remove_node
reaper_run = refl

orphan_run :
    terminated (
      trace_of
        (run (cluster running_pool "True") tt [] (Orphan.reconcile (seconds 60) (seconds 600))))
    ≡ "i-2" ∷ []
unfolding run Orphan.reconcile Orphan.check_instances Orphan.check_instance Orphan.has_node
    Orphan.in_boot_timeout since Orphan.boot_timeout Orphan.remove_from_pool_status
    Orphan.remove_found find_pool_and_node find_node has_name Orphan.check_nodes Orphan.check_node
    Orphan.has_instance
orphan_run = refl

node_ready_run :
    terminated (trace_of (run (cluster pending_pool "False") tt [] (NodeReady.reconcile "burst-a")))
    ≡ "i-1" ∷ []
unfolding run NodeReady.reconcile NodeReady.is_burst_node NodeReady.is_managed
    NodeReady.handle_entry find_pool_and_node find_node NodeReady.is_pending_entry has_name
    NodeReady.is_node_ready NodeReady.check_boot_timeout NodeReady.is_past_boot_timeout
    NodeReady.boot_timeout since NodeReady.store_status
node_ready_run = refl

abbrev pod_key : NamespacedName
pod_key = record { namespace = "default"; name = "job" }

provisioner_run :
    Provisioner.Promise.launches (
      trace_of (
        run
          (cluster running_pool "True")
          tt
          []
          (Provisioner.reconcile plain_yaml pool_sorter type_sorter (seconds 30) pod_key)))
    ≡ "i-3" ∷ []
unfolding run Provisioner.reconcile is_pod_unschedulable Provisioner.debounce is_burst_enabled
    Provisioner.match_pool match_pod_to_pool scan_pools insertion_sort is_better pod_matches_pool
    pool_specificity_score Provisioner.with_pool Provisioner.is_provisioned
    Provisioner.check_capacity Provisioner.matching_pods int32 ◌+ℤ◌ Provisioner.size_and_provision
    select_instance_types candidate_fits max_pod_requirements filter resolve_instance_types
    get_instance_capacity capacity_fits required_architecture max_requirements_from
    raise_requirements pod_gpu_requests sum_requests int64 requested pod_resource_requests
    known_less estimate_pods_per_node estimate_for max_requests at_least_one min_ℤ fit_by quot
    calculate_nodes_needed nodes_for div_ceil Provisioner.capacity_or_default Provisioner.provision
    Provisioner.config_key_of lookup Provisioner.launch_nodes Provisioner.launch_node_for
    Provisioner.launch_configured Provisioner.add_launched patch_and_encode patch_hostname
    set_hostname launch_with_fallback Provisioner.persist ◌-ℤ◌ get_field
provisioner_run = refl
