-- ===== src/Examples/Selection.antt =====
-- The selection of instance types for the pod of the cluster.
use mathlib.Core.List.{Mem, mem-cons_self, mem-singleton}
use cloud_burst_controller.Common.{
  string_set, ◌*◌, ◌≤◌, ◌≡◌, inr, refl, none, sym, subst, pos_part, some, List, [], ◌∷◌, arith,
  int64, int32, quot, ◌+ℤ◌,
}
use cloud_burst_controller.Kube.{Pod}
use cloud_burst_controller.Api.Resolve.{resolve_instance_types}
use cloud_burst_controller.Controller.Capacity.{
  InstanceCapacity, capacity, sum_requests, requested, estimate_for, max_requests, at_least_one,
  min_ℤ, fit_by, estimate_pods_per_node, pod_resource_requests,
}
use cloud_burst_controller.Controller.Capacity.Table.{get_instance_capacity, instance_capacities}
use cloud_burst_controller.Controller.Capacity.PerNode.{estimate_pods_per_node-fits}
use cloud_burst_controller.Controller.Selector.{select_instance_types, pod_gpu_requests}
use cloud_burst_controller.Controller.Selector.Asked.{SuitsArchitecture}
use cloud_burst_controller.Controller.Selector.Fits.{
  Holds, select_instance_types-Holds, mem-select_instance_types,
}
use cloud_burst_controller.Examples.{running_pool, waiting_pod, type_sorter, aws_config, large}

abbrev waiting : List Pod
waiting = waiting_pod ∷ []

pod_set : IsSet Pod
pod_set = hlevel (string_set)

abbrev large_capacity : InstanceCapacity
large_capacity = capacity 1800 7200 0 "amd64"

large_known : get_instance_capacity large.name ≡ some large_capacity
unfolding get_instance_capacity instance_capacities
large_known = refl

large_listed : Mem large (resolve_instance_types aws_config)
unfolding resolve_instance_types
large_listed = mem-cons_self

large-Holds : Holds large_capacity waiting_pod
unfolding pod_resource_requests pod_gpu_requests sum_requests int64 ◌+ℤ◌ requested
large-Holds = record { cpu = omega arith; mem = omega arith; gpus = inr (omega arith) }

all_hold : (pod : Pod) → Mem pod waiting → Holds large_capacity pod
all_hold pod m = subst (Holds large_capacity) (sym ((mem-singleton pod_set).0 m)) large-Holds

large_suits : SuitsArchitecture waiting large large_capacity
large_suits = (none, refl, tt)

selected_large : Mem large (select_instance_types type_sorter running_pool waiting)
selected_large =
    mem-select_instance_types type_sorter running_pool waiting aws_config large large_capacity refl
      large_listed large_known all_hold large_suits

select_instance_types-Holds_example :
    ((pod : Pod) → Mem pod waiting → Holds large_capacity pod)
    × SuitsArchitecture waiting large large_capacity
select_instance_types-Holds_example =
    select_instance_types-Holds type_sorter running_pool waiting large large_capacity selected_large
      large_known

three_fit : pos_part (estimate_pods_per_node waiting large_capacity) ≡ 3
unfolding estimate_pods_per_node estimate_for max_requests pod_resource_requests sum_requests int64
    ◌+ℤ◌ requested at_least_one min_ℤ fit_by int32 quot
three_fit = refl

estimate_pods_per_node-fits_example :
    let k = pos_part (estimate_pods_per_node waiting large_capacity) in
    (k * pos_part (pod_resource_requests waiting_pod).0 ≤ 1800)
    × (k * pos_part (pod_resource_requests waiting_pod).1 ≤ 7200)
estimate_pods_per_node-fits_example =
    estimate_pods_per_node-fits waiting large_capacity 1800 7200 refl refl (omega arith)
      (omega arith) waiting_pod mem-cons_self (omega (arith, three_fit))
