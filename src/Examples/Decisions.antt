-- ===== src/Examples/Decisions.antt =====
-- The decisions on the pool, the pod and the instance types of the cluster.
use mathlib.Core.Logic.Or
use mathlib.Core.List.Perm
use mathlib.Core.List.{Mem, mem-cons, mem-singleton}
use cloud_burst_controller.Common.{
  string_set, ℕ, ◌*◌, ◌≤◌, ◌≡◌, ◌≢◌, ◌⊎◌, ◌↔◌, refl, sym, ap, ◌∙◌, suc, pos, ◌+ℤ◌, ◌≤ℤ◌, pos_part,
  IsInt32, true, false, List, [], ◌∷◌, length, arith, eq_iff,
}
use cloud_burst_controller.Kube.{Pod}
use cloud_burst_controller.Api.{terminating, running, BurstNodePool}
use cloud_burst_controller.Controller.Capacity.{
  default_capacity, calculate_nodes_needed, estimate_pods_per_node,
}
use cloud_burst_controller.Controller.Capacity.Needed.{
  groups, calculate_nodes_needed-bounds, calculate_nodes_needed-enough,
}
use cloud_burst_controller.Controller.Matching.{match_pod_to_pool, pod_matches_pool}
use cloud_burst_controller.Controller.Matching.Rules.{Matches, pod_matches_pool-Says}
use cloud_burst_controller.Controller.Matching.Best.{
  IsBestMatch, match_pod_to_pool-IsBestMatch, match_pod_to_pool-perm,
}
use cloud_burst_controller.Controller.NodeStatus.{Found}
use cloud_burst_controller.Controller.NodeStatus.Valid.{active_weight, weigh, IsValid}
use cloud_burst_controller.Controller.Orphan.{remove_entry}
use cloud_burst_controller.Controller.Orphan.Removal.{
  remove_entry-IsValid, remove_entry_terminating,
}
use cloud_burst_controller.Talos.{mapping, other, Fields, end, field, set_hostname}
use cloud_burst_controller.Talos.Patched.{IsPatched, set_hostname-IsPatched}
use cloud_burst_controller.Examples.{
  running_pool, terminating_pool, terminating_pool-IsValid, running_pool-IsValid, entry_in,
  waiting_pod, pool_sorter, pool_with,
}

abbrev five : List Pod
five = waiting_pod ∷ waiting_pod ∷ waiting_pod ∷ waiting_pod ∷ waiting_pod ∷ []

five-IsInt32 : IsInt32 (pos 5)
five-IsInt32 = record { below = omega arith; above = omega arith }

calculate_nodes_needed-bounds_example :
    (pos 0 ≤ℤ calculate_nodes_needed five default_capacity (pos 3) (pos 5))
    × (pos 5 ≤ℤ pos 3 → calculate_nodes_needed five default_capacity (pos 3) (pos 5) ≡ pos 0)
    × (pos 3 ≤ℤ pos 5
        → pos 3 +ℤ calculate_nodes_needed five default_capacity (pos 3) (pos 5) ≤ℤ pos 5)
calculate_nodes_needed-bounds_example =
    calculate_nodes_needed-bounds five default_capacity (pos 3) (pos 5) (omega arith) five-IsInt32
      (omega arith)

calculate_nodes_needed-enough_example :
    let needed = calculate_nodes_needed five default_capacity (pos 3) (pos 5) in
    let per_node = groups (estimate_pods_per_node five default_capacity) in
    ((length five ≤ pos_part needed * per_node) ⊎ (pos 3 +ℤ needed ≡ pos 5))
    × ((k : ℕ) → length five ≤ k * per_node → pos_part needed ≤ k)
calculate_nodes_needed-enough_example =
    calculate_nodes_needed-enough five default_capacity (pos 3) (pos 5) (omega arith) five-IsInt32
      (omega arith) (omega arith)

match_pod_to_pool-IsBestMatch_example :
    IsBestMatch waiting_pod
      (running_pool ∷ [])
      (match_pod_to_pool pool_sorter waiting_pod (running_pool ∷ []))
match_pod_to_pool-IsBestMatch_example =
    match_pod_to_pool-IsBestMatch pool_sorter waiting_pod (running_pool ∷ [])

abbrev pool_b : BurstNodePool
pool_b = pool_with "b" (pos 0) (pos 0) []

pool_set : IsSet BurstNodePool
pool_set = hlevel (string_set)

no_proof : false ≢ true
no_proof e = cc e

names : running_pool.name ≢ pool_b.name
names e = no_proof ((eq_iff running_pool.name pool_b.name).1 e)

two_pools :
    (p q : BurstNodePool)
    → Mem p (running_pool ∷ pool_b ∷ [])
    → Mem q (running_pool ∷ pool_b ∷ [])
    → p.name ≡ q.name
    → p ≡ q
two_pools p q m n e =
    Or.elim (pool_set p q) (mem-cons.0 m)
      (λ p_a.
        Or.elim (pool_set p q) (mem-cons.0 n) (λ q_a. p_a ∙ sym q_a)
          (λ q_b. absurd (
            names (
              ap (λ (r : BurstNodePool). r.name) (sym p_a)
              ∙ e
              ∙ ap (λ (r : BurstNodePool). r.name) ((mem-singleton pool_set).0 q_b)))))
      (λ p_b.
        Or.elim (pool_set p q) (mem-cons.0 n)
          (λ q_a. absurd (
            names (
              ap (λ (r : BurstNodePool). r.name) (sym q_a)
              ∙ sym e
              ∙ ap (λ (r : BurstNodePool). r.name) ((mem-singleton pool_set).0 p_b))))
          (λ q_b. (mem-singleton pool_set).0 p_b ∙ sym ((mem-singleton pool_set).0 q_b)))

match_pod_to_pool-perm_example :
    match_pod_to_pool pool_sorter waiting_pod (running_pool ∷ pool_b ∷ [])
    ≡ match_pod_to_pool pool_sorter waiting_pod (pool_b ∷ running_pool ∷ [])
match_pod_to_pool-perm_example =
    match_pod_to_pool-perm pool_sorter pool_sorter waiting_pod (running_pool ∷ pool_b ∷ [])
      (pool_b ∷ running_pool ∷ []) (Perm.swap pool_b running_pool []) two_pools

abbrev removed : Found
removed = record {
  pool = running_pool;
  split = record { before = []; entry = entry_in running; after = [] };
}

remove_entry-IsValid_example : IsValid (remove_entry removed).status
remove_entry-IsValid_example =
    remove_entry-IsValid (λ n. true) removed (record { nodes = refl; passes = refl })
      running_pool-IsValid (λ e. cc e)

abbrev gone : Found
gone = record {
  pool = terminating_pool;
  split = record { before = []; entry = entry_in terminating; after = [] };
}

remove_entry_terminating_example :
    ((remove_entry gone).status.active_nodes
      ≡ pos (suc (weigh active_weight (remove_entry gone).status.nodes)))
    × ¬ IsValid (remove_entry gone).status
remove_entry_terminating_example =
    remove_entry_terminating (λ n. true) gone (record { nodes = refl; passes = refl })
      terminating_pool-IsValid refl

abbrev talos_config : Fields
talos_config =
    field "machine"
      (mapping (
        field "network" (mapping (field "mtu" (other "1500") end))
          (field "type" (other "worker") end)))
      (field "version" (other "v1alpha1") end)

set_hostname-IsPatched_example :
    IsPatched "burst-a" talos_config (set_hostname "burst-a" talos_config)
set_hostname-IsPatched_example = set_hostname-IsPatched "burst-a" talos_config

pod_matches_pool-Says_example :
    pod_matches_pool waiting_pod running_pool ≡ true ↔ Matches waiting_pod running_pool
pod_matches_pool-Says_example = pod_matches_pool-Says waiting_pod running_pool
