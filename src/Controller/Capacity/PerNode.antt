-- ===== src/Controller/Capacity/PerNode.antt =====
-- What `estimatePodsPerNode` promises.
use mathlib.Core.List.{Mem}
use mathlib.Core.HLevel.{×_prop}
use native.Mathlib.Bridge.{le_prop}
use cloud_burst_controller.Common.{
  ℕ, zero, suc, ◌*◌, ◌/◌, ◌≤◌, ◌≡◌, ℤ, pos, negsuc, ◌≤ℤ◌, pos_part, quot, int32_of_range,
  parts_apart, List, [], ◌∷◌, All, All-mem, arith,
}
use cloud_burst_controller.Kube.{Pod}
use cloud_burst_controller.Controller.Capacity.{
  InstanceCapacity, pod_resource_requests, max_requests, raise_to, fit_by, min_ℤ, estimate_for,
  estimate_pods_per_node, at_least_one,
}

-- How many times a positive request fits into a capacity.
fit_by_fits :
    (available requested : ℕ)
    → available ≤ 2147483647
    → 1 ≤ requested
    → fit_by (pos available) (pos requested) ≡ pos (available / requested)
unfolding fit_by quot
fit_by_fits available requested range some_requested =
    ground (arith, int32_of_range (quot (pos available) (pos requested)))

-- A request that is not positive puts no limit on how many pods fit.
fit_by_bound :
    (available : ℕ) (requested : ℤ)
    → available ≤ 2147483647
    → pos_part (fit_by (pos available) requested) * pos_part requested ≤ available
unfolding fit_by
fit_by_bound available (pos zero) range = omega arith
fit_by_bound available (pos (suc r)) range =
    rw (fit_by_fits available (suc r) range (omega arith)) (grind arith)
fit_by_bound available (negsuc r) range = omega arith

-- An estimate above 1 is what fits by each resource.
estimate_for-le :
    (max_cpu max_mem : ℤ) (capacity : InstanceCapacity)
    → 2 ≤ pos_part (estimate_for max_cpu max_mem capacity)
    → (pos_part (estimate_for max_cpu max_mem capacity) ≤ pos_part (fit_by capacity.vcpus max_cpu))
      × (pos_part (estimate_for max_cpu max_mem capacity)
          ≤ pos_part (fit_by capacity.memory_mi max_mem))
unfolding estimate_for at_least_one min_ℤ
estimate_for-le max_cpu max_mem capacity h = ground arith

module _ (x y : ℤ) where
  raise_to-ge : (x ≤ℤ raise_to x y) × (y ≤ℤ raise_to x y)
  raise_to-ge = ground arith

abbrev Within : (max_cpu max_mem : ℤ) → Pod → Type 0
Within max_cpu max_mem p =
    ((pod_resource_requests p).0 ≤ℤ max_cpu) × ((pod_resource_requests p).1 ≤ℤ max_mem)

-- The maxima are above every pod's requests.
max_requests-Within :
    (pods : List Pod) (a b : ℤ)
    → (a ≤ℤ (max_requests pods a b).0)
      × (b ≤ℤ (max_requests pods a b).1)
      × All (Within (max_requests pods a b).0 (max_requests pods a b).1) pods
unfolding max_requests
max_requests-Within [] a b = (omega arith, omega arith, tt)
max_requests-Within (p ∷ ps) a b =
    let (cpu, mem) = pod_resource_requests p in
    let (cpu_up, mem_up, rest) = max_requests-Within ps (raise_to a cpu) (raise_to b mem) in
    (
      omega (arith, raise_to-ge a cpu),
      omega (arith, raise_to-ge b mem),
      ((omega (arith, raise_to-ge a cpu), omega (arith, raise_to-ge b mem)), rest),
    )

-- Multiplication keeps the order in both factors.
mul-le : (a b c d n : ℕ) → a ≤ b → c ≤ d → b * d ≤ n → a * c ≤ n
mul-le a b c d n h k l = grind arith

-- For capacities that are not negative and within an int32: when `estimatePodsPerNode` says that k > 1 pods fit on a node, then k times the request of any one
-- of the pods is within the node's CPU, and so for the memory; so any k of them fit together.
pub estimate_pods_per_node-fits :
    (pods : List Pod) (capacity : InstanceCapacity) (v m : ℕ)
    → capacity.vcpus ≡ pos v
    → capacity.memory_mi ≡ pos m
    → v ≤ 2147483647
    → m ≤ 2147483647
    → (pod : Pod) → Mem pod pods
    → 2 ≤ pos_part (estimate_pods_per_node pods capacity)
    → let k = pos_part (estimate_pods_per_node pods capacity) in
      (k * pos_part (pod_resource_requests pod).0 ≤ v)
      × (k * pos_part (pod_resource_requests pod).1 ≤ m)
unfolding estimate_pods_per_node
estimate_pods_per_node-fits [] capacity v m hv hm v_range m_range pod found h = absurd (omega arith)
estimate_pods_per_node-fits (p ∷ ps) capacity v m hv hm v_range m_range pod found h =
    let (max_cpu, max_mem) = max_requests (p ∷ ps) (pos 0) (pos 0) in
    let (_, _, all_within) = max_requests-Within (p ∷ ps) (pos 0) (pos 0) in
    let within = All-mem _ (λ q. ×_prop le_prop le_prop) (p ∷ ps) all_within pod found in
    let (by_cpu, by_mem) = estimate_for-le max_cpu max_mem capacity h in
    let k = pos_part (estimate_for max_cpu max_mem capacity) in
    let (cpu, mem) = pod_resource_requests pod in
    (
      mul-le k (pos_part (fit_by capacity.vcpus max_cpu)) (pos_part cpu) (pos_part max_cpu) v by_cpu
          (omega (arith, within.0, parts_apart cpu)) (rw hv (fit_by_bound v max_cpu v_range)),
      mul-le k (pos_part (fit_by capacity.memory_mi max_mem)) (pos_part mem) (pos_part max_mem) m
          by_mem (omega (arith, within.1, parts_apart mem))
          (rw hm (fit_by_bound m max_mem m_range)),
    )
