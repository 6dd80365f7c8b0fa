-- ===== src/Controller/Capacity.antt =====
-- internal/controller/batch.go: what the instance types hold, and how many nodes a batch of pods
-- needs. An int64 or int32 keeps its wrap-around where the code adds or converts; the division of two
-- lengths by float64 is `div_ceil`, which it equals while a pod list is shorter than 2^31.
pub mod Table
pub mod Needed
pub mod PerNode
use cloud_burst_controller.Common.{
  ℕ, ◌+◌, ◌-◌, ◌/◌, String, ℤ, pos, negsuc, ◌-ℤ◌, ◌+ℤ◌, leb_ℤ, ltb_ℤ, eqb_ℤ, quot, int32, int64,
  Bool, ◌&&◌, Option, none, some, List, [], ◌∷◌, length, lookup, if◌then◌else◌, pos_part,
}
use cloud_burst_controller.Kube.{Quantity, Container, Pod}

pub record InstanceCapacity : Type 0 where
  pub vcpus : ℤ
  pub memory_mi : ℤ
  pub gpus : ℤ
  pub architecture : String

abbrev pub capacity : (vcpus memory_mi gpus : ℕ) → String → InstanceCapacity
capacity vcpus memory_mi gpus architecture = record {
  vcpus = pos vcpus;
  memory_mi = pos memory_mi;
  gpus = pos gpus;
  architecture = architecture;
}

unfoldable pub default_capacity : InstanceCapacity
default_capacity = capacity 1800 7200 0 "amd64"

-- The CPU (in millicores) and memory that one container requests; 0 where the key is missing.
unfoldable pub requested : String → (Quantity → ℤ) → Container → ℤ
unfolding lookup
requested name reading c = elim (lookup name c.requests) [ none ↦ pos 0 | some q ↦ reading q ]

-- `sum += q` over the containers, on an int64. A missing key adds nothing.
unfoldable pub sum_requests : String → (Quantity → ℤ) → List Container → ℤ → ℤ
sum_requests name reading [] sum = sum
sum_requests name reading (c ∷ cs) sum =
    sum_requests name reading cs (int64 (sum +ℤ requested name reading c))

unfoldable pub pod_resource_requests : Pod → ℤ × ℤ
pod_resource_requests pod = (
  sum_requests "cpu" (λ (q : Quantity). q.milli_value) pod.containers (pos 0),
  sum_requests "memory" (λ (q : Quantity). q.scaled_mega) pod.containers (pos 0),
)

-- `if x > max { max = x }`
abbrev pub raise_to : ℤ → ℤ → ℤ
raise_to max x = if ltb_ℤ max x then x else max

unfoldable pub max_requests : List Pod → (max_cpu max_mem : ℤ) → ℤ × ℤ
max_requests [] max_cpu max_mem = (max_cpu, max_mem)
max_requests (p ∷ ps) max_cpu max_mem =
    let (cpu, mem) = pod_resource_requests p in
    max_requests ps (raise_to max_cpu cpu) (raise_to max_mem mem)

abbrev pub max_int32 : ℤ
max_int32 = pos 2147483647

-- How often a request fits into a capacity; any number of times if nothing is requested.
unfoldable pub fit_by : (available requested : ℤ) → ℤ
fit_by available requested =
    if ltb_ℤ (pos 0) requested then int32 (quot available requested) else max_int32

unfoldable pub min_ℤ : ℤ → ℤ → ℤ
min_ℤ a b = if leb_ℤ a b then a else b

-- `if x <= 0 { x = 1 }`
unfoldable pub at_least_one : ℤ → ℤ
at_least_one x = if leb_ℤ x (pos 0) then pos 1 else x

unfoldable pub estimate_for : (max_cpu max_mem : ℤ) → InstanceCapacity → ℤ
estimate_for max_cpu max_mem capacity =
    if eqb_ℤ max_cpu (pos 0) && eqb_ℤ max_mem (pos 0)
    then pos 1
    else at_least_one (min_ℤ (fit_by capacity.vcpus max_cpu) (fit_by capacity.memory_mi max_mem))

unfoldable pub estimate_pods_per_node : List Pod → InstanceCapacity → ℤ
estimate_pods_per_node [] capacity = pos 0
estimate_pods_per_node (p ∷ ps) capacity =
    let (max_cpu, max_mem) = max_requests (p ∷ ps) (pos 0) (pos 0) in
    estimate_for max_cpu max_mem capacity

-- `math.Ceil(float64(n) / float64(d))` for a positive d.
unfoldable pub div_ceil : ℕ → ℕ → ℕ
div_ceil n d = (n + d - 1) / d

-- The part of the function behind its first test.
unfoldable pub nodes_for : (pods : ℕ) (pods_per_node current max : ℤ) → ℤ
nodes_for pods pods_per_node current max =
    let needed = int32 (pos (div_ceil pods (pos_part (at_least_one pods_per_node)))) in
    let available = int32 (max -ℤ current) in
    let capped = if ltb_ℤ available needed then available else needed in
    if ltb_ℤ capped (pos 0) then pos 0 else capped

unfoldable pub calculate_nodes_needed :
    List Pod → InstanceCapacity → (current_nodes max_nodes : ℤ) → ℤ
calculate_nodes_needed pods capacity current_nodes max_nodes =
    if leb_ℤ max_nodes current_nodes
    then pos 0
    else nodes_for (length pods) (estimate_pods_per_node pods capacity) current_nodes max_nodes
