-- ===== src/Controller/Selector.antt =====
-- internal/controller/instance_selector.go: which instance types of a pool can hold the pods.
pub mod Asked
pub mod Fits
use cloud_burst_controller.Common.{
  ℕ, String, ℤ, pos, ◌+ℤ◌, int64, leb_ℤ, ltb_ℤ, eqb_ℤ, Bool, true, false, not, ◌&&◌, ◌||◌, Option,
  none, some, List, [], ◌∷◌, any, filter, str_eq, if◌then◌else◌,
}
use cloud_burst_controller.Common.Sorting.{Sorter}
use cloud_burst_controller.Kube.{Quantity, NodeSelectorRequirement, NodeSelectorTerm, Pod}
use cloud_burst_controller.Api.{InstanceTypeConfig, AwsConfig, BurstNodePool}
use cloud_burst_controller.Api.Resolve.{resolve_instance_types}
use cloud_burst_controller.Controller.Matching.{required_terms}
use cloud_burst_controller.Controller.Capacity.{
  InstanceCapacity, sum_requests, pod_resource_requests, raise_to,
}
use cloud_burst_controller.Controller.Capacity.Table.{get_instance_capacity}

unfoldable pub pod_gpu_requests : Pod → ℤ
pod_gpu_requests pod =
    sum_requests "nvidia.com/gpu" (λ (q : Quantity). q.value) pod.containers (pos 0)

-- The maxima of the pods' CPU, memory and GPU requests.
pub record Requirements : Type 0 where
  pub cpu : ℤ
  pub mem : ℤ
  pub gpus : ℤ

unfoldable pub raise_requirements : Pod → Requirements → Requirements
raise_requirements pod r =
    let (cpu, mem) = pod_resource_requests pod in
    record {
      cpu = raise_to r.cpu cpu;
      mem = raise_to r.mem mem;
      gpus = raise_to r.gpus (pod_gpu_requests pod);
    }

unfoldable pub max_requirements_from : List Pod → Requirements → Requirements
max_requirements_from [] r = r
max_requirements_from (p ∷ ps) r = max_requirements_from ps (raise_requirements p r)

abbrev pub no_requirements : Requirements
no_requirements = record { cpu = pos 0; mem = pos 0; gpus = pos 0 }

unfoldable pub max_pod_requirements : List Pod → Requirements
max_pod_requirements pods = max_requirements_from pods no_requirements

abbrev pub or_else : Option String → Option String → Option String
or_else none y = y
or_else (some x) y = some x

abbrev pub first_value : List String → Option String
first_value [] = none
first_value (v ∷ vs) = some v

-- The three tests on one expression, and its first value if they pass.
unfoldable pub expression_architecture : NodeSelectorRequirement → Option String
expression_architecture expr =
    if str_eq expr.key "kubernetes.io/arch" && str_eq expr.operator "In"
    then first_value expr.values
    else none

unfoldable pub expressions_architecture : List NodeSelectorRequirement → Option String
unfolding expression_architecture
expressions_architecture [] = none
expressions_architecture (e ∷ es) =
    or_else (expression_architecture e) (expressions_architecture es)

unfoldable pub terms_architecture : List NodeSelectorTerm → Option String
unfolding expressions_architecture
terms_architecture [] = none
terms_architecture (t ∷ ts) =
    or_else (expressions_architecture t.match_expressions) (terms_architecture ts)

unfoldable pub pods_architecture : List Pod → Option String
unfolding terms_architecture required_terms
pods_architecture [] = none
pods_architecture (p ∷ ps) =
    or_else (terms_architecture (required_terms p.affinity)) (pods_architecture ps)

-- The empty text stands for no constraint.
unfoldable pub required_architecture : List Pod → String
unfolding pods_architecture
required_architecture pods = elim (pods_architecture pods) [ none ↦ "" | some arch ↦ arch ]

-- The architecture that a candidate runs: its override, or else that of the table.
unfoldable pub candidate_architecture : InstanceTypeConfig → InstanceCapacity → String
candidate_architecture candidate cap =
    if str_eq candidate.architecture "" then cap.architecture else candidate.architecture

-- The three filters on a candidate that the table knows.
unfoldable pub capacity_fits :
    Requirements → (required_arch : String) → InstanceTypeConfig → InstanceCapacity → Bool
capacity_fits r required_arch candidate cap =
    (str_eq required_arch "" || str_eq (candidate_architecture candidate cap) required_arch)
    && not (ltb_ℤ (pos 0) r.gpus && ltb_ℤ cap.gpus r.gpus)
    && not (ltb_ℤ cap.vcpus r.cpu || ltb_ℤ cap.memory_mi r.mem)

-- The body of the loop over the candidates: is this one appended? An unknown type is.
unfoldable pub candidate_fits : Requirements → (required_arch : String) → InstanceTypeConfig → Bool
candidate_fits r required_arch candidate = elim (get_instance_capacity candidate.name) [
  | none ↦ true
  | some cap ↦ capacity_fits r required_arch candidate cap
]

unfoldable pub capacity_less : InstanceCapacity → InstanceCapacity → Bool
capacity_less ci cj =
    if eqb_ℤ ci.vcpus cj.vcpus then ltb_ℤ ci.memory_mi cj.memory_mi else ltb_ℤ ci.vcpus cj.vcpus

-- The order that `sort.Slice` is given: known types first, then by CPU, then by memory.
unfoldable pub known_less : Option InstanceCapacity → Option InstanceCapacity → Bool
unfolding capacity_less
known_less none cj = false
known_less (some ci) none = true
known_less (some ci) (some cj) = capacity_less ci cj

abbrev pub type_less : InstanceTypeConfig → InstanceTypeConfig → Bool
type_less a b = known_less (get_instance_capacity a.name) (get_instance_capacity b.name)

module _ (sorter : Sorter type_less) where
  open sorter use {sort_slice}

  unfoldable pub select_from : AwsConfig → List Pod → List InstanceTypeConfig
  select_from aws pods = sort_slice (
      filter (candidate_fits (max_pod_requirements pods) (required_architecture pods))
        (resolve_instance_types aws))

  unfoldable pub select_instance_types : BurstNodePool → List Pod → List InstanceTypeConfig
  unfolding select_from
  select_instance_types pool pods = elim pool.spec.aws [
    | none ↦ []
    | some aws ↦ select_from aws pods
  ]

unfoldable pub pods_request_gpu : List Pod → Bool
unfolding any
pods_request_gpu pods = any (λ p. ltb_ℤ (pos 0) (pod_gpu_requests p)) pods
