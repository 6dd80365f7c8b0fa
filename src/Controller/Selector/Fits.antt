-- ===== src/Controller/Selector/Fits.antt =====
-- What `SelectInstanceTypes` returns: the candidates that hold every pod, the smallest first.
use mathlib.Core.List.{Mem, not-mem-nil}
use mathlib.Core.Logic.Or
use mathlib.Core.List.Perm
use native.Mathlib.Bridge.{le_prop}
use cloud_burst_controller.Common.{
  ◌≡◌, refl, ◌⊎◌, String, ℤ, pos, ◌≤ℤ◌, true, Option, none, some, List, [], ◌∷◌, All, All-mem,
  All-of_mem, filter, filter-All, mem-filter, eq_iff, lookup-All, arith,
}
use cloud_burst_controller.Common.Sorting.{Sorter, IsOrder}
use cloud_burst_controller.Kube.{Pod}
use cloud_burst_controller.Api.{InstanceTypeConfig, AwsConfig, BurstNodePool}
use cloud_burst_controller.Api.Resolve.{resolve_instance_types}
use cloud_burst_controller.Controller.Capacity.{InstanceCapacity, pod_resource_requests}
use cloud_burst_controller.Controller.Capacity.Table.{instance_capacities, get_instance_capacity}
use cloud_burst_controller.Controller.Selector.{
  Requirements, pod_gpu_requests, raise_requirements, max_requirements_from, no_requirements,
  max_pod_requirements, required_architecture, candidate_architecture, capacity_fits,
  candidate_fits, capacity_less, known_less, type_less, select_from, select_instance_types,
}
use cloud_burst_controller.Controller.Selector.Asked.{
  SuitsArchitecture, SuitsArchitecture-from, SuitsArchitecture-to,
}

-- One pod fits into a capacity.
pub record Holds (cap : InstanceCapacity) (pod : Pod) : Type 0 where
  pub cpu : (pod_resource_requests pod).0 ≤ℤ cap.vcpus
  pub mem : (pod_resource_requests pod).1 ≤ℤ cap.memory_mi
  pub gpus : (pod_gpu_requests pod ≤ℤ cap.gpus) ⊎ (pod_gpu_requests pod ≤ℤ pos 0)

-- One requirement is below another.
record Below (r s : Requirements) : Type 0 where
  cpu : r.cpu ≤ℤ s.cpu
  mem : r.mem ≤ℤ s.mem
  gpus : r.gpus ≤ℤ s.gpus

abbrev requests_of : Pod → Requirements
requests_of pod = record {
  cpu = (pod_resource_requests pod).0;
  mem = (pod_resource_requests pod).1;
  gpus = pod_gpu_requests pod;
}

Below-prop : (r s : Requirements) → IsProp (Below r s)
Below-prop r s h k = λ i. record {
  cpu = le_prop h.cpu k.cpu i;
  mem = le_prop h.mem k.mem i;
  gpus = le_prop h.gpus k.gpus i;
}

raise_requirements-Below :
    (pod : Pod) (r : Requirements)
    → Below r (raise_requirements pod r) × Below (requests_of pod) (raise_requirements pod r)
unfolding raise_requirements
raise_requirements-Below pod r = ground arith

Below-trans : (r s t : Requirements) → Below r s → Below s t → Below r t
Below-trans r s t h k = omega arith

max_requirements-Below :
    (pods : List Pod) (r : Requirements)
    → Below r (max_requirements_from pods r)
      × All (λ p. Below (requests_of p) (max_requirements_from pods r)) pods
unfolding max_requirements_from
max_requirements-Below [] r = (omega arith, tt)
max_requirements-Below (p ∷ ps) r =
    let (up, own) = raise_requirements-Below p r in
    let (later, rest) = max_requirements-Below ps (raise_requirements p r) in
    (Below-trans _ _ _ up later, (Below-trans _ _ _ own later, rest))

raise_requirements-least :
    (pod : Pod) (r s : Requirements)
    → Below r s
    → Below (requests_of pod) s
    → Below (raise_requirements pod r) s
unfolding raise_requirements
raise_requirements-least pod r s h own = ground arith

-- The maxima are the least bound.
max_requirements-least :
    (pods : List Pod) (r s : Requirements)
    → Below r s
    → All (λ p. Below (requests_of p) s) pods
    → Below (max_requirements_from pods r) s
unfolding max_requirements_from
max_requirements-least [] r s h all = h
max_requirements-least (p ∷ ps) r s h all =
    max_requirements-least ps (raise_requirements p r) s (raise_requirements-least p r s h all.0)
      all.1

-- The capacities of the table are not negative.
abbrev IsNonneg : InstanceCapacity → Type 0
IsNonneg cap = (pos 0 ≤ℤ cap.vcpus) × (pos 0 ≤ℤ cap.memory_mi) × (pos 0 ≤ℤ cap.gpus)

get_instance_capacity-IsNonneg :
    (name : String) (cap : InstanceCapacity) → get_instance_capacity name ≡ some cap → IsNonneg cap
unfolding get_instance_capacity
get_instance_capacity-IsNonneg name cap found =
    lookup-All IsNonneg name instance_capacities (omega arith) cap found

-- The three filters say that the requirements are below the capacity.
capacity_fits_sound :
    (r : Requirements) (arch : String) (c : InstanceTypeConfig) (cap : InstanceCapacity)
    → capacity_fits r arch c cap ≡ true
    → (r.cpu ≤ℤ cap.vcpus)
      × (r.mem ≤ℤ cap.memory_mi)
      × ((r.gpus ≤ℤ cap.gpus) ⊎ (r.gpus ≤ℤ pos 0))
      × ((arch ≡ "") ⊎ (candidate_architecture c cap ≡ arch))
unfolding capacity_fits
capacity_fits_sound r arch c cap h =
    ground (arith, eq_iff arch "", eq_iff (candidate_architecture c cap) arch)

capacity_fits_complete :
    (r : Requirements) (arch : String) (c : InstanceTypeConfig) (cap : InstanceCapacity)
    → r.cpu ≤ℤ cap.vcpus
    → r.mem ≤ℤ cap.memory_mi
    → r.gpus ≤ℤ cap.gpus
    → (arch ≡ "") ⊎ (candidate_architecture c cap ≡ arch)
    → capacity_fits r arch c cap ≡ true
unfolding capacity_fits
capacity_fits_complete r arch c cap hc hm hg ha =
    ground (arith, eq_iff arch "", eq_iff (candidate_architecture c cap) arch)

-- A known type is appended exactly when it passes the filters.
candidate_fits_known :
    (r : Requirements) (arch : String) (c : InstanceTypeConfig) (cap : InstanceCapacity)
    → get_instance_capacity c.name ≡ some cap
    → candidate_fits r arch c ≡ capacity_fits r arch c cap
unfolding candidate_fits
candidate_fits_known r arch c cap found = rw (found, candidate_fits)

Holds-gpus :
    (own most available : ℤ)
    → own ≤ℤ most
    → (most ≤ℤ available) ⊎ (most ≤ℤ pos 0)
    → (own ≤ℤ available) ⊎ (own ≤ℤ pos 0)
Holds-gpus own most available h k = omega arith

-- The capacity as a bound on requirements.
abbrev room : InstanceCapacity → Requirements
room cap = record { cpu = cap.vcpus; mem = cap.memory_mi; gpus = cap.gpus }

Below-room :
    (cap : InstanceCapacity) (pod : Pod)
    → IsNonneg cap
    → Holds cap pod
    → Below (requests_of pod) (room cap)
Below-room cap pod nonneg holds = record {
  cpu = holds.cpu;
  mem = holds.mem;
  gpus = omega (arith, nonneg, holds.gpus);
}

pub type_less-IsOrder : IsOrder type_less
unfolding known_less capacity_less
type_less-IsOrder = record { asymm = λ a b h. ground arith; trans_not = λ a b c h k. ground arith }

module _ (sorter : Sorter type_less) (pool : BurstNodePool) (pods : List Pod) where
  select_mem :
      (c : InstanceTypeConfig) (o : Option AwsConfig)
      → pool.spec.aws ≡ o
      → Mem c (select_instance_types sorter pool pods)
      → (aws : AwsConfig) × (o ≡ some aws)
        × Mem c (
            filter
              (candidate_fits (max_pod_requirements pods) (required_architecture pods))
              (resolve_instance_types aws))
  unfolding select_instance_types select_from
  select_mem c none e m = absurd (not-mem-nil (rw e at m))
  select_mem c (some aws) e m = (aws, refl, Perm.subset (sorter.rearranged _) c (rw e at m))

  -- Every instance type that `SelectInstanceTypes` returns and the table knows holds each of the pods by
  -- itself (CPU, memory and GPUs), and its architecture suits: if the required node affinities of the pods have
  -- an expression kubernetes.io/arch In with a value, then it is the first value of the first one of these,
  -- or that value is the empty text.
  pub select_instance_types-Holds :
      (c : InstanceTypeConfig) (cap : InstanceCapacity)
      → Mem c (select_instance_types sorter pool pods)
      → get_instance_capacity c.name ≡ some cap
      → ((pod : Pod) → Mem pod pods → Holds cap pod) × SuitsArchitecture pods c cap
  unfolding max_pod_requirements
  select_instance_types-Holds c cap m known =
      let (aws, _, kept) = select_mem c pool.spec.aws refl m in
      let fits = All-mem _ (λ _. hlevel) _ (filter-All _ (resolve_instance_types aws)) c kept in
      let (cpu, mem, gpus, arch) =
        capacity_fits_sound (max_requirements_from pods no_requirements)
          (required_architecture pods) c cap (rw (candidate_fits_known _ _ c cap known) at fits) in
      (
        (λ pod found.
            let own =
              All-mem _ (λ p. Below-prop (requests_of p) _) pods
                (max_requirements-Below pods no_requirements).1 pod found in
            record {
              cpu = omega (arith, own.cpu);
              mem = omega (arith, own.mem);
              gpus = Holds-gpus (pod_gpu_requests pod) _ cap.gpus own.gpus gpus;
            }),
        SuitsArchitecture-from c cap pods arch,
      )

  pub mem-select_instance_types :
      (aws : AwsConfig) (c : InstanceTypeConfig) (cap : InstanceCapacity)
      → pool.spec.aws ≡ some aws
      → Mem c (resolve_instance_types aws)
      → get_instance_capacity c.name ≡ some cap
      → ((pod : Pod) → Mem pod pods → Holds cap pod)
      → SuitsArchitecture pods c cap
      → Mem c (select_instance_types sorter pool pods)
  unfolding select_instance_types select_from max_pod_requirements
  mem-select_instance_types aws c cap e m known holds arch =
      let nonneg = get_instance_capacity-IsNonneg c.name cap known in
      let most =
        max_requirements-least pods no_requirements (room cap) (omega (arith, nonneg))
          (All-of_mem _ pods (λ pod found. Below-room cap pod nonneg (holds pod found))) in
      rw e (
        Perm.subset (Perm.symm (sorter.rearranged _)) c (
          mem-filter _ (resolve_instance_types aws) c m (
            rw (candidate_fits_known _ _ c cap known) (
              capacity_fits_complete _ _ c cap most.cpu most.mem most.gpus
                (SuitsArchitecture-to c cap pods arch)))))
