-- ===== src/Controller/Provisioner/Safe.antt =====
-- `ProvisionerReconciler.Reconcile` against every environment: what it launches and what it stores.
use cloud_burst_controller.Common.{
  ℕ, ◌+◌, ◌≤◌, ◌≡◌, refl, ap, ◌⊎◌, inl, inr, pos, IsInt32, pos_part, ◌+ℤ◌, leb_ℤ, ltb_ℤ, int32,
  some, List, [], ◌∷◌, length, length-filter-le, lookup, arith, Bool-cases, Option-cases, ◌==◌,
}
use cloud_burst_controller.Common.Sorting.{Sorter}
use cloud_burst_controller.Kube.{Duration, NamespacedName, Pod, Secret}
use cloud_burst_controller.Api.{InstanceTypeConfig, AwsConfig, BurstNodePool}
use cloud_burst_controller.Errors.{ok, err}
use cloud_burst_controller.Talos.{Yaml}
use cloud_burst_controller.Effect.{Program, Outcome, since}
use cloud_burst_controller.Effect.Contract.{Trace, Happened, Ensures, Ensures-then}
use cloud_burst_controller.Controller.Matching.{
  name_less, match_pod_to_pool, is_burst_enabled, is_pod_unschedulable,
}
use cloud_burst_controller.Controller.Capacity.{calculate_nodes_needed}
use cloud_burst_controller.Controller.Capacity.Table.{get_instance_capacity}
use cloud_burst_controller.Controller.Selector.{type_less, select_instance_types}
use cloud_burst_controller.Controller.NodeStatus.Valid.{IsCountedBy, IsCounted}
use cloud_burst_controller.Controller.Provisioner.{
  pod_unschedulable_since, capacity_or_default, config_key_of, is_provisioned, launch_nodes,
  debounce_period, persist, provision, size_and_provision, matching_pods, check_capacity, with_pool,
  match_pool, debounce, reconcile,
}
use cloud_burst_controller.Controller.Provisioner.Launching.{Inv, launch_nodes-Ok}
use cloud_burst_controller.Controller.Provisioner.Promise.{launches, entries, Fetched}
use cloud_burst_controller.Controller.Provisioner.Counted.{contract}
use cloud_burst_controller.Controller.Provisioner.Sizing.{
  current_lem, needed_room_at, start-Inv, select_aws,
}

abbrev pub Anything : Trace → Outcome → Type 0
Anything tr o = Unit

module _ (yaml : Yaml) (sort_pools : Sorter name_less) (sort_types : Sorter type_less)
    (period : Duration) (pod : Pod) where
  abbrev Ok : Trace → Program Outcome → Type 0
  Ok = Ensures contract Anything

  persist-Ok :
      (fetched : BurstNodePool) (slack : ℕ) (tr : Trace) (pool : BurstNodePool)
      → Inv fetched slack 0 tr pool
      → Ok tr (persist yaml sort_pools sort_types period pod pool)
  unfolding persist
  persist-Ok fetched slack tr pool inv = (
    record {
      slack = slack;
      fetched = fetched;
      was_fetched = inv.was_fetched;
      before = inv.before;
      after = inv.counts;
      accounted = inv.accounted;
      extends = inv.extends;
      within = omega (arith, inv.room);
    },
    elim [ err e ↦ λ _. tt | ok u ↦ λ _. (tt, λ r _. tt) ],
  )

  provision-Ok :
      (pool : BurstNodePool) (slack : ℕ) (tr : Trace) (aws : AwsConfig)
      (cs : List InstanceTypeConfig) (n : ℕ) (secret : Secret)
      → pool.spec.aws ≡ some aws
      → Inv pool slack n tr pool
      → Ok tr (provision yaml sort_pools sort_types period pod pool cs n secret)
  unfolding provision
  provision-Ok pool slack tr aws cs n secret has_aws inv =
      elim (Option-cases (lookup (config_key_of pool) secret.contents)) [
        | inl absent ↦ rw (provision, absent) tt
        | inr (config_data, found) ↦
            rw (provision, found)
              (Ensures-then contract (Inv pool slack 0) Anything tr
                (launch_nodes yaml config_data cs n pool) _
                (launch_nodes-Ok pool slack yaml config_data cs aws has_aws n tr pool inv)
                (λ tr' pool' inv'. persist-Ok pool slack tr' pool' inv'))
      ]

  matching_pods_le :
      (pool : BurstNodePool) (pods : List Pod)
      → length (matching_pods yaml sort_pools sort_types period pool pods) ≤ length pods
  unfolding matching_pods
  matching_pods_le pool pods = length-filter-le _ pods

  -- The pool was fetched, and nothing is launched yet.
  module _ (pool : BurstNodePool) (slack : ℕ) (counts : IsCountedBy slack pool.status)
      (range : IsInt32 pool.spec.scaling.max_nodes) (tr : Trace) (was : Happened (Fetched pool) tr)
      (none_yet : launches tr ≡ []) where
    size_and_provision-Ok :
        (matching : List Pod) (cs : List InstanceTypeConfig)
        → length matching ≤ 2147483647
        → (cs ≡ []) ⊎ ((aws : AwsConfig) × (pool.spec.aws ≡ some aws))
        → Ok tr (size_and_provision yaml sort_pools sort_types period pod pool matching cs)
    unfolding size_and_provision
    size_and_provision-Ok matching [] few known = tt
    size_and_provision-Ok matching (primary ∷ others) few (inl nil) =
        absurd (omega (arith, ap length nil))
    size_and_provision-Ok matching (primary ∷ others) few (inr (aws, has_aws)) =
        let capacity = capacity_or_default (get_instance_capacity primary.name) in
        let max = pool.spec.scaling.max_nodes in
        let current = int32 (pool.status.active_nodes +ℤ pool.status.pending_nodes) in
        let needed = calculate_nodes_needed matching capacity current max in
        elim (Bool-cases (leb_ℤ needed (pos 0))) [
          | inl enough ↦ rw enough tt
          | inr few_nodes ↦ rw few_nodes (
            tt,
            elim [
              | err e ↦ λ _. tt
              | ok secret ↦ λ _.
                  provision-Ok pool slack _ aws (primary ∷ others) (pos_part needed) secret has_aws
                    (start-Inv pool slack (pos_part needed) _ (inr was) none_yet counts range (
                      needed_room_at matching capacity current (slack + entries pool) max
                        (current_lem pool slack counts) range few few_nodes))
            ],
          )
        ]

  check_capacity-Ok :
      (pool : BurstNodePool)
      → IsCounted pool.status
      → IsInt32 pool.spec.scaling.max_nodes
      → (tr : Trace) → Happened (Fetched pool) tr
      → launches tr ≡ []
      → Ok tr (check_capacity yaml sort_pools sort_types period pod pool)
  unfolding check_capacity
  check_capacity-Ok pool (slack, counts) range tr was none_yet =
      elim (Bool-cases (
        leb_ℤ pool.spec.scaling.max_nodes
          (int32 (pool.status.active_nodes +ℤ pool.status.pending_nodes)))) [
            | inl full ↦ rw (check_capacity, full) tt
            | inr room ↦
                rw (check_capacity, room)
                  (
                    tt,
                    elim [
                      | err e ↦ λ _. tt
                      | ok pods ↦ λ few.
                          let matching =
                            matching_pods yaml sort_pools sort_types period pool pods in
                          size_and_provision-Ok pool slack counts range _ (inr was) none_yet
                            matching (select_instance_types sort_types pool matching)
                            (omega (arith, matching_pods_le pool pods))
                            (select_aws sort_types pool matching)
                    ],
                  )
          ]

  with_pool-Ok :
      (pool : BurstNodePool) (tr : Trace)
      → launches tr ≡ []
      → Ok tr (with_pool yaml sort_pools sort_types period pod pool)
  unfolding with_pool
  with_pool-Ok pool tr none_yet = elim (Bool-cases (is_provisioned pod)) [
    | inl already ↦ rw (with_pool, already) tt
    | inr fresh ↦
        rw (with_pool, fresh)
          (
            tt,
            elim [
              | err e ↦ λ _. tt
              | ok found ↦
                  λ (valid, range). check_capacity-Ok found valid range _ (inl (_, refl)) none_yet
            ],
          )
  ]

  match_pool-Ok :
      (tr : Trace) → launches tr ≡ [] → Ok tr (match_pool yaml sort_pools sort_types period pod)
  unfolding match_pool
  match_pool-Ok tr none_yet = (
    tt,
    elim [
      | err e ↦ λ _. tt
      | ok pools ↦ λ _. elim (Option-cases (match_pod_to_pool sort_pools pod pools)) [
        | inl no_match ↦ rw no_match tt
        | inr (pool, matched) ↦ rw matched (with_pool-Ok pool _ none_yet)
      ]
    ],
  )

  debounce-Ok :
      (tr : Trace) → launches tr ≡ [] → Ok tr (debounce yaml sort_pools sort_types period pod)
  unfolding debounce
  debounce-Ok tr none_yet = elim (Bool-cases (is_burst_enabled pod)) [
    | inl enabled ↦ rw (debounce, enabled) (match_pool-Ok tr none_yet)
    | inr waits ↦
        rw (debounce, waits)
          (elim (Bool-cases (pod_unschedulable_since pod == 0)) [
            | inl unknown ↦ rw unknown tt
            | inr known ↦ rw known (
              tt,
              λ t _.
                  let young =
                    ltb_ℤ (since t (pod_unschedulable_since pod))
                      (debounce_period yaml sort_pools sort_types period) in
                  elim (Bool-cases young) [
                    | inl early ↦ rw early tt
                    | inr over ↦ rw over (match_pool-Ok _ none_yet)
                  ],
            )
          ])
  ]

-- As long as a fetched pool counts its entries and its maximum is an int32, and a list of pods has an
-- int32 length, `Reconcile` never panics. It launches an instance only when what the fetched pool counts
-- and the launches so far are below the pool's maximum. A status that it stores counts its entries as
-- the fetched one did, within the maximum, and lists the instances of the fetched pool and then exactly
-- those launched, in order; the entries of the fetched pool are unchanged, and each entry after them is
-- pending. It terminates no instance.
pub provisioner-Counts :
    (yaml : Yaml) (sort_pools : Sorter name_less) (sort_types : Sorter type_less)
    (period : Duration) (key : NamespacedName)
    → Ensures contract Anything [] (reconcile yaml sort_pools sort_types period key)
unfolding reconcile
provisioner-Counts yaml sort_pools sort_types period key = (
  tt,
  elim [
    | err e ↦ λ _. tt
    | ok pod ↦ λ _. elim (Bool-cases (is_pod_unschedulable pod)) [
      | inl waiting ↦ rw waiting (debounce-Ok yaml sort_pools sort_types period pod _ refl)
      | inr scheduled ↦ rw scheduled tt
    ]
  ],
)
