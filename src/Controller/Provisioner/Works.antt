-- ===== src/Controller/Provisioner/Works.antt =====
-- `ProvisionerReconciler.Reconcile` while the services work.
use cloud_burst_controller.Common.{
  ℕ, ◌≡◌, refl, ap, ℤ, pos, ◌+ℤ◌, int32, leb_ℤ, pos_part, String, Bool, true, false, some, List, [],
  ◌∷◌, length, lookup,
}
use cloud_burst_controller.Common.Sorting.{Sorter}
use cloud_burst_controller.Kube.{Duration, NamespacedName, Pod, Secret}
use cloud_burst_controller.Api.{InstanceTypeConfig, AwsConfig, BurstNodePool}
use cloud_burst_controller.Errors.{ok, err}
use cloud_burst_controller.Talos.{Yaml, patch_and_encode}
use cloud_burst_controller.Effect.{Program, Outcome}
use cloud_burst_controller.Effect.Contract.{
  Succeeded, Trace, Contract, Ensures, Ensures-then, Environment, run, Meets, EndsWell,
  run-EndsWell,
}
use cloud_burst_controller.Controller.Matching.{name_less, is_burst_enabled, is_pod_unschedulable}
use cloud_burst_controller.Controller.Capacity.{calculate_nodes_needed}
use cloud_burst_controller.Controller.Capacity.Table.{get_instance_capacity}
use cloud_burst_controller.Controller.Selector.{type_less, select_instance_types}
use cloud_burst_controller.Controller.Provisioner.{
  capacity_or_default, config_key_of, is_provisioned, launch_nodes, persist, provision,
  size_and_provision, matching_pods, check_capacity, with_pool, match_pool, debounce, reconcile,
}
use cloud_burst_controller.Controller.Provisioner.Promise.{launches}
use cloud_burst_controller.Controller.Provisioner.Working
use cloud_burst_controller.Controller.Provisioner.Working.{
  After, Provisioned, failed_lem, stored_lem, launch_all,
}

module _ (stores : Bool) (sorter : Sorter name_less) (pod : Pod) (pool fresh : BurstNodePool)
    (pods : List Pod) (config_data : List ℕ) where
  abbrev pub contract : Contract
  contract = Working.contract stores sorter pod pool fresh pods config_data

  module _ (yaml : Yaml)
      (patches : (name : String) → Succeeded (patch_and_encode yaml config_data name))
      (sort_types : Sorter type_less) (period : Duration) (primary : InstanceTypeConfig)
      (others : List InstanceTypeConfig) (aws : AwsConfig) where
    persist-Ok :
        (n : ℕ) (tr : Trace) (p : BurstNodePool)
        → After aws n tr p
        → Ensures contract (Provisioned stores n) tr (persist yaml sorter sort_types period pod p)
    unfolding persist
    persist-Ok n tr p h = (
      tt,
      elim [
        | err e ↦
            λ failed. record { ended = failed_lem stores e p tr failed; launched = h.launched }
        | ok u ↦ λ good.
            (tt, λ r _. record { ended = stored_lem stores u _ good; launched = h.launched })
      ],
    )

    -- The number of nodes that the code computes for the pool and the matching pods.
    abbrev pub needed : ℤ
    needed =
        calculate_nodes_needed (matching_pods yaml sorter sort_types period fresh pods)
          (capacity_or_default (get_instance_capacity primary.name))
          (int32 (fresh.status.active_nodes +ℤ fresh.status.pending_nodes))
          fresh.spec.scaling.max_nodes

    abbrev Ok : Trace → Program Outcome → Type 0
    Ok = Ensures contract (Provisioned stores (pos_part needed))

    module _ (unschedulable : is_pod_unschedulable pod ≡ true)
        (enabled : is_burst_enabled pod ≡ true) (not_yet : is_provisioned pod ≡ false)
        (has_aws : fresh.spec.aws ≡ some aws)
        (below : leb_ℤ fresh.spec.scaling.max_nodes
            (int32 (fresh.status.active_nodes +ℤ fresh.status.pending_nodes))
          ≡ false)
        (selected : select_instance_types sort_types fresh
            (matching_pods yaml sorter sort_types period fresh pods)
          ≡ primary ∷ others)
        (some_needed : leb_ℤ needed (pos 0) ≡ false) where
      provision-Ok :
          (tr : Trace) (secret : Secret)
          → launches tr ≡ []
          → lookup (config_key_of fresh) secret.contents ≡ some config_data
          → Ok tr (
              provision yaml sorter sort_types period pod fresh
                (primary ∷ others)
                (pos_part needed)
                secret)
      unfolding provision
      provision-Ok tr secret none_yet found =
          rw (provision, found)
            (Ensures-then contract (After aws (pos_part needed))
              (Provisioned stores (pos_part needed)) tr
              (launch_nodes yaml config_data (primary ∷ others) (pos_part needed) fresh) _
              (launch_all stores sorter pod pool fresh pods config_data yaml patches primary others
                aws (pos_part needed) tr fresh
                (record { launched = ap length none_yet; has_aws = has_aws }))
              (λ tr' p h. persist-Ok (pos_part needed) tr' p h))

      size_and_provision-Ok :
          (tr : Trace) (cs : List InstanceTypeConfig)
          → launches tr ≡ []
          → cs ≡ primary ∷ others
          → Ok tr (
              size_and_provision yaml sorter sort_types period pod fresh
                (matching_pods yaml sorter sort_types period fresh pods)
                cs)
      unfolding size_and_provision
      size_and_provision-Ok tr cs none_yet e = rw e (
          rw some_needed (
            tt,
            elim [
              | err x ↦ λ failed. absurd failed
              | ok secret ↦ λ found. provision-Ok _ secret none_yet found
            ],
          ))

      check_capacity-Ok :
          (tr : Trace)
          → launches tr ≡ []
          → Ok tr (check_capacity yaml sorter sort_types period pod fresh)
      unfolding check_capacity
      check_capacity-Ok tr none_yet =
          rw (check_capacity, below)
            (
              tt,
              elim [
                | err e ↦ λ failed. absurd failed
                | ok ps ↦ λ same. rw same (size_and_provision-Ok _ _ none_yet selected)
              ],
            )

      with_pool-Ok :
          (tr : Trace) → launches tr ≡ [] → Ok tr (with_pool yaml sorter sort_types period pod pool)
      unfolding with_pool
      with_pool-Ok tr none_yet =
          rw (with_pool, not_yet)
            (
              tt,
              elim [
                | err e ↦ λ failed. absurd failed
                | ok p ↦ λ same. rw same (check_capacity-Ok _ none_yet)
              ],
            )

      match_pool-Ok :
          (tr : Trace) → launches tr ≡ [] → Ok tr (match_pool yaml sorter sort_types period pod)
      unfolding match_pool
      match_pool-Ok tr none_yet = (
        tt,
        elim [
          | err e ↦ λ failed. absurd failed
          | ok pools ↦ λ matched. rw matched (with_pool-Ok _ none_yet)
        ],
      )

      debounce-Ok :
          (tr : Trace) → launches tr ≡ [] → Ok tr (debounce yaml sorter sort_types period pod)
      unfolding debounce
      debounce-Ok tr none_yet = rw (debounce, enabled) (match_pool-Ok tr none_yet)

      reconcile-Ok : (key : NamespacedName) → Ok [] (reconcile yaml sorter sort_types period key)
      unfolding reconcile
      reconcile-Ok key = (
        tt,
        elim [
          | err e ↦ λ failed. absurd failed
          | ok p ↦ λ same. rw same (rw unschedulable (debounce-Ok _ refl))
        ],
      )

      -- For an unschedulable, burst-enabled pod that was not provisioned for, and a pool with an AWS
      -- configuration, with room, with a candidate type and with nodes to launch, in every environment where
      -- the reads and the launches succeed and every patch of the config succeeds, a run of `Reconcile`
      -- launches exactly the number of nodes that `CalculateNodesNeeded` gives for the unschedulable pods
      -- that match the pool. If the status can be stored, it returns with no error and nothing to do later;
      -- if not, it returns the error, and the update that failed is its last call.
      pub reconcile_launches :
          (key : NamespacedName) (env : Environment) (s : env.State)
          → Meets env contract
          → EndsWell contract
              (Provisioned stores (pos_part needed))
              (run env s [] (reconcile yaml sorter sort_types period key))
      reconcile_launches key env s assumed =
          run-EndsWell contract env assumed (Provisioned stores (pos_part needed)) s []
            (reconcile yaml sorter sort_types period key) (tt) (reconcile-Ok key)
