-- ===== src/Controller/Watch/Dropped.antt =====
-- What is lost, and what is not, by the events that the filters drop.
use cloud_burst_controller.Common.{◌≡◌, refl, String, Bool, true, false, none, [], arith}
use cloud_burst_controller.Common.Sorting.{Sorter}
use cloud_burst_controller.Kube.{Duration, NamespacedName, Pod, Node}
use cloud_burst_controller.Errors.{ok, err}
use cloud_burst_controller.Talos.{Yaml}
use cloud_burst_controller.Effect.{Request, Response, get_pod, list_pools, get_node, Outcome, done}
use cloud_burst_controller.Effect.Contract.{
  Trace, Contract, Ensures, Environment, run, Meets, EndsWell, run-EndsWell,
}
use cloud_burst_controller.Controller.Matching.{
  name_less, match_pod_to_pool, is_burst_enabled, is_pod_unschedulable,
}
use cloud_burst_controller.Controller.Selector.{type_less}
use cloud_burst_controller.Controller.NodeReady.{is_managed}
use cloud_burst_controller.Controller.Reaper
use cloud_burst_controller.Controller.Provisioner
use cloud_burst_controller.Controller.Watch.{updated, provisioner_filter, reaper_filter}

abbrev pub Done : Trace → Outcome → Type 0
Done tr o = o ≡ done

-- The node is found as the event showed it.
abbrev pub FindsNode : Node → (q : Request) → Response q → Type 0
FindsNode node (get_node name) (ok n) = n ≡ node
FindsNode node (get_node name) (err e) = ⊥
FindsNode node _ r = Unit

abbrev pub OnlyNode : Trace → Request → Type 0
OnlyNode tr (get_node name) = Unit
OnlyNode tr _ = ⊥

abbrev pub node_contract : Node → Contract
node_contract node = record { assume = FindsNode node; promise = OnlyNode }

reaper_ignores :
    (drainer : Bool) (interval : Duration) (name : String) (node : Node)
    → is_managed node ≡ false
    → Ensures (node_contract node) Done [] (Reaper.reconcile drainer interval name)
unfolding Reaper.reconcile
reaper_ignores drainer interval name node foreign =
    (tt, elim [ err e ↦ λ failed. absurd failed | ok n ↦ λ same. rw same (rw foreign refl) ])

-- The reaper loses nothing by its filter: an update that the filter drops shows a node about which a run
-- of `Reconcile` would only read the node, and return with no error and nothing to do later.
pub reaper_filter-drops :
    (old node : Node)
    → reaper_filter (updated old node) ≡ false
    → (drainer : Bool) (interval : Duration) (name : String) (env : Environment) (s : env.State)
    → Meets env (node_contract node)
    → EndsWell (node_contract node) Done (run env s [] (Reaper.reconcile drainer interval name))
unfolding reaper_filter
reaper_filter-drops old node dropped drainer interval name env s assumed =
    run-EndsWell (node_contract node) env assumed Done s [] (Reaper.reconcile drainer interval name)
      (tt) (reaper_ignores drainer interval name node dropped)

-- The pod is found as it is, and no pool that is listed matches it.
abbrev pub Unmatched : Sorter name_less → Pod → (q : Request) → Response q → Type 0
Unmatched sorter pod (get_pod key) (ok p) = p ≡ pod
Unmatched sorter pod (get_pod key) (err e) = ⊥
Unmatched sorter pod list_pools (ok pools) = match_pod_to_pool sorter pod pools ≡ none
Unmatched sorter pod list_pools (err e) = ⊥
Unmatched sorter pod _ r = Unit

abbrev pub OnlyPodAndPools : Trace → Request → Type 0
OnlyPodAndPools tr (get_pod key) = Unit
OnlyPodAndPools tr list_pools = Unit
OnlyPodAndPools tr _ = ⊥

abbrev pub pod_contract : Sorter name_less → Pod → Contract
pod_contract sorter pod = record { assume = Unmatched sorter pod; promise = OnlyPodAndPools }

module _ (yaml : Yaml) (sorter : Sorter name_less) (sort_types : Sorter type_less)
    (period : Duration) (pod : Pod) (unschedulable : is_pod_unschedulable pod ≡ true)
    (enabled : is_burst_enabled pod ≡ true) where
  match_pool-unmatched :
      (tr : Trace)
      → Ensures
          (pod_contract sorter pod)
          Done
          tr
          (Provisioner.match_pool yaml sorter sort_types period pod)
  unfolding Provisioner.match_pool
  match_pool-unmatched tr =
      (tt, elim [ err e ↦ λ failed. absurd failed | ok pools ↦ λ no_match. rw no_match refl ])

  debounce-unmatched :
      (tr : Trace)
      → Ensures
          (pod_contract sorter pod)
          Done
          tr
          (Provisioner.debounce yaml sorter sort_types period pod)
  unfolding Provisioner.debounce
  debounce-unmatched tr = rw (Provisioner.debounce, enabled) (match_pool-unmatched tr)

  unmatched :
      (key : NamespacedName)
      → Ensures
          (pod_contract sorter pod)
          Done
          []
          (Provisioner.reconcile yaml sorter sort_types period key)
  unfolding Provisioner.reconcile
  unmatched key = (
    tt,
    elim [
      | err e ↦ λ failed. absurd failed
      | ok p ↦ λ same. rw same (rw unschedulable (debounce-unmatched _))
    ],
  )

  -- An unschedulable, burst-enabled pod that no pool matches is given up: a run of `Reconcile` only reads
  -- the pod and the pools, and returns with no error and nothing to do later; and no update from this
  -- version of the pod passes the filter.
  pub reconcile_gives_up :
      (key : NamespacedName) (env : Environment) (s : env.State)
      → Meets env (pod_contract sorter pod)
      → EndsWell
          (pod_contract sorter pod)
          Done
          (run env s [] (Provisioner.reconcile yaml sorter sort_types period key))
        × ((later : Pod) → provisioner_filter (updated pod later) ≡ false)
  unfolding provisioner_filter
  reconcile_gives_up key env s assumed = (
    run-EndsWell (pod_contract sorter pod) env assumed Done s []
        (Provisioner.reconcile yaml sorter sort_types period key) (tt) (unmatched key),
    λ later. ground (arith, unschedulable),
  )
