-- ===== src/Controller/Provisioner/Exact.antt =====
-- What `ProvisionerReconciler.Reconcile` keeps to when the fetched pools count exactly their entries.
use cloud_burst_controller.Common.{ℕ, ◌≡◌, ap, pos_part, subst, sym, [], arith}
use cloud_burst_controller.Common.Sorting.{Sorter}
use cloud_burst_controller.Kube.{Duration, NamespacedName}
use cloud_burst_controller.Api.{BurstNodePoolStatus, BurstNodePool}
use cloud_burst_controller.Errors.{ok}
use cloud_burst_controller.Talos.{Yaml}
use cloud_burst_controller.Effect.{
  Request, Response, get_pool, list_pods, update_pool_status, launch_node, terminate_node,
}
use cloud_burst_controller.Effect.Contract.{
  Event, Trace, Happened, Ensures, Met, Met-Happened, Ensures-Met,
}
use cloud_burst_controller.Controller.Matching.{name_less}
use cloud_burst_controller.Controller.Selector.{type_less}
use cloud_burst_controller.Controller.NodeStatus.Valid.{
  active_weight, weigh, plus_slack_lem, IsCountedBy, IsValid,
}
use cloud_burst_controller.Controller.Provisioner.{reconcile}
use cloud_burst_controller.Controller.Provisioner.Promise.{Fetched, contract}
use cloud_burst_controller.Controller.Provisioner.Promise
use cloud_burst_controller.Controller.Provisioner.Counted
use cloud_burst_controller.Controller.Provisioner.Safe.{Anything, provisioner-Counts}

-- A status that counts its entries exactly counts no others.
no_slack : (slack : ℕ) (s : BurstNodePoolStatus) → IsCountedBy slack s → IsValid s → slack ≡ 0
no_slack slack s counted valid = omega (
  arith,
  ap pos_part (sym counted.active_counted),
  ap pos_part valid.active_counted,
  plus_slack_lem slack (weigh active_weight s.nodes),
)

Fetched-IsValid :
    (tr : Trace) (p : BurstNodePool) → Met contract tr → Happened (Fetched p) tr → IsValid p.status
Fetched-IsValid tr p met h =
    let (e, (key, same), valid) = Met-Happened contract (Fetched p) tr met h in
    (subst (λ (e : Event). Promise.Assume e.request e.response) same valid).0

assumed : (q : Request) (r : Response q) → Promise.Assume q r → Counted.Assume q r
assumed (get_pool key) (ok pool) h = ((0, h.0), h.1)
assumed list_pods (ok pods) h = h
assumed _ _ h = tt

promised :
    (tr : Trace) (q : Request) → Met contract tr → Counted.Promise tr q → Promise.Promise tr q
promised tr (launch_node opts) met may = (may.fetched, may.was_fetched, omega (arith, may.room))
promised tr (update_pool_status pool) met may = record {
  fetched = may.fetched;
  was_fetched = may.was_fetched;
  valid =
      subst (λ k. IsCountedBy k pool.status)
        (no_slack may.slack may.fetched.status may.before
          (Fetched-IsValid tr may.fetched met may.was_fetched))
        may.after;
  accounted = may.accounted;
  extends = may.extends;
  within = omega (arith, may.within);
}
promised tr (terminate_node id) met may = may
promised tr _ met may = tt

-- The same with exact counters: the stored status counts exactly its entries.
pub provisioner-Ensures :
    (yaml : Yaml) (sort_pools : Sorter name_less) (sort_types : Sorter type_less)
    (period : Duration) (key : NamespacedName)
    → Ensures contract Anything [] (reconcile yaml sort_pools sort_types period key)
provisioner-Ensures yaml sort_pools sort_types period key =
    Ensures-Met Counted.contract contract assumed promised Anything [] _ tt
      (provisioner-Counts yaml sort_pools sort_types period key)
