-- ===== src/Controller/Provisioner/Runs.antt =====
-- A run of `ProvisionerReconciler.Reconcile` in any environment.
use cloud_burst_controller.Common.{[]}
use cloud_burst_controller.Kube.{Duration, NamespacedName}
use cloud_burst_controller.Effect.Contract.{Environment, run, Meets, EndsWell, run-EndsWell}
use cloud_burst_controller.Controller.Provisioner.{reconcile}
use cloud_burst_controller.Controller.Provisioner.Promise.{contract}
use cloud_burst_controller.Controller.Provisioner.Exact.{provisioner-Ensures}
use cloud_burst_controller.Controller.Provisioner.Safe.{Anything}
use cloud_burst_controller.Common.Sorting.{Sorter}
use cloud_burst_controller.Talos.{Yaml}
use cloud_burst_controller.Controller.Matching.{name_less}
use cloud_burst_controller.Controller.Selector.{type_less}

-- In every environment where a fetched pool has a valid status and an int32 maximum, and a list of
-- pods has an int32 length, a run of `Reconcile` returns, and: it launches an instance only when the
-- entries of the fetched pool and the launches so far are together below the pool's maximum; a status
-- that it stores is valid, within the maximum, and lists the instances of the fetched pool and then
-- exactly those launched, in order, where the entries of the fetched pool are unchanged and each entry
-- after them is pending, and the rest of the pool but its counters is the fetched one's; and it
-- terminates no instance.
pub provisioner-EndsWell :
    (yaml : Yaml) (sort_pools : Sorter name_less) (sort_types : Sorter type_less)
    (period : Duration) (key : NamespacedName) (env : Environment) (s : env.State)
    → Meets env (contract)
    → EndsWell (contract) Anything (run env s [] (reconcile yaml sort_pools sort_types period key))
provisioner-EndsWell yaml sort_pools sort_types period key env s assumed =
    run-EndsWell (contract) env assumed Anything s []
      (reconcile yaml sort_pools sort_types period key) tt
      (provisioner-Ensures yaml sort_pools sort_types period key)
