-- ===== src/Controller/Orphan/Runs.antt =====
-- A run of `OrphanReconciler.Reconcile` in any environment.
use cloud_burst_controller.Common.{[]}
use cloud_burst_controller.Kube.{Duration}
use cloud_burst_controller.Effect.Contract.{Environment, run, Meets, EndsWell, run-EndsWell}
use cloud_burst_controller.Controller.Orphan.{reconcile, boot_timeout}
use cloud_burst_controller.Controller.Orphan.Safe.{contract, Anything, orphan-Ensures}

-- In every environment whose listed pools have valid statuses and no entry that is being terminated,
-- a run of `Reconcile` returns, and: it stores only valid statuses; it terminates only listed instances
-- without a listed node of their name, past the boot timeout on the clock; it deletes only listed
-- nodes without a listed instance of their name.
pub orphan-EndsWell :
    (interval timeout : Duration) (env : Environment) (s : env.State)
    → Meets env (contract (boot_timeout interval timeout))
    → EndsWell
        (contract (boot_timeout interval timeout))
        Anything
        (run env s [] (reconcile interval timeout))
orphan-EndsWell interval timeout env s assumed =
    run-EndsWell (contract (boot_timeout interval timeout)) env assumed Anything s []
      (reconcile interval timeout) tt (orphan-Ensures interval timeout)
