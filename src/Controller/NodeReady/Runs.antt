-- ===== src/Controller/NodeReady/Runs.antt =====
-- A run of `NodeReadyReconciler.Reconcile` in any environment.
use cloud_burst_controller.Common.{String, []}
use cloud_burst_controller.Effect.Contract.{Environment, run, Meets, EndsWell, run-EndsWell}
use cloud_burst_controller.Controller.NodeReady.{reconcile}
use cloud_burst_controller.Controller.NodeReady.Safe.{contract}
use cloud_burst_controller.Controller.NodeReady.Safe.{Anything, node_ready-Ensures}

-- In every environment whose listed pools have valid statuses, a run of `Reconcile` returns, and: it
-- stores only valid statuses; it terminates an instance only if it is that of a pending entry of a
-- listed pool, the node of that name was fetched and is not ready, and the clock was read past the
-- pool's boot timeout.
pub node_ready-EndsWell :
    (name : String) (env : Environment) (s : env.State)
    → Meets env (contract name)
    → EndsWell (contract name) Anything (run env s [] (reconcile name))
node_ready-EndsWell name env s assumed =
    run-EndsWell (contract name) env assumed Anything s [] (reconcile name) tt
      (node_ready-Ensures name)
