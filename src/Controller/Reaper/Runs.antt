-- ===== src/Controller/Reaper/Runs.antt =====
-- A run of `ReaperReconciler.Reconcile` in any environment.
use cloud_burst_controller.Common.{String, Bool, []}
use cloud_burst_controller.Kube.{Duration}
use cloud_burst_controller.Effect.Contract.{Environment, run, Meets, EndsWell, run-EndsWell}
use cloud_burst_controller.Controller.Reaper.{reconcile}
use cloud_burst_controller.Controller.Reaper.Promise.{contract}
use cloud_burst_controller.Controller.Reaper.Safe.{reaper-Ensures}
use cloud_burst_controller.Controller.Reaper.Teardown.{Anything}

-- In every environment whose listed pools have valid statuses, a run of `Reconcile` returns, and:
-- it stores only valid statuses; it terminates an instance only for a running entry of a listed pool
-- whose node was seen idle, with a stored idle time and the cooldown since then over on the clock,
-- after the states Cordoned, Draining and Terminating were stored, and, if there is a drainer, after
-- the drain; it deletes a node object only after an instance was terminated.
pub reaper-EndsWell :
    (drainer : Bool) (interval : Duration) (name : String) (env : Environment) (s : env.State)
    → Meets env (contract drainer)
    → EndsWell (contract drainer) Anything (run env s [] (reconcile drainer interval name))
reaper-EndsWell drainer interval name env s assumed =
    run-EndsWell (contract drainer) env assumed Anything s [] (reconcile drainer interval name) tt
      (reaper-Ensures drainer interval name)
