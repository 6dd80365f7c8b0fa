-- ===== src/System/Exact.antt =====
-- The reconcilers that react to events, with exact counters.
use cloud_burst_controller.Common.{Bool, String, [], ◌∷◌, All}
use cloud_burst_controller.Api.{BurstNodePool}
use cloud_burst_controller.Errors.{ok, err}
use cloud_burst_controller.Effect.{
  Request, Response, list_pods, get_pool, list_pools, update_pool_status,
}
use cloud_burst_controller.Effect.Contract.{Trace, Ensures, Ensures-weaken}
use cloud_burst_controller.Controller.NodeStatus.Storing.{Anything}
use cloud_burst_controller.Controller.NodeStatus.Valid.{IsValid}
use cloud_burst_controller.Controller.Provisioner
use cloud_burst_controller.Controller.Provisioner.Promise.{MayStore}
use cloud_burst_controller.Controller.Provisioner.Exact.{provisioner-Ensures}
use cloud_burst_controller.Controller.NodeReady
use cloud_burst_controller.Controller.NodeReady.Safe.{node_ready-Ensures}
use cloud_burst_controller.Controller.Reaper
use cloud_burst_controller.Controller.Reaper.Safe.{reaper-Ensures}
use cloud_burst_controller.System.{Store, Config, Job, provision, make_ready, reap, program_of}
use cloud_burst_controller.System.Sound.{IsSound, Assume, Promise, shared}

IsSound-IsValid :
    (pools : Store) → All IsSound pools → All (λ (p : BurstNodePool). IsValid p.status) pools
IsSound-IsValid [] h = tt
IsSound-IsValid (p ∷ ps) h = (h.0.0, IsSound-IsValid ps h.1)

pub lists_valid :
    (q : Request) (r : Response q) → Assume IsValid q r → NodeReady.Safe.ListsValid q r
lists_valid list_pools (ok pools) h = IsSound-IsValid pools h
lists_valid list_pools (err e) h = tt
lists_valid _ _ h = tt

pub provisioner_assumes :
    (q : Request) (r : Response q) → Assume IsValid q r → Provisioner.Promise.Assume q r
provisioner_assumes (get_pool key) (ok pool) h = h
provisioner_assumes list_pods (ok pods) h = h
provisioner_assumes _ _ h = tt

provisioner_promises :
    (tr : Trace) (q : Request) → Provisioner.Promise.Promise tr q → Promise IsValid tr q
provisioner_promises tr (update_pool_status pool) h = h.valid
provisioner_promises tr _ h = tt

node_ready_promises :
    (name : String) (tr : Trace) (q : Request)
    → NodeReady.Safe.Promise name tr q
    → Promise IsValid tr q
node_ready_promises name tr (update_pool_status pool) h = h
node_ready_promises name tr _ h = tt

reaper_promises :
    (drainer : Bool) (tr : Trace) (q : Request)
    → Reaper.Promise.Promise drainer tr q
    → Promise IsValid tr q
reaper_promises drainer tr (update_pool_status pool) h = h
reaper_promises drainer tr _ h = tt

-- Each of the reconcilers keeps the shared contract.
pub program_of-Ensures :
    (cfg : Config) (job : Job) → Ensures (shared IsValid) Anything [] (program_of cfg job)
unfolding program_of
program_of-Ensures cfg (provision key) =
    Ensures-weaken Provisioner.Promise.contract (shared IsValid) provisioner_assumes
      provisioner_promises Anything [] _
      (provisioner-Ensures cfg.yaml cfg.sort_pools cfg.sort_types cfg.debounce_period key)
program_of-Ensures cfg (make_ready name) =
    Ensures-weaken (NodeReady.Safe.contract name) (shared IsValid) lists_valid
      (node_ready_promises name) Anything [] _ (node_ready-Ensures name)
program_of-Ensures cfg (reap name) =
    Ensures-weaken (Reaper.Promise.contract cfg.drainer) (shared IsValid) lists_valid
      (reaper_promises cfg.drainer) Anything [] _
      (reaper-Ensures cfg.drainer cfg.reaper_interval name)
