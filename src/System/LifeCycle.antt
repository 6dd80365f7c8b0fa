-- ===== src/System/LifeCycle.antt =====
-- The three reconcilers that react to events, against the life of an instance.
use cloud_burst_controller.Common.{◌⊎◌, inl, inr, []}
use cloud_burst_controller.Api.{BurstNodePool}
use cloud_burst_controller.Effect.{Request, update_pool_status}
use cloud_burst_controller.Effect.Contract.{
  Event, Trace, Happened-map, Contract, Ensures, Ensures-weaken, Environment, run, Meets, EndsWell,
  run-EndsWell,
}
use cloud_burst_controller.Controller.LifeCycle.{Refines, launched}
use cloud_burst_controller.Controller.LifeCycle.Reaping
use cloud_burst_controller.Controller.LifeCycle.Booting
use cloud_burst_controller.Controller.NodeStatus.Storing.{storing, OnlyStores, Anything}
use cloud_burst_controller.Controller.Reaper
use cloud_burst_controller.Controller.Reaper.Changes.{reaper-Changes}
use cloud_burst_controller.Controller.NodeReady
use cloud_burst_controller.Controller.NodeReady.Changes.{node_ready-Changes}
use cloud_burst_controller.Controller.NodeStatus.Storing.{ListedPool}
use cloud_burst_controller.Controller.Provisioner
use cloud_burst_controller.Controller.Provisioner.Promise.{Fetched}
use cloud_burst_controller.Controller.Provisioner.Exact.{provisioner-Ensures}
use cloud_burst_controller.System.{Config, Job, provision, make_ready, reap, program_of}
use cloud_burst_controller.System.Sound.{Assume}
use cloud_burst_controller.System.Exact.{provisioner_assumes}
use cloud_burst_controller.Controller.NodeStatus.Valid.{IsValid}

-- A pool was fetched, or is one of a list.
abbrev pub ReadPool : BurstNodePool → Event → Type 0
ReadPool p e = ListedPool p e ⊎ Fetched p e

Refines-weaken :
    (R S : BurstNodePool → Event → Type 0)
    → ((p : BurstNodePool) (e : Event) → R p e → S p e)
    → (tr : Trace) (pool : BurstNodePool) → Refines R tr pool
    → Refines S tr pool
Refines-weaken R S weaker tr pool h = record {
  read = h.read;
  was_read = Happened-map (R h.read) (S h.read) (weaker h.read) tr h.was_read;
  namespace = h.namespace;
  name = h.name;
  spec = h.spec;
  step = h.step;
}

abbrev pub Promise : Trace → Request → Type 0
Promise tr (update_pool_status pool) = Refines ReadPool tr pool
Promise tr _ = Unit

abbrev pub contract : Contract
contract = record { assume = Assume IsValid; promise = Promise }

from_changes :
    (Change : Trace → BurstNodePool → Type 0)
    → ((tr : Trace) (pool : BurstNodePool) → Change tr pool → Refines ListedPool tr pool)
    → (tr : Trace) (q : Request) → OnlyStores Change tr q
    → Promise tr q
from_changes Change refines tr (update_pool_status pool) h =
    Refines-weaken ListedPool ReadPool (λ p e. inl) tr pool (refines tr pool h)
from_changes Change refines tr _ h = tt

from_fetched : (tr : Trace) (q : Request) → Provisioner.Promise.Promise tr q → Promise tr q
from_fetched tr (update_pool_status pool) h = record {
  read = h.fetched;
  was_read = Happened-map (Fetched h.fetched) (ReadPool h.fetched) (λ e. inr) tr h.was_fetched;
  namespace = h.extends.namespace;
  name = h.extends.name;
  spec = h.extends.spec;
  step = launched h.extends;
}
from_fetched tr _ h = tt

program_of-Keeps : (cfg : Config) (job : Job) → Ensures contract Anything [] (program_of cfg job)
unfolding program_of
program_of-Keeps cfg (provision key) =
    Ensures-weaken Provisioner.Promise.contract contract provisioner_assumes from_fetched Anything
      [] _ (provisioner-Ensures cfg.yaml cfg.sort_pools cfg.sort_types cfg.debounce_period key)
program_of-Keeps cfg (make_ready name) =
    Ensures-weaken (storing NodeReady.Changes.Change) contract (λ q r h. tt)
      (from_changes NodeReady.Changes.Change Booting.Change-Refines) Anything [] _
      (node_ready-Changes name)
program_of-Keeps cfg (reap name) =
    Ensures-weaken (storing Reaper.Changes.Change) contract (λ q r h. tt)
      (from_changes Reaper.Changes.Change Reaping.Change-Refines) Anything [] _
      (reaper-Changes cfg.drainer cfg.reaper_interval name)

-- In every environment whose listed and fetched pools have valid statuses and int32 maxima, and whose lists
-- of pods have int32 lengths, a run of the provisioner, the node-ready reconciler or the reaper returns,
-- and each pool that it stores is one that it read, with the same specification, after one step of the
-- life of its instances: its entries are unchanged and followed by one pending entry for each launch of
-- the run; or one entry stays at its place for the same node and instance, with its state as it was or
-- further along pending, running, cordoned, draining, terminating, and the others are unchanged; or
-- one pending or running entry is left out, after the termination of its instance was asked for, and the
-- others are unchanged.
pub program_of-Refines :
    (cfg : Config) (job : Job) (env : Environment) (s : env.State)
    → Meets env contract
    → EndsWell contract Anything (run env s [] (program_of cfg job))
program_of-Refines cfg job env s assumed =
    run-EndsWell contract env assumed Anything s [] (program_of cfg job) tt
      (program_of-Keeps cfg job)
