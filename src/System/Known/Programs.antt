-- ===== src/System/Known/Programs.antt =====
-- The three reconcilers that react to events against what they know.
use cloud_burst_controller.Common.{
  inl, inr, refl, sym, subst, Bool, String, List, [], ◌∷◌, map, All, All-map, All-append,
}
use cloud_burst_controller.Api.{BurstNodeStatus, BurstNodePool}
use cloud_burst_controller.Errors.{ok}
use cloud_burst_controller.Effect.{
  Request, Response, update_pool_status, launch_node, terminate_node, Program, Outcome,
}
use cloud_burst_controller.Effect.Contract.{
  event, Trace, Happened-map, Contract, Ensures, Ensures-weaken, Ensures-both, both,
}
use cloud_burst_controller.Controller.NodeStatus.Valid.{IsValid}
use cloud_burst_controller.Controller.NodeStatus.Storing.{OnlyStores, storing, Anything}
use cloud_burst_controller.Controller.NodeReady
use cloud_burst_controller.Controller.NodeReady.Safe.{node_ready-Ensures}
use cloud_burst_controller.Controller.NodeReady.Changes.{node_ready-Changes}
use cloud_burst_controller.Controller.Reaper
use cloud_burst_controller.Controller.Reaper.Safe.{reaper-Ensures}
use cloud_burst_controller.Controller.Reaper.Changes.{reaper-Changes}
use cloud_burst_controller.Controller.Provisioner
use cloud_burst_controller.Controller.Provisioner.Promise.{
  launches, extend_launches, instance_ids, Fetched, MayStore,
}
use cloud_burst_controller.Controller.Provisioner.Exact.{provisioner-Ensures}
use cloud_burst_controller.System.{Config, Job, provision, make_ready, reap, program_of}
use cloud_burst_controller.System.Sound.{Assume}
use cloud_burst_controller.System.Exact.{lists_valid, provisioner_assumes}
use cloud_burst_controller.System.LifeCycle.{ReadPool}
use cloud_burst_controller.System.Known.{
  Known, KnownEntry, Promise, contract, read-KnownEntry, listed-KnownEntry, found-Known,
  Booted-KnownEntry, Reaped-KnownEntry,
}

module _ (P : String → Type 0) where
  ids_hold :
      (ns : List BurstNodeStatus)
      → All (λ (n : BurstNodeStatus). P n.instance_id) ns
      → All P (map (λ (n : BurstNodeStatus). n.instance_id) ns)
  ids_hold [] h = tt
  ids_hold (n ∷ ns) h = (h.0, ids_hold ns h.1)

  entries_hold :
      (ns : List BurstNodeStatus)
      → All P (map (λ (n : BurstNodeStatus). n.instance_id) ns)
      → All (λ (n : BurstNodeStatus). P n.instance_id) ns
  entries_hold [] h = tt
  entries_hold (n ∷ ns) h = (h.0, entries_hold ns h.1)

extend_launches-Known :
    (q : Request) (r : Response q) (tr : Trace)
    → All (Known tr) (launches tr)
    → All (Known (event q r ∷ tr)) (extend_launches q r (launches tr))
extend_launches-Known (launch_node opts) (ok id) tr h =
    All-append (Known (event (launch_node opts) (ok id) ∷ tr)) (launches tr) (id ∷ [])
      (All-map (λ other k. inr k) (launches tr) h) (inl (inr (opts, refl)), tt)
extend_launches-Known _ _ tr h = All-map (λ other k. inr k) (launches tr) h

launches-Known : (tr : Trace) → All (Known tr) (launches tr)
launches-Known [] = tt
launches-Known (e ∷ tr) = extend_launches-Known e.request e.response tr (launches-Known tr)

stored-KnownEntry :
    (tr : Trace) (pool : BurstNodePool) → MayStore tr pool → All (KnownEntry tr) pool.status.nodes
stored-KnownEntry tr pool may =
    let fetched = read-KnownEntry tr may.fetched (
      Happened-map (Fetched may.fetched) (ReadPool may.fetched) (λ e r. inr r) tr
        may.was_fetched) in
    entries_hold (Known tr) pool.status.nodes (
      subst (All (Known tr)) (sym may.accounted) (
        All-append (Known tr) (instance_ids may.fetched) (launches tr)
          (ids_hold (Known tr) may.fetched.status.nodes fetched) (launches-Known tr)))

provisioner_promises : (tr : Trace) (q : Request) → Provisioner.Promise.Promise tr q → Promise tr q
provisioner_promises tr (update_pool_status pool) h = stored-KnownEntry tr pool h
provisioner_promises tr (terminate_node id) h = absurd h
provisioner_promises tr _ h = tt

node_ready_promises :
    (name : String) (tr : Trace) (q : Request)
    → NodeReady.Safe.Promise name tr q × OnlyStores NodeReady.Changes.Change tr q
    → Promise tr q
node_ready_promises name tr (update_pool_status pool) (h, k) =
    Booted-KnownEntry tr k.found (listed-KnownEntry tr k.found.pool k.listed) k.name k.is_entry pool
      k.booted
node_ready_promises name tr (terminate_node id) (h, k) =
    subst (Known tr) h.has_id
      (found-Known tr h.found (listed-KnownEntry tr h.found.pool h.listed) _ h.is_entry)
node_ready_promises name tr _ h = tt

reaper_promises :
    (drainer : Bool) (tr : Trace) (q : Request)
    → Reaper.Promise.Promise drainer tr q × OnlyStores Reaper.Changes.Change tr q
    → Promise tr q
reaper_promises drainer tr (update_pool_status pool) (h, k) =
    Reaped-KnownEntry tr k.found (listed-KnownEntry tr k.found.pool k.listed) k.name k.is_entry pool
      k.reaped
reaper_promises drainer tr (terminate_node id) (h, k) =
    subst (Known tr) h.has_id
      (found-Known tr h.found (listed-KnownEntry tr h.found.pool h.listed) _ h.is_entry)
reaper_promises drainer tr _ h = tt

-- What a program keeps to, with what it stores.
module _ (c : Contract) (Change : Trace → BurstNodePool → Type 0)
    (assumed : (q : Request) (r : Response q) → Assume IsValid q r → c.assume q r)
    (promised : (tr : Trace) (q : Request)
      → c.promise tr q × OnlyStores Change tr q
      → Promise tr q) where
  abbrev kept : Contract
  kept = record { assume = Assume IsValid; promise = c.promise }

  abbrev changes : Contract
  changes = record { assume = Assume IsValid; promise = OnlyStores Change }

  from_both :
      (m : Program Outcome)
      → Ensures c Anything [] m
      → Ensures (storing Change) Anything [] m
      → Ensures contract Anything [] m
  from_both m h k =
      Ensures-weaken (both kept (OnlyStores Change)) contract (λ q r a. a) promised Anything [] m
        (Ensures-both kept (OnlyStores Change) Anything [] m
          (Ensures-weaken c kept assumed (λ tr q p. p) Anything [] m h)
          (Ensures-weaken (storing Change) changes (λ q r a. tt) (λ tr q p. p) Anything [] m k))

-- What each of the three stores and terminates is known to it.
pub program_of-Knows :
    (cfg : Config) (job : Job) → Ensures contract Anything [] (program_of cfg job)
unfolding program_of
program_of-Knows cfg (provision key) =
    Ensures-weaken Provisioner.Promise.contract contract provisioner_assumes provisioner_promises
      Anything [] _
      (provisioner-Ensures cfg.yaml cfg.sort_pools cfg.sort_types cfg.debounce_period key)
program_of-Knows cfg (make_ready name) =
    from_both (NodeReady.Safe.contract name) NodeReady.Changes.Change lists_valid
      (node_ready_promises name) _ (node_ready-Ensures name) (node_ready-Changes name)
program_of-Knows cfg (reap name) =
    from_both (Reaper.Promise.contract cfg.drainer) Reaper.Changes.Change lists_valid
      (reaper_promises cfg.drainer) _ (reaper-Ensures cfg.drainer cfg.reaper_interval name)
      (reaper-Changes cfg.drainer cfg.reaper_interval name)
