-- ===== src/System/Known.antt =====
-- Which instances a run knows of: those of the pools that it read, and those that it launched.
pub mod Programs
use cloud_burst_controller.Common.{
  Bool, some, ◌≡◌, ◌⊎◌, inl, inr, refl, sym, ap, ◌∙◌, subst, String, List, [], ◌∷◌, ◌++◌, map, All,
  All-map, All-append, All-IsIn, IsIn,
}
use cloud_burst_controller.Api.{
  cordoned, draining, terminating, running, BurstNodeStatus, BurstNodePool,
}
use cloud_burst_controller.Cloud.{LaunchOptions}
use cloud_burst_controller.Errors.{ok, err}
use cloud_burst_controller.Effect.{
  Request, Response, update_pool_status, launch_node, terminate_node,
}
use cloud_burst_controller.Effect.Contract.{
  Event, event, Trace, Happened, Happened-map, Contract, Ensures, Ensures-weaken, Ensures-both,
  both,
}
use cloud_burst_controller.Controller.NodeStatus.{Found, has_name, with_entry, without_entry}
use cloud_burst_controller.Controller.NodeStatus.Valid.{IsFound, IsValid}
use cloud_burst_controller.Controller.NodeStatus.Storing.{ListedPool, OnlyStores, Anything}
use cloud_burst_controller.Controller.NodeStatus.Entries.{
  entry_holds, with_entry-All, without_entry-All,
}
use cloud_burst_controller.Controller.NodeReady
use cloud_burst_controller.Controller.NodeReady.{is_pending_entry, mark_running, drop_pending}
use cloud_burst_controller.Controller.NodeReady.Safe.{node_ready-Ensures}
use cloud_burst_controller.Controller.NodeReady.Changes.{
  Booted, made_ready, given_up, node_ready-Changes,
}
use cloud_burst_controller.Controller.Reaper
use cloud_burst_controller.Controller.Reaper.{in_state, idle_since, drop_active}
use cloud_burst_controller.Controller.Reaper.Safe.{reaper-Ensures}
use cloud_burst_controller.Controller.Reaper.Changes.{
  Reaped, cordoning, draining_off, stopping, marked, dropped, reaper-Changes,
}
use cloud_burst_controller.Controller.Provisioner
use cloud_burst_controller.Controller.Provisioner.Promise.{
  launches, extend_launches, instance_ids, MayStore,
}
use cloud_burst_controller.Controller.Provisioner.Exact.{provisioner-Ensures}
use cloud_burst_controller.System.{Config, Job, provision, make_ready, reap, program_of}
use cloud_burst_controller.System.Sound.{Assume}
use cloud_burst_controller.System.Exact.{lists_valid, provisioner_assumes}
use cloud_burst_controller.System.LifeCycle.{ReadPool}

-- The response shows the instance: as that of an entry of a pool, or launched.
abbrev pub Shows : String → Event → Type 0
Shows id e =
    ((p : BurstNodePool) × (n : BurstNodeStatus) × ReadPool p e
      × IsIn n p.status.nodes
      × (n.instance_id ≡ id))
    ⊎ ((opts : LaunchOptions) × (e ≡ event (launch_node opts) (ok id)))

abbrev pub Known : Trace → String → Type 0
Known tr id = Happened (Shows id) tr

abbrev pub KnownEntry : Trace → BurstNodeStatus → Type 0
KnownEntry tr n = Known tr n.instance_id

abbrev pub Promise : Trace → Request → Type 0
Promise tr (update_pool_status pool) = All (KnownEntry tr) pool.status.nodes
Promise tr (terminate_node id) = Known tr id
Promise tr _ = Unit

abbrev pub contract : Contract
contract = record { assume = Assume IsValid; promise = Promise }

abbrev nodes_of : BurstNodePool → List BurstNodeStatus
nodes_of p = p.status.nodes

-- The entries of a pool that was read are known.
pub read-KnownEntry :
    (tr : Trace) (p : BurstNodePool) → Happened (ReadPool p) tr → All (KnownEntry tr) p.status.nodes
read-KnownEntry tr p was =
    All-map
      (λ n k.
        Happened-map (ReadPool p) (Shows n.instance_id) (λ e r. inl (p, n, r, k, refl)) tr was)
      p.status.nodes (All-IsIn p.status.nodes)

pub listed-KnownEntry :
    (tr : Trace) (p : BurstNodePool)
    → Happened (ListedPool p) tr
    → All (KnownEntry tr) p.status.nodes
listed-KnownEntry tr p was =
    read-KnownEntry tr p (Happened-map (ListedPool p) (ReadPool p) (λ e r. inl r) tr was)

-- A change of an entry of a pool keeps the instances.
module _ (tr : Trace) (f : Found) (all : All (KnownEntry tr) f.pool.status.nodes) where
  module _ (test : BurstNodeStatus → Bool) (found : IsFound test f) where
    pub found-Known : Known tr f.split.entry.instance_id
    found-Known = entry_holds (KnownEntry tr) test f found all

    changed :
        (entry : BurstNodeStatus) (stored : List BurstNodeStatus)
        → entry.instance_id ≡ f.split.entry.instance_id
        → stored ≡ (with_entry f entry).status.nodes
        → All (KnownEntry tr) stored
    changed entry stored same_id same = subst (All (KnownEntry tr)) (sym same) (
        with_entry-All (KnownEntry tr) test f found all entry
          (subst (Known tr) (sym same_id) found-Known))

    removed :
        (stored : List BurstNodeStatus)
        → stored ≡ (without_entry f).nodes
        → All (KnownEntry tr) stored
    removed stored same =
        subst (All (KnownEntry tr)) (sym same) (without_entry-All (KnownEntry tr) test f found all)

  pub Booted-KnownEntry :
      (name : String)
      → IsFound (is_pending_entry name) f
      → (stored : BurstNodePool) → Booted tr f stored
      → All (KnownEntry tr) stored.status.nodes
  unfolding mark_running drop_pending
  Booted-KnownEntry name found stored (made_ready t same) =
      changed _ found (record f.split.entry { state = running; ready_at = some t })
        stored.status.nodes refl (ap nodes_of same)
  Booted-KnownEntry name found stored (given_up asked same) =
      removed _ found stored.status.nodes (ap nodes_of same)

  pub Reaped-KnownEntry :
      (name : String)
      → IsFound (has_name name) f
      → (stored : BurstNodePool) → Reaped tr f stored
      → All (KnownEntry tr) stored.status.nodes
  unfolding in_state idle_since drop_active
  Reaped-KnownEntry name found stored (dropped asked same) =
      removed _ found stored.status.nodes (ap nodes_of same)
  Reaped-KnownEntry name found stored (cordoning same) =
      changed _ found (record f.split.entry { state = cordoned }) stored.status.nodes refl
        (ap nodes_of same)
  Reaped-KnownEntry name found stored (draining_off same) =
      changed _ found (record f.split.entry { state = draining }) stored.status.nodes refl
        (ap nodes_of same)
  Reaped-KnownEntry name found stored (stopping same) =
      changed _ found (record f.split.entry { state = terminating }) stored.status.nodes refl
        (ap nodes_of same)
  Reaped-KnownEntry name found stored (marked t same) =
      changed _ found (record f.split.entry { last_pod_finished = t }) stored.status.nodes refl
        (ap nodes_of same)
