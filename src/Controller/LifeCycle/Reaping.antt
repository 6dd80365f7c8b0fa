-- ===== src/Controller/LifeCycle/Reaping.antt =====
-- What `ReaperReconciler.Reconcile` stores, against the life of an instance.
use cloud_burst_controller.Common.{◌≡◌, refl, inr, subst, sym, Option, String}
use cloud_burst_controller.Kube.{Time}
use cloud_burst_controller.Api.{NodeState, running, cordoned, draining, terminating, BurstNodePool}
use cloud_burst_controller.Effect.Contract.{Trace, Happened}
use cloud_burst_controller.Controller.NodeStatus.{Found, with_entry, without_entry, has_name}
use cloud_burst_controller.Controller.NodeStatus.Valid.{IsFound}
use cloud_burst_controller.Controller.NodeStatus.Storing.{ListedPool}
use cloud_burst_controller.Controller.Reaper
use cloud_burst_controller.Controller.Reaper.Changes.{
  Reaped, cordoning, draining_off, stopping, marked, dropped,
}
use cloud_burst_controller.Controller.Reaper.{in_state, idle_since, drop_active}
use cloud_burst_controller.Controller.LifeCycle.{
  AsksToEnd, cordon, drain, stop, Forward, still, then_move, moved, left, Refines,
}

to_cordoned : Forward running cordoned
to_cordoned = then_move still cordon

to_draining : Forward running draining
to_draining = then_move to_cordoned drain

to_terminating : Forward running terminating
to_terminating = then_move to_draining stop

module _ (name : String) (f : Found) (found : IsFound (has_name name) f)
    (runs : f.split.entry.state ≡ running) where
  abbrev Listed : Trace → Type 0
  Listed tr = Happened (ListedPool f.pool) tr

  in_state-Refines :
      (state : NodeState) (tr : Trace)
      → Forward running state
      → Listed tr
      → Refines ListedPool tr (in_state state f)
  unfolding in_state with_entry
  in_state-Refines state tr forward listed = record {
    read = f.pool;
    was_read = listed;
    namespace = refl;
    name = refl;
    spec = refl;
    step =
        moved f.split.before f.split.after f.split.entry (record f.split.entry { state = state })
          (record {
            name = refl;
            instance_id = refl;
            instance_type = refl;
            launched_at = refl;
            state = subst (λ s. Forward s state) (sym runs) forward;
          })
          found.nodes refl;
  }

  drop_active-Refines :
      (tr : Trace)
      → Listed tr
      → Happened (AsksToEnd f.split.entry.instance_id) tr
      → Refines ListedPool tr (drop_active f)
  unfolding drop_active without_entry
  drop_active-Refines tr listed asked = record {
    read = f.pool;
    was_read = listed;
    namespace = refl;
    name = refl;
    spec = refl;
    step = left f.split.before f.split.after f.split.entry (inr runs) asked found.nodes refl;
  }

  idle_since-Refines :
      (t : Option Time) (tr : Trace) → Listed tr → Refines ListedPool tr (idle_since t f)
  unfolding idle_since with_entry
  idle_since-Refines t tr listed = record {
    read = f.pool;
    was_read = listed;
    namespace = refl;
    name = refl;
    spec = refl;
    step =
        moved f.split.before f.split.after f.split.entry
          (record f.split.entry { last_pod_finished = t })
          (record {
            name = refl;
            instance_id = refl;
            instance_type = refl;
            launched_at = refl;
            state = still;
          })
          found.nodes refl;
  }

Reaped-Refines :
    (name : String) (f : Found) (found : IsFound (has_name name) f)
    (runs : f.split.entry.state ≡ running) (stored : BurstNodePool) (tr : Trace)
    → Happened (ListedPool f.pool) tr
    → Reaped tr f stored
    → Refines ListedPool tr stored
Reaped-Refines name f found runs stored tr listed (cordoning e) =
    rw e (in_state-Refines name f found runs cordoned tr to_cordoned listed)
Reaped-Refines name f found runs stored tr listed (draining_off e) =
    rw e (in_state-Refines name f found runs draining tr to_draining listed)
Reaped-Refines name f found runs stored tr listed (stopping e) =
    rw e (in_state-Refines name f found runs terminating tr to_terminating listed)
Reaped-Refines name f found runs stored tr listed (marked t e) =
    rw e (idle_since-Refines name f found runs t tr listed)
Reaped-Refines name f found runs stored tr listed (dropped asked e) =
    rw e (drop_active-Refines name f found runs tr listed asked)

-- A change by the reaper is a step of the life of an instance of a listed pool.
pub Change-Refines :
    (tr : Trace) (stored : BurstNodePool)
    → Reaper.Changes.Change tr stored
    → Refines ListedPool tr stored
Change-Refines tr stored h =
    Reaped-Refines h.name h.found h.is_entry h.runs stored tr h.listed h.reaped
