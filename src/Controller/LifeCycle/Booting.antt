-- ===== src/Controller/LifeCycle/Booting.antt =====
-- What `NodeReadyReconciler.Reconcile` stores, against the life of an instance.
use cloud_burst_controller.Common.{◌≡◌, refl, inl, subst, sym, some, String, arith}
use cloud_burst_controller.Kube.{Time}
use cloud_burst_controller.Api.{pending, running, BurstNodePool}
use cloud_burst_controller.Effect.Contract.{Trace, Happened}
use cloud_burst_controller.Controller.NodeStatus.{Found, with_entry, without_entry}
use cloud_burst_controller.Controller.NodeStatus.Valid.{IsFound}
use cloud_burst_controller.Controller.NodeReady
use cloud_burst_controller.Controller.NodeReady.Changes.{Booted, made_ready, given_up}
use cloud_burst_controller.Controller.NodeReady.{is_pending_entry, mark_running, drop_pending}
use cloud_burst_controller.Controller.NodeStatus.Storing.{ListedPool}
use cloud_burst_controller.Controller.LifeCycle
use cloud_burst_controller.Controller.LifeCycle.{
  AsksToEnd, Forward, still, then_move, moved, left, Refines,
}

module _ (name : String) (f : Found) (found : IsFound (is_pending_entry name) f) where
  pending_state : f.split.entry.state ≡ pending
  unfolding is_pending_entry
  pending_state = ground (arith, found.passes)

  mark_running-Refines :
      (t : Time) (tr : Trace)
      → Happened (ListedPool f.pool) tr
      → Refines ListedPool tr (mark_running f t)
  unfolding mark_running with_entry
  mark_running-Refines t tr listed = record {
    read = f.pool;
    was_read = listed;
    namespace = refl;
    name = refl;
    spec = refl;
    step =
        moved f.split.before f.split.after f.split.entry
          (record f.split.entry { state = running; ready_at = some t })
          (record {
            name = refl;
            instance_id = refl;
            instance_type = refl;
            launched_at = refl;
            state =
                subst (λ s. Forward s running) (sym pending_state)
                  (then_move still LifeCycle.become_ready);
          })
          found.nodes refl;
  }

  drop_pending-Refines :
      (tr : Trace)
      → Happened (ListedPool f.pool) tr
      → Happened (AsksToEnd f.split.entry.instance_id) tr
      → Refines ListedPool tr (drop_pending f)
  unfolding drop_pending without_entry
  drop_pending-Refines tr listed asked = record {
    read = f.pool;
    was_read = listed;
    namespace = refl;
    name = refl;
    spec = refl;
    step =
        left f.split.before f.split.after f.split.entry (inl pending_state) asked found.nodes refl;
  }

Booted-Refines :
    (name : String) (f : Found) (found : IsFound (is_pending_entry name) f) (stored : BurstNodePool)
    (tr : Trace)
    → Happened (ListedPool f.pool) tr
    → Booted tr f stored
    → Refines ListedPool tr stored
Booted-Refines name f found stored tr listed (made_ready t e) =
    rw e (mark_running-Refines name f found t tr listed)
Booted-Refines name f found stored tr listed (given_up asked e) =
    rw e (drop_pending-Refines name f found tr listed asked)

-- A change by the node-ready reconciler is a step of the life of an instance of a listed pool.
pub Change-Refines :
    (tr : Trace) (stored : BurstNodePool)
    → NodeReady.Changes.Change tr stored
    → Refines ListedPool tr stored
Change-Refines tr stored h = Booted-Refines h.name h.found h.is_entry stored tr h.listed h.booted
