-- ===== src/Controller/Reaper/Promise.antt =====
-- What `ReaperReconciler.Reconcile` keeps to: when it terminates an instance or deletes a node.
use cloud_burst_controller.Common.{◌≡◌, ◌≤ℤ◌, Bool, true, some, List, all, String}
use cloud_burst_controller.Kube.{Time, Pod}
use cloud_burst_controller.Api.{NodeState, running, cordoned, draining, terminating}
use cloud_burst_controller.Errors.{Result, ok}
use cloud_burst_controller.Effect.{
  Request, list_pods_on, update_pool_status, delete_node, run_node_drain, terminate_node, now,
  since,
}
use cloud_burst_controller.Effect.Contract.{Event, event, Trace, Happened, Contract}
use cloud_burst_controller.Drain.{drain_helper, drain_timeout}
use cloud_burst_controller.Controller.NodeStatus.{Found, has_name}
use cloud_burst_controller.Controller.NodeStatus.Valid.{IsValid, IsFound}
use cloud_burst_controller.Controller.NodeStatus.Storing.{ListedPool}
use cloud_burst_controller.Controller.NodeReady.Safe.{ListsValid}
use cloud_burst_controller.Controller.Reaper.{is_ignored, cooldown_of, in_state}

-- The pods on the node were listed, and each of them is a daemon set's, succeeded or failed.
abbrev pub SeenIdle : String → Event → Type 0
SeenIdle name e =
    (pods : List Pod) × (e ≡ event (list_pods_on name) (ok pods)) × (all is_ignored pods ≡ true)

-- The clock was read when the cooldown since `finished` was over.
abbrev pub CooledDown : Found → Time → Event → Type 0
CooledDown f finished e = (t : Time) × (e ≡ event now t) × (cooldown_of f.pool ≤ℤ since t finished)

-- The status with the entry in this state was stored.
abbrev pub Stored : NodeState → Found → Event → Type 0
Stored state f e = (u : Unit) × (e ≡ event (update_pool_status (in_state state f)) (ok u))

abbrev pub Drained : String → Event → Type 0
Drained name e =
    (r : Result Unit) × (e ≡ event (run_node_drain (drain_helper drain_timeout) name) r)

-- Why an instance may be terminated: it is that of a running entry with this node's name in a listed
-- pool, the node was seen idle, the entry had an idle time, and the cooldown since then is over; and
-- the three states were stored before, and the node drained if there is a drainer.
pub record MayTerminate (drainer : Bool) (tr : Trace) (id : String) : Type 0 where
  pub name : String
  pub found : Found
  pub finished : Time
  pub is_entry : IsFound (has_name name) found
  pub has_id : found.split.entry.instance_id ≡ id
  pub was_running : found.split.entry.state ≡ running
  pub was_idle : found.split.entry.last_pod_finished ≡ some finished
  pub listed : Happened (ListedPool found.pool) tr
  pub seen_idle : Happened (SeenIdle name) tr
  pub cooled_down : Happened (CooledDown found finished) tr
  pub stored_cordoned : Happened (Stored cordoned found) tr
  pub stored_draining : Happened (Stored draining found) tr
  pub stored_terminating : Happened (Stored terminating found) tr
  pub drained : drainer ≡ true → Happened (Drained name) tr

abbrev pub Terminated : Event → Type 0
Terminated e = (id : String) × (u : Unit) × (e ≡ event (terminate_node id) (ok u))

abbrev pub Promise : Bool → Trace → Request → Type 0
Promise drainer tr (update_pool_status pool) = IsValid pool.status
Promise drainer tr (terminate_node id) = MayTerminate drainer tr id
Promise drainer tr (delete_node name) = Happened Terminated tr
Promise drainer tr _ = Unit

abbrev pub contract : Bool → Contract
contract drainer = record { assume = ListsValid; promise = Promise drainer }
