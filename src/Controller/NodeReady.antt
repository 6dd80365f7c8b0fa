-- ===== src/Controller/NodeReady.antt =====
-- internal/controller/provisioner_reconciler.go, `NodeReadyReconciler`: a pending node becomes running
-- when it is ready, and is terminated when it takes too long.
pub mod Safe
pub mod Runs
pub mod Works
pub mod Changes
use cloud_burst_controller.Common.{
  String, ℤ, pos, eqb_ℤ, ltb_ℤ, Bool, true, false, not, ◌&&◌, ◌||◌, Option, none, some, List, [],
  ◌∷◌, any, copy_into, text_at, str_eq, if◌then◌else◌,
}
use cloud_burst_controller.Common.Prefix.{has_prefix}
use cloud_burst_controller.Kube.{Time, Duration, Condition, Node}
use cloud_burst_controller.Api.{
  NodeState, pending, running, cordoned, draining, terminating, BurstNodeStatus, BurstNodePool,
}
use cloud_burst_controller.Errors.{Error, wrapped, Result, ok, err}
use cloud_burst_controller.Effect.{
  get_node, list_pools, update_node, update_pool_status, terminate_node, now, Program, ret, call,
  since, seconds, Outcome, done, requeue, fail, fail_unless_not_found,
}
use cloud_burst_controller.Controller.NodeStatus.{
  Split, Found, find_pool_and_node, has_name, with_entry, without_entry, increment, decrement,
}

unfoldable pub is_node_ready : Node → Bool
unfolding any
is_node_ready node =
    any (λ (c : Condition). str_eq c.kind "Ready" && str_eq c.status "True") node.conditions

unfoldable pub is_managed : Node → Bool
unfolding text_at
is_managed node = str_eq (text_at "burst.homelab.dev/managed" node.labels) "true"

abbrev pub is_pending : NodeState → Bool
is_pending pending = true
is_pending running = false
is_pending cordoned = false
is_pending draining = false
is_pending terminating = false

-- The loops pass over an entry with another name, and over one that is no longer pending.
unfoldable pub is_pending_entry : String → BurstNodeStatus → Bool
is_pending_entry name n = has_name name n && is_pending n.state

-- `if err := r.Status().Update(ctx, pool); err != nil`, and the return behind it.
unfoldable pub store_status : BurstNodePool → Program Outcome
store_status pool =
    call (update_pool_status pool)
      (elim [ err e ↦ ret (fail (wrapped "updating pool status" e)) | ok _ ↦ ret done ])

unfoldable pub mark_running : Found → Time → BurstNodePool
mark_running f at_time =
    let pool = with_entry f (record f.split.entry { state = running; ready_at = some at_time }) in
    record pool {
      status = record pool.status {
        pending_nodes = decrement pool.status.pending_nodes;
        active_nodes = increment pool.status.active_nodes;
      };
    }

-- The node became ready. An error of the label update is logged.
unfoldable pub become_ready : Node → Found → Program Outcome
become_ready node f = call now λ at_time.
    let labelled = record node { labels = copy_into node.labels f.pool.spec.node_labels } in
    call (update_node labelled) λ _. store_status (mark_running f at_time)

unfoldable pub boot_timeout : BurstNodePool → Duration
boot_timeout pool =
    let configured = pool.spec.scaling.boot_timeout in
    if eqb_ℤ configured (pos 0) then seconds 300 else configured

unfoldable pub drop_pending : Found → BurstNodePool
drop_pending f = record f.pool {
  status = record (without_entry f) { pending_nodes = decrement f.pool.status.pending_nodes };
}

unfoldable pub is_past_boot_timeout : Found → Time → Bool
is_past_boot_timeout f at_time =
    ltb_ℤ (boot_timeout f.pool) (since at_time f.split.entry.launched_at)

-- The node is not ready: terminate it past the boot timeout (an error is logged), or look again.
unfoldable pub check_boot_timeout : Found → Program Outcome
check_boot_timeout f = call now λ at_time.
    if is_past_boot_timeout f at_time
    then (call (terminate_node f.split.entry.instance_id) λ _. store_status (drop_pending f))
    else ret (requeue (seconds 15))

unfoldable pub handle_entry : Node → Option Found → Program Outcome
handle_entry node none = ret done
handle_entry node (some f) =
    if is_node_ready node then become_ready node f else check_boot_timeout f

-- Managed by label, or by the prefix of its name.
unfoldable pub is_burst_node : Node → Bool
is_burst_node node = is_managed node || has_prefix node.name "burst-"

unfoldable pub reconcile : String → Program Outcome
reconcile name = call (get_node name) (elim [
  | err e ↦ ret (fail_unless_not_found e)
  | ok node ↦
      if not (is_burst_node node)
      then ret done
      else call list_pools (elim [
        | err e ↦ ret (fail e)
        | ok pools ↦ handle_entry node (find_pool_and_node (is_pending_entry node.name) pools)
      ])
])
