-- ===== src/Controller/Reaper.antt =====
-- internal/controller/reaper_reconciler.go: a burst node that has been idle for the cooldown period is
-- cordoned, drained, terminated and deleted, and its entry removed.
pub mod Promise
pub mod Teardown
pub mod Safe
pub mod Runs
pub mod Works
pub mod Decides
pub mod Changes
use cloud_burst_controller.Common.{
  String, ℤ, pos, ◌-ℤ◌, int64, eqb_ℤ, ltb_ℤ, Bool, true, false, not, ◌||◌, Option, none, some, List,
  [], ◌∷◌, any, all, str_eq, if◌then◌else◌,
}
use cloud_burst_controller.Kube.{Time, Duration, Pod, Node}
use cloud_burst_controller.Api.{
  NodeState, pending, running, cordoned, draining, terminating, BurstNodeStatus, BurstNodePool,
}
use cloud_burst_controller.Errors.{Error, wrapped, Result, ok, err}
use cloud_burst_controller.Effect.{
  get_node, list_pods_on, list_pools, update_pool_status, terminate_node, delete_node, now, Program,
  ret, call, ◌>>=◌, since, seconds, Outcome, done, requeue, fail, fail_unless_not_found,
}
use cloud_burst_controller.Drain.{cordon_node, drain_timeout, drain_node}
use cloud_burst_controller.Controller.NodeStatus.{
  Split, Found, find_pool_and_node, has_name, with_entry, without_entry, decrement, at_least_zero,
}
use cloud_burst_controller.Controller.NodeReady.{is_managed}

unfoldable pub is_daemon_set_pod : Pod → Bool
unfolding any
is_daemon_set_pod pod = any (λ kind. str_eq kind "DaemonSet") pod.owner_kinds

-- The pods that the loop of `isNodeIdle` passes over.
unfoldable pub is_ignored : Pod → Bool
unfolding is_daemon_set_pod
is_ignored pod = is_daemon_set_pod pod || str_eq pod.phase "Succeeded" || str_eq pod.phase "Failed"

unfoldable pub is_running : NodeState → Bool
is_running pending = false
is_running running = true
is_running cordoned = false
is_running draining = false
is_running terminating = false

unfoldable pub cooldown_of : BurstNodePool → Duration
cooldown_of pool =
    let configured = pool.spec.scaling.cooldown_period in
    if eqb_ℤ configured (pos 0) then seconds 300 else configured

unfoldable pub in_state : NodeState → Found → BurstNodePool
in_state state f = with_entry f (record f.split.entry { state = state })

unfoldable pub idle_since : Option Time → Found → BurstNodePool
idle_since t f = with_entry f (record f.split.entry { last_pod_finished = t })

-- The entry removed, and one active node less, but not below 0.
unfoldable pub drop_active : Found → BurstNodePool
drop_active f = record f.pool {
  status = record (without_entry f) {
    active_nodes = at_least_zero (decrement f.pool.status.active_nodes);
  };
}

-- `if err := r.Status().Update(ctx, pool); err != nil { return ctrl.Result{}, err }`, then the rest.
unfoldable pub update_then : BurstNodePool → Program Outcome → Program Outcome
update_then pool rest = call (update_pool_status pool) (elim [ err e ↦ ret (fail e) | ok _ ↦ rest ])

-- The drainer may be nil; its errors are logged.
unfoldable pub if_drainer : Bool → Program (Result Unit) → Program Outcome → Program Outcome
if_drainer drainer step rest = if drainer then (step >>= λ _. rest) else rest

-- Steps 4 and 5: delete the node object (an error is logged), remove the entry.
unfoldable pub remove_node : (name : String) → Found → Program Outcome
remove_node name f = call (delete_node name) λ _. call (update_pool_status (drop_active f)) (elim [
  | err e ↦ ret (fail (wrapped "updating pool status after teardown" e))
  | ok _ ↦ ret done
])

-- Step 3: terminate the instance.
unfoldable pub terminate : (name : String) → Found → Program Outcome
terminate name f =
    call (terminate_node f.split.entry.instance_id)
      (elim [ err e ↦ ret (fail (wrapped "terminating instance" e)) | ok _ ↦ remove_node name f ])

unfoldable pub tear_down : (drainer : Bool) → (name : String) → Found → Program Outcome
tear_down drainer name f = update_then (in_state cordoned f) (
    if_drainer drainer (cordon_node name) (
      update_then (in_state draining f) (
        if_drainer drainer (drain_node drain_timeout name)
          (update_then (in_state terminating f) (terminate name f)))))

unfoldable pub in_cooldown : Found → (idle : Duration) → Bool
in_cooldown f idle = ltb_ℤ idle (cooldown_of f.pool)

module _ (drainer : Bool) (configured_interval : Duration) where
  unfoldable pub check_interval : Duration
  check_interval = if ltb_ℤ (pos 0) configured_interval then configured_interval else seconds 60

  -- The node is idle since a known time: the clock is read again.
  unfoldable pub check_cooldown : (name : String) → Found → Time → Program Outcome
  check_cooldown name f finished = call now λ at_time.
      let idle = since at_time finished in
      if in_cooldown f idle
      then ret (requeue (int64 (cooldown_of f.pool -ℤ idle)))
      else tear_down drainer name f

  unfoldable pub handle_idle : (name : String) → Found → Program Outcome
  handle_idle name f = call now λ at_time. elim f.split.entry.last_pod_finished [
    | none ↦ update_then (idle_since (some at_time) f) (ret (requeue check_interval))
    | some finished ↦ check_cooldown name f finished
  ]

  unfoldable pub handle_running : (name : String) → Found → Program Outcome
  handle_running name f = call (list_pods_on name) (elim [
    | err e ↦ ret (fail (wrapped "checking if node is idle" e))
    | ok pods ↦
        if all is_ignored pods
        then handle_idle name f
        else update_then (idle_since none f) (ret (requeue check_interval))
  ])

  unfoldable pub handle_found : (name : String) → Option Found → Program Outcome
  handle_found name none = ret (requeue check_interval)
  handle_found name (some f) =
      if is_running f.split.entry.state then handle_running name f else ret (requeue check_interval)

  unfoldable pub reconcile : String → Program Outcome
  reconcile name = call (get_node name) (elim [
    | err e ↦ ret (fail_unless_not_found e)
    | ok node ↦
        if not (is_managed node)
        then ret done
        else call list_pools (elim [
          | err e ↦ ret (fail (wrapped "listing pools" e))
          | ok pools ↦ handle_found node.name (find_pool_and_node (has_name node.name) pools)
        ])
  ])
