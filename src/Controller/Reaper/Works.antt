-- ===== src/Controller/Reaper/Works.antt =====
-- `ReaperReconciler.Reconcile` while the services work.
use cloud_burst_controller.Common.{
  ◌≡◌, refl, String, Bool, true, false, some, List, [], ◌∷◌, ◌++◌, all,
}
use cloud_burst_controller.Kube.{Time, Duration}
use cloud_burst_controller.Api.{cordoned, draining, terminating, BurstNodePool}
use cloud_burst_controller.Errors.{Result, ok, err}
use cloud_burst_controller.Effect.{
  Request, Response, get_node, list_pools, list_pods_on, update_pool_status, delete_node,
  terminate_node, now, Program, Outcome, done, since,
}
use cloud_burst_controller.Effect.Contract.{
  Anywhere, Succeeded, requests, Trace, event, Contract, Ensures, Ensures-then, Environment, run,
  Meets, EndsWell, run-EndsWell,
}
use cloud_burst_controller.Drain.{cordon_node, drain_timeout, drain_node}
use cloud_burst_controller.Controller.NodeStatus.{
  Found, find_pool_and_node, has_name, with_entry, without_entry,
}
use cloud_burst_controller.Controller.NodeStatus.Valid.{IsFound}
use cloud_burst_controller.Controller.NodeStatus.Storing.{found_entry}
use cloud_burst_controller.Controller.NodeReady.{is_managed}
use cloud_burst_controller.Controller.Reaper.{
  is_running, is_ignored, in_state, drop_active, update_then, if_drainer, remove_node, terminate,
  tear_down, in_cooldown, check_cooldown, handle_idle, handle_running, handle_found, reconcile,
}

-- The services work: the managed node of this name is there, its entry `f` is found, running and idle
-- since `finished`, nothing runs on the node, the cooldown is over, and every change succeeds. Whether
-- the drain succeeds does not matter.
abbrev pub Works : String → Found → Time → (q : Request) → Response q → Type 0
Works name f finished (get_node key) (ok node) = (node.name ≡ name) × (is_managed node ≡ true)
Works name f finished (get_node key) (err e) = ⊥
Works name f finished list_pools (ok pools) = find_pool_and_node (has_name name) pools ≡ some f
Works name f finished list_pools (err e) = ⊥
Works name f finished (list_pods_on key) (ok pods) = all is_ignored pods ≡ true
Works name f finished (list_pods_on key) (err e) = ⊥
Works name f finished (update_pool_status pool) r = Succeeded r
Works name f finished (delete_node key) r = Succeeded r
Works name f finished (terminate_node id) r = Succeeded r
Works name f finished now t = in_cooldown f (since t finished) ≡ false
Works name f finished _ r = Unit

-- The run ended well. Its last four calls stored a status where the entry that was found is terminating
-- and the others are as before, terminated its instance, deleted the node, and stored a status with
-- exactly the other entries.
pub record TornDown (name : String) (f : Found) (tr : Trace) (o : Outcome) : Type 0 where
  pub ended : o ≡ done
  pub entry : IsFound (has_name name) f
  pub stopping : BurstNodePool
  pub gone : BurstNodePool
  pub earlier : List Request
  pub calls :
      requests tr
      ≡ update_pool_status gone
        ∷ delete_node name
        ∷ terminate_node f.split.entry.instance_id
        ∷ update_pool_status stopping
        ∷ earlier
  pub marked :
      stopping.status.nodes
      ≡ f.split.before ++ (record f.split.entry { state = terminating }) ∷ f.split.after
  pub removed : gone.status.nodes ≡ f.split.before ++ f.split.after

module _ (name : String) (f : Found) (finished : Time) where
  abbrev pub contract : Contract
  contract = record { assume = Works name f finished; promise = Anywhere }

  abbrev Ok : Trace → Program Outcome → Type 0
  Ok = Ensures contract (TornDown name f)

  update_then-Ok :
      (pool : BurstNodePool) (rest : Program Outcome) (tr : Trace)
      → ((u : Unit) → Ok (event (update_pool_status pool) (ok u) ∷ tr) rest)
      → Ok tr (update_then pool rest)
  unfolding update_then
  update_then-Ok pool rest tr h = (tt, elim [ err e ↦ λ failed. absurd failed | ok u ↦ λ _. h u ])

  marked_lem :
      (in_state terminating f).status.nodes
      ≡ f.split.before ++ (record f.split.entry { state = terminating }) ∷ f.split.after
  unfolding in_state with_entry
  marked_lem = refl

  removed_lem : (drop_active f).status.nodes ≡ f.split.before ++ f.split.after
  unfolding drop_active without_entry
  removed_lem = refl

  terminate-Ok :
      (found : IsFound (has_name name) f) (tr : Trace) (u : Unit)
      → Ok (event (update_pool_status (in_state terminating f)) (ok u) ∷ tr) (terminate name f)
  unfolding terminate remove_node
  terminate-Ok found tr u = (
    tt,
    elim [
      | err e ↦ λ failed. absurd failed
      | ok u' ↦ λ _. (
        tt,
        λ r _. (
          tt,
          elim [
            | err e ↦ λ failed. absurd failed
            | ok u'' ↦ λ _. record {
              ended = refl;
              entry = found;
              stopping = in_state terminating f;
              gone = drop_active f;
              earlier = requests tr;
              calls = refl;
              marked = marked_lem;
              removed = removed_lem;
            }
          ],
        ),
      )
    ],
  )

  -- Whatever a step of the drainer does, the rest goes on.
  if_drainer-Ok :
      (drainer : Bool) (step : Program (Result Unit)) (rest : Program Outcome) (tr : Trace)
      → ((tr' : Trace) → Ensures contract (λ tr'' r. Unit) tr' step)
      → ((tr' : Trace) → Ok tr' rest)
      → Ok tr (if_drainer drainer step rest)
  unfolding if_drainer
  if_drainer-Ok true step rest tr h k =
      Ensures-then contract (λ tr' r. Unit) (TornDown name f) tr step (λ _. rest) (h tr)
        (λ tr' r _. k tr')
  if_drainer-Ok false step rest tr h k = k tr

  cordon_node-Ok : (tr : Trace) → Ensures contract (λ tr' r. Unit) tr (cordon_node name)
  unfolding cordon_node
  cordon_node-Ok tr = (tt, elim [ err e ↦ λ _. tt | ok node ↦ λ _. (tt, λ r _. tt) ])

  drain_node-Ok : (tr : Trace) → Ensures contract (λ tr' r. Unit) tr (drain_node drain_timeout name)
  unfolding drain_node
  drain_node-Ok tr = (tt, elim [ err e ↦ λ _. tt | ok u ↦ λ _. tt ])

  tear_down-Ok :
      (found : IsFound (has_name name) f) (drainer : Bool) (tr : Trace)
      → Ok tr (tear_down drainer name f)
  unfolding tear_down
  tear_down-Ok found drainer tr = update_then-Ok (in_state cordoned f) _ tr (λ u.
      if_drainer-Ok drainer (cordon_node name) _ _ cordon_node-Ok (λ tr'.
        update_then-Ok (in_state draining f) _ tr' (λ u'.
          if_drainer-Ok drainer (drain_node drain_timeout name) _ _ drain_node-Ok (λ tr''.
            update_then-Ok (in_state terminating f) _ tr'' (λ u''. terminate-Ok found tr'' u'')))))

  module _ (drainer : Bool) (interval : Duration) (runs : is_running f.split.entry.state ≡ true)
      (idle : f.split.entry.last_pod_finished ≡ some finished) where
    handle_found-Ok :
        (found : IsFound (has_name name) f) (tr : Trace)
        → Ok tr (handle_found drainer interval name (some f))
    unfolding handle_found handle_running handle_idle check_cooldown
    handle_found-Ok found tr =
        rw (handle_found, runs)
          (
            tt,
            elim [
              | err e ↦ λ failed. absurd failed
              | ok pods ↦ λ ignored.
                  rw ignored
                    (tt, λ t _. rw idle (tt, λ t' over. rw over (tear_down-Ok found drainer _)))
            ],
          )

    found-Ok :
        (tr : Trace) (node_name : String) (pools : List BurstNodePool)
        → node_name ≡ name
        → find_pool_and_node (has_name name) pools ≡ some f
        → Ok tr (
            handle_found drainer interval node_name (find_pool_and_node (has_name node_name) pools))
    found-Ok tr node_name pools named found =
        rw (named, found) (handle_found-Ok (found_entry (has_name name) pools f found) tr)

    reconcile-Ok : Ok [] (reconcile drainer interval name)
    unfolding reconcile
    reconcile-Ok = (
      tt,
      elim [
        | err e ↦ λ failed. absurd failed
        | ok node ↦ λ (named, managed). rw managed (
          tt,
          elim [
            | err e ↦ λ failed. absurd failed
            | ok pools ↦ λ found. found-Ok _ node.name pools named found
          ],
        )
      ],
    )

    -- For a running entry with an idle time, in every environment where the services work, the node
    -- is idle and the cooldown is over, one run of `Reconcile` tears the node down: it returns with no
    -- error and nothing to do later, and its last four calls store a status where this entry is
    -- terminating and the others are as they were, terminate its instance, delete the node, and store a
    -- status with exactly the other entries, in this order.
    pub reconcile_tears_down :
        (env : Environment) (s : env.State)
        → Meets env contract
        → EndsWell contract (TornDown name f) (run env s [] (reconcile drainer interval name))
    reconcile_tears_down env s assumed =
        run-EndsWell contract env assumed (TornDown name f) s [] (reconcile drainer interval name)
          tt reconcile-Ok
