-- ===== src/Controller/NodeReady/Works.antt =====
-- `NodeReadyReconciler.Reconcile` for a pending node, while the services work.
use cloud_burst_controller.Api.{running, BurstNodePool}
use cloud_burst_controller.Controller.NodeStatus.Valid.{IsValid, IsFound}
use cloud_burst_controller.Controller.NodeStatus.Storing.{found_entry}
use cloud_burst_controller.Controller.NodeReady.Safe.{
  mark_running-IsCountedBy, drop_pending-IsCountedBy,
}
use cloud_burst_controller.Common.{
  List, ◌++◌, ◌<ℤ◌, ◌≤ℤ◌, ltb_ℤ, ltb_ℤ→lt, ltb_ℤ→le, false, Bool-cases, ◌≡◌, refl, ap, ◌∙◌, inl,
  inr, String, true, some, [], ◌∷◌, lookup, copy_into,
}
use cloud_burst_controller.Common.Overlay.{UniqueKeys, or_else, lookup-copy_into}
use cloud_burst_controller.Kube.{Time, TextMap, Node}
use cloud_burst_controller.Errors.{ok, err}
use cloud_burst_controller.Effect.{
  Request, Response, get_node, list_pools, update_node, update_pool_status, terminate_node, now,
  Outcome, Program, done, requeue, seconds, since,
}
use cloud_burst_controller.Effect.Contract.{
  Anywhere, event, requests, Succeeded, Trace, Happened, Contract, Ensures, Environment, run, Meets,
  EndsWell, run-EndsWell,
}
use cloud_burst_controller.Controller.NodeStatus.{
  Found, find_pool_and_node, with_entry, without_entry,
}
use cloud_burst_controller.Controller.NodeReady.{
  boot_timeout, is_node_ready, is_pending_entry, mark_running, become_ready, store_status,
  drop_pending, is_past_boot_timeout, is_burst_node, check_boot_timeout, handle_entry, reconcile,
}

-- The services work: the node is found as it is, its pending entry `f` is found, and the status can be
-- stored. Whether the labels can be stored, and the instance terminated, does not matter.
abbrev pub Works : Node → Found → (q : Request) → Response q → Type 0
Works node f (get_node name) (ok n) = n ≡ node
Works node f (get_node name) (err e) = ⊥
Works node f list_pools (ok pools) = find_pool_and_node (is_pending_entry node.name) pools ≡ some f
Works node f list_pools (err e) = ⊥
Works node f (update_pool_status pool) r = Succeeded r
Works node f _ r = Unit

abbrev pub works_contract : Node → Found → Contract
works_contract node f = record { assume = Works node f; promise = Anywhere }

-- The node that is stored has the labels of the pool over its own.
pub record Labelled (node : Node) (labels : TextMap) (stored : Node) : Type 0 where
  pub name : stored.name ≡ node.name
  pub unschedulable : stored.unschedulable ≡ node.unschedulable
  pub at_key :
      (k : String) → lookup k stored.labels ≡ or_else (lookup k labels) (lookup k node.labels)

-- The found entry is running since this time, the other entries are as before, and the counters are the
-- numbers of the entries again.
pub record RunsSince (f : Found) (at_time : Time) (stored : BurstNodePool) : Type 0 where
  pub nodes :
      stored.status.nodes
      ≡ f.split.before
        ++ (record f.split.entry { state = running; ready_at = some at_time }) ∷ f.split.after
  pub valid : IsValid stored.status

-- Exactly the other entries are left, and the counters are their numbers.
pub record LeavesOut (f : Found) (stored : BurstNodePool) : Type 0 where
  pub nodes : stored.status.nodes ≡ f.split.before ++ f.split.after
  pub valid : IsValid stored.status

-- How a run ends for a pending entry: each case with all calls of the run, the latest first.
pub data Settled (name : String) (node : Node) (f : Found) (tr : Trace) (o : Outcome) : Type 0 where
  made_ready :
      (at_time : Time) (stored_node : Node) (stored : BurstNodePool)
      → is_node_ready node ≡ true
      → o ≡ done
      → Labelled node f.pool.spec.node_labels stored_node
      → RunsSince f at_time stored
      → Happened (λ e. e ≡ event now at_time) tr
      → requests tr
        ≡ update_pool_status stored
          ∷ update_node stored_node
          ∷ now
          ∷ list_pools
          ∷ get_node name
          ∷ []
      → Settled name node f tr o
  given_up :
      (at_time : Time) (stored : BurstNodePool)
      → is_node_ready node ≡ false
      → o ≡ done
      → boot_timeout f.pool <ℤ since at_time f.split.entry.launched_at
      → LeavesOut f stored
      → Happened (λ e. e ≡ event now at_time) tr
      → requests tr
        ≡ update_pool_status stored
          ∷ terminate_node f.split.entry.instance_id
          ∷ now
          ∷ list_pools
          ∷ get_node name
          ∷ []
      → Settled name node f tr o
  waits :
      (at_time : Time)
      → is_node_ready node ≡ false
      → o ≡ requeue (seconds 15)
      → since at_time f.split.entry.launched_at ≤ℤ boot_timeout f.pool
      → Happened (λ e. e ≡ event now at_time) tr
      → requests tr ≡ now ∷ list_pools ∷ get_node name ∷ []
      → Settled name node f tr o

module _ (name : String) (node : Node) (f : Found) (burst : is_burst_node node ≡ true)
    (unique : UniqueKeys f.pool.spec.node_labels) (valid : IsValid f.pool.status) where
  abbrev Start : Trace → Type 0
  Start tr = requests tr ≡ list_pools ∷ get_node name ∷ []

  abbrev Ok : Trace → Program Outcome → Type 0
  Ok = Ensures (works_contract node f) (Settled name node f)

  labelled_lem :
      Labelled node f.pool.spec.node_labels
        (record node { labels = copy_into node.labels f.pool.spec.node_labels })
  labelled_lem = record {
    name = refl;
    unschedulable = refl;
    at_key = λ k. lookup-copy_into k node.labels f.pool.spec.node_labels unique;
  }

  module _ (found : IsFound (is_pending_entry node.name) f) where
    mark_running_nodes :
        (t : Time)
        → (mark_running f t).status.nodes
          ≡ f.split.before
            ++ (record f.split.entry { state = running; ready_at = some t }) ∷ f.split.after
    unfolding mark_running with_entry
    mark_running_nodes t = refl

    drop_pending_nodes : (drop_pending f).status.nodes ≡ f.split.before ++ f.split.after
    unfolding drop_pending without_entry
    drop_pending_nodes = refl

    mark_running-RunsSince : (t : Time) → RunsSince f t (mark_running f t)
    mark_running-RunsSince t = record {
      nodes = mark_running_nodes t;
      valid = mark_running-IsCountedBy node.name f found valid t;
    }

    drop_pending-LeavesOut : LeavesOut f (drop_pending f)
    drop_pending-LeavesOut = record {
      nodes = drop_pending_nodes;
      valid = drop_pending-IsCountedBy node.name f found valid;
    }

    become_ready-Ok :
        (tr : Trace) → Start tr → is_node_ready node ≡ true → Ok tr (become_ready node f)
    unfolding become_ready store_status
    become_ready-Ok tr before ready = (
      tt,
      λ t _. (
        tt,
        λ r _. (
          tt,
          elim [
            | err e ↦ λ failed. absurd failed
            | ok u ↦ λ _.
                made_ready t _ _ ready refl labelled_lem (mark_running-RunsSince t)
                  (inr (inr (inl refl)))
                  (ap
                    (λ qs.
                      update_pool_status (mark_running f t)
                      ∷ update_node
                          (record node { labels = copy_into node.labels f.pool.spec.node_labels })
                      ∷ now
                      ∷ qs)
                    before)
          ],
        ),
      ),
    )

    check_boot_timeout-Ok :
        (tr : Trace) → Start tr → is_node_ready node ≡ false → Ok tr (check_boot_timeout f)
    unfolding check_boot_timeout store_status is_past_boot_timeout
    check_boot_timeout-Ok tr before unready = (
      tt,
      λ t _. elim (Bool-cases (ltb_ℤ (boot_timeout f.pool) (since t f.split.entry.launched_at))) [
        | inl late ↦ rw late (
          tt,
          λ r _. (
            tt,
            elim [
              | err e ↦ λ failed. absurd failed
              | ok u ↦ λ _.
                  given_up t _ unready refl
                    (ltb_ℤ→lt (boot_timeout f.pool) (since t f.split.entry.launched_at) late)
                    drop_pending-LeavesOut (inr (inr (inl refl)))
                    (ap
                      (λ qs.
                        update_pool_status (drop_pending f)
                        ∷ terminate_node f.split.entry.instance_id
                        ∷ now
                        ∷ qs)
                      before)
            ],
          ),
        )
        | inr early ↦ rw early (
            waits t unready refl
              (ltb_ℤ→le (boot_timeout f.pool) (since t f.split.entry.launched_at) early) (inl refl)
              (ap (λ qs. now ∷ qs) before))
      ],
    )

    handle_entry-Ok : (tr : Trace) → Start tr → Ok tr (handle_entry node (some f))
    unfolding handle_entry
    handle_entry-Ok tr before = elim (Bool-cases (is_node_ready node)) [
      | inl ready ↦ rw ready (become_ready-Ok tr before ready)
      | inr unready ↦ rw unready (check_boot_timeout-Ok tr before unready)
    ]

  found-Ok :
      (n : Node) (pools : List BurstNodePool) (tr : Trace)
      → n ≡ node
      → Start tr
      → find_pool_and_node (is_pending_entry node.name) pools ≡ some f
      → Ok tr (handle_entry n (find_pool_and_node (is_pending_entry n.name) pools))
  found-Ok n pools tr same before found =
      rw (same, found)
        (handle_entry-Ok (found_entry (is_pending_entry node.name) pools f found) tr before)

  reconcile-Ok : Ok [] (reconcile name)
  unfolding reconcile
  reconcile-Ok = (
    tt,
    elim [
      | err e ↦ λ failed. absurd failed
      | ok n ↦ λ same. rw (ap is_burst_node same ∙ burst) (
        tt,
        elim [
          | err e ↦ λ failed. absurd failed
          | ok pools ↦ λ found. found-Ok n pools _ same refl found
        ],
      )
    ],
  )

  -- For a burst node with a pending entry in a pool with a valid status, in every environment where the
  -- node and the pools are read and the status is stored, a run of `Reconcile` ends in one of three
  -- ways. A node that is ready is stored with exactly the labels of the pool put over its own, and then a
  -- status where this entry is running since the time on the clock and the others are as they were.
  -- For a node that is not ready past the boot timeout, the termination of the instance is asked for, and
  -- then, whether or not that succeeded, a status with exactly the other entries is stored. Else
  -- nothing is stored or terminated, and the next run is asked for after 15 seconds. In the first
  -- two it returns with no error and nothing to do later, and the stored status counts its entries.
  -- Nothing else that changes state is called. The labels of the pool have each key once.
  pub reconcile_settles :
      (env : Environment) (s : env.State)
      → Meets env (works_contract node f)
      → EndsWell (works_contract node f) (Settled name node f) (run env s [] (reconcile name))
  reconcile_settles env s assumed =
      run-EndsWell (works_contract node f) env assumed (Settled name node f) s [] (reconcile name)
        tt reconcile-Ok
