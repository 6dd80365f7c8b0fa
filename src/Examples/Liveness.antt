-- ===== src/Examples/Liveness.antt =====
-- The reconcilers of the cluster while everything works.
use cloud_burst_controller.Common.{
  pos, none, String, arith, ◌∷◌, ◌≡◌, refl, true, [], lookup, all, text_at,
}
use cloud_burst_controller.Common.Overlay.{UniqueKeys}
use cloud_burst_controller.Api.{running, pending, BurstNodeStatus, BurstNodePool}
use cloud_burst_controller.Effect.{list_pools, list_pods_on, get_node, now, seconds, since}
use cloud_burst_controller.Effect.Contract.{run, Meets, EndsWell}
use cloud_burst_controller.Controller.NodeStatus.{Found, find_pool_and_node, find_node, has_name}
use cloud_burst_controller.Controller.NodeReady
use cloud_burst_controller.Controller.NodeReady.{is_managed}
use cloud_burst_controller.Controller.NodeReady.Works.{reconcile_settles}
use cloud_burst_controller.Controller.NodeStatus.Valid.{IsValid, weigh}
use cloud_burst_controller.Controller.Reaper
use cloud_burst_controller.Controller.Reaper.Works
use cloud_burst_controller.Controller.Reaper.Works.{reconcile_tears_down}
use cloud_burst_controller.Controller.Reaper.Decides
use cloud_burst_controller.Examples.{
  pool_with, running_pool, pending_pool, entry_in, burst_node, cluster,
}

abbrev idle_found : Found
idle_found = record {
  pool = running_pool;
  split = record { before = []; entry = entry_in running; after = [] };
}

idle_meets : Meets (cluster running_pool "True") (Reaper.Works.contract "burst-a" idle_found 0)
unfolding is_managed text_at lookup find_pool_and_node find_node has_name all Reaper.in_cooldown
    Reaper.cooldown_of since
idle_meets s (get_node key) = (refl, refl)
idle_meets s list_pools = refl
idle_meets s (list_pods_on key) = refl
idle_meets s now = refl
idle_meets s _ = tt

idle_runs : Reaper.is_running idle_found.split.entry.state ≡ true
unfolding Reaper.is_running
idle_runs = refl

reconcile_tears_down_example :
    EndsWell
      (Reaper.Works.contract "burst-a" idle_found 0)
      (Reaper.Works.TornDown "burst-a" idle_found)
      (run (cluster running_pool "True") tt [] (Reaper.reconcile true (seconds 30) "burst-a"))
reconcile_tears_down_example =
    reconcile_tears_down "burst-a" idle_found 0 true (seconds 30) idle_runs refl
      (cluster running_pool "True") tt idle_meets

-- A pool with a label for its nodes.
abbrev labelled_pool : BurstNodePool
labelled_pool = record pending_pool {
  spec = record pending_pool.spec { node_labels = ("zone", "cloud") ∷ [] };
}

abbrev pending_found : Found
pending_found = record {
  pool = labelled_pool;
  split = record { before = []; entry = entry_in pending; after = [] };
}

is_burst : (is_ready : String) → NodeReady.is_burst_node (burst_node is_ready) ≡ true
unfolding NodeReady.is_burst_node is_managed text_at lookup
is_burst is_ready = refl

one_label : UniqueKeys labelled_pool.spec.node_labels
unfolding lookup
one_label = (refl, tt)

ready_meets :
    Meets
      (cluster labelled_pool "True")
      (NodeReady.Works.works_contract (burst_node "True") pending_found)
unfolding find_pool_and_node find_node has_name NodeReady.is_pending_entry
ready_meets s (get_node key) = refl
ready_meets s list_pools = refl
ready_meets s _ = tt

labelled_pool-IsValid : IsValid labelled_pool.status
unfolding weigh
labelled_pool-IsValid = record {
  pending_counted = refl;
  active_counted = refl;
  in_range = omega arith;
}

reconcile_settles_example :
    EndsWell
      (NodeReady.Works.works_contract (burst_node "True") pending_found)
      (NodeReady.Works.Settled "burst-a" (burst_node "True") pending_found)
      (run (cluster labelled_pool "True") tt [] (NodeReady.reconcile "burst-a"))
reconcile_settles_example =
    reconcile_settles "burst-a" (burst_node "True") pending_found (is_burst "True") one_label
      labelled_pool-IsValid (cluster labelled_pool "True") tt ready_meets

-- A node that was not seen idle before.
abbrev fresh_entry : BurstNodeStatus
fresh_entry = record (entry_in running) { last_pod_finished = none }

abbrev fresh_found : Found
fresh_found = record {
  pool = pool_with "a" (pos 1) (pos 0) (fresh_entry ∷ []);
  split = record { before = []; entry = fresh_entry; after = [] };
}
