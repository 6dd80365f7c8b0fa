-- ===== src/Examples/Runs.antt =====
-- Each reconciler run in the cluster.
use cloud_burst_controller.Common.{true, arith, ◌≢◌, []}
use cloud_burst_controller.Kube.{NamespacedName}
use cloud_burst_controller.Api.{running, terminating}
use cloud_burst_controller.Effect.{list_pods, get_pool, list_pools, seconds}
use cloud_burst_controller.Effect.Contract.{run, Meets, EndsWell}
use cloud_burst_controller.Controller.Reaper
use cloud_burst_controller.Controller.Reaper.Runs.{reaper-EndsWell}
use cloud_burst_controller.Controller.Reaper.Teardown.{Anything}
use cloud_burst_controller.Controller.Orphan
use cloud_burst_controller.Controller.Orphan.Runs.{orphan-EndsWell}
use cloud_burst_controller.Controller.NodeReady
use cloud_burst_controller.Controller.NodeReady.Runs.{node_ready-EndsWell}
use cloud_burst_controller.Controller.Provisioner
use cloud_burst_controller.Controller.Provisioner.Runs.{provisioner-EndsWell}
use cloud_burst_controller.Examples.{
  running_pool, running_pool-IsValid, pending_pool, pending_pool-IsValid, pool_sorter, type_sorter,
  plain_yaml, cluster,
}

abbrev pod_key : NamespacedName
pod_key = record { namespace = "default"; name = "job" }

reaper_meets : Meets (cluster running_pool "True") (Reaper.Promise.contract true)
reaper_meets s list_pools = (running_pool-IsValid, tt)
reaper_meets s _ = tt

-- The idle node is torn down.
reaper-EndsWell_example :
    EndsWell
      (Reaper.Promise.contract true)
      Anything
      (run (cluster running_pool "True") tt [] (Reaper.reconcile true (seconds 30) "burst-a"))
reaper-EndsWell_example =
    reaper-EndsWell true (seconds 30) "burst-a" (cluster running_pool "True") tt reaper_meets

node_ready_meets : Meets (cluster pending_pool "False") (NodeReady.Safe.contract "burst-a")
node_ready_meets s list_pools = (pending_pool-IsValid, tt)
node_ready_meets s _ = tt

-- The pending node is not ready after an hour, and is given up.
node_ready-EndsWell_example :
    EndsWell
      (NodeReady.Safe.contract "burst-a")
      Anything
      (run (cluster pending_pool "False") tt [] (NodeReady.reconcile "burst-a"))
node_ready-EndsWell_example =
    node_ready-EndsWell "burst-a" (cluster pending_pool "False") tt node_ready_meets

settled : running ≢ terminating
settled e = cc e

orphan_meets :
    Meets
      (cluster running_pool "True")
      (Orphan.Safe.contract (Orphan.boot_timeout (seconds 60) (seconds 600)))
orphan_meets s list_pools = (record { valid = running_pool-IsValid; settled = (settled, tt) }, tt)
orphan_meets s _ = tt

-- The instance without a node is terminated, and the node without an instance deleted.
orphan-EndsWell_example :
    EndsWell
      (Orphan.Safe.contract (Orphan.boot_timeout (seconds 60) (seconds 600)))
      Anything
      (run (cluster running_pool "True") tt [] (Orphan.reconcile (seconds 60) (seconds 600)))
orphan-EndsWell_example =
    orphan-EndsWell (seconds 60) (seconds 600) (cluster running_pool "True") tt orphan_meets

provisioner_meets : Meets (cluster running_pool "True") Provisioner.Promise.contract
provisioner_meets s (get_pool key) =
    (running_pool-IsValid, record { below = omega arith; above = omega arith })
provisioner_meets s list_pods = omega arith
provisioner_meets s _ = tt

-- One node is launched for the waiting pod.
provisioner-EndsWell_example : EndsWell Provisioner.Promise.contract Anything (
    run
      (cluster running_pool "True")
      tt
      []
      (Provisioner.reconcile plain_yaml pool_sorter type_sorter (seconds 30) pod_key))
provisioner-EndsWell_example =
    provisioner-EndsWell plain_yaml pool_sorter type_sorter (seconds 30) pod_key
      (cluster running_pool "True") tt provisioner_meets
