-- ===== src/Examples/Events.antt =====
-- The events of the cluster, the loop of the orphan check, and the reconcilers side by side.
use cloud_burst_controller.Common.{
  all, ◌↔◌, ◌≢◌, ◌⊎◌, ◌≡◌, refl, pos, true, false, [], ◌∷◌, All, arith, IsInt32, text_at, lookup,
}
use cloud_burst_controller.Kube.{Node, Pod}
use cloud_burst_controller.Controller.Reaper.{is_ignored}
use cloud_burst_controller.Controller.Watch.Idle.{on_node, Ignorable, on_node-Says}
use cloud_burst_controller.Api.{BurstNodePool}
use cloud_burst_controller.Errors.{ok, err, message}
use cloud_burst_controller.Effect.{
  list_pools, get_node, get_pool, list_pods, seconds, Program, ret, Outcome, fail_unless_not_found,
  Request, Response,
}
use cloud_burst_controller.Effect.Contract.{any_answer, Environment, run, Meets, EndsWell, event}
use cloud_burst_controller.Controller.NodeReady.{is_managed}
use cloud_burst_controller.Controller.Reaper
use cloud_burst_controller.Controller.Watch
use cloud_burst_controller.Controller.Watch.{updated, reaper_filter}
use cloud_burst_controller.Controller.Watch.Dropped
use cloud_burst_controller.Controller.Watch.Dropped.{reaper_filter-drops}
use cloud_burst_controller.Controller.Orphan
use cloud_burst_controller.Controller.Orphan.Sweep
use cloud_burst_controller.Controller.Orphan.Sweep.{reconcile_sweeps}
use cloud_burst_controller.Controller.Orphan.Runner
use cloud_burst_controller.Controller.Orphan.Runner.{stop, tick, start-runs}
use cloud_burst_controller.System
use cloud_burst_controller.System.Safety
use cloud_burst_controller.Controller.NodeStatus.Storing.{Anything}
use cloud_burst_controller.System.LifeCycle.{program_of-Refines}
use cloud_burst_controller.System.{
  Config, Thread, Step, State, Reaches, here, next, create, spawn, advance, restart, reap, initial,
  stores, on_event, check_orphans,
}
use cloud_burst_controller.System.Sound.{IsSound}
use cloud_burst_controller.System.Safety.{Reaches-IsSound, Reaches-IsCounted}
use cloud_burst_controller.Examples.{
  running_pool, running_pool-IsValid, waiting_pod, pool_with, plain_yaml, pool_sorter, type_sorter,
  answer, cluster,
}

-- A node that is not one of the controller's.
abbrev home_node : Node
home_node = record { name = "home-1"; labels = []; unschedulable = false; conditions = [] }

abbrev home_answer : (q : Request) → Response q
home_answer (get_node name) = ok home_node
home_answer q = answer running_pool "True" q

abbrev home : Environment
home = record { State = Unit; respond = λ s q. (home_answer q, s) }

home_meets : Meets home (Watch.Dropped.node_contract home_node)
home_meets s (get_node name) = refl
home_meets s _ = tt

home_dropped : reaper_filter (updated home_node home_node) ≡ false
unfolding reaper_filter is_managed text_at lookup
home_dropped = refl

reaper_filter-drops_example :
    EndsWell
      (Watch.Dropped.node_contract home_node)
      Watch.Dropped.Done
      (run home tt [] (Reaper.reconcile true (seconds 30) "home-1"))
reaper_filter-drops_example =
    reaper_filter-drops home_node home_node home_dropped true (seconds 30) "home-1" home tt
      home_meets

on_node-Says_example :
    all is_ignored (on_node "burst-a" (waiting_pod ∷ [])) ≡ true
    ↔ All (λ (pod : Pod). (pod.node_name ≢ "burst-a") ⊎ Ignorable pod) (waiting_pod ∷ [])
on_node-Says_example = on_node-Says "burst-a" (waiting_pod ∷ []) (λ e. cc e)

reconcile_sweeps_example :
    EndsWell any_answer
      (Orphan.Sweep.Swept (seconds 60) (seconds 600))
      (run (cluster running_pool "True") tt [] (Orphan.reconcile (seconds 60) (seconds 600)))
reconcile_sweeps_example =
    reconcile_sweeps (seconds 60) (seconds 600) (cluster running_pool "True") tt

-- Two ticks, and the end.
start-runs_example :
    EndsWell any_answer
      (λ tr u. Orphan.Runner.runs tr ≡ 3)
      (run
        (cluster running_pool "True")
        tt
        []
        (Orphan.Runner.start (seconds 60) (seconds 600) (tick ∷ tick ∷ stop ∷ [])))
start-runs_example =
    start-runs (seconds 60) (seconds 600) (tick ∷ tick ∷ stop ∷ []) (cluster running_pool "True") tt

abbrev pub setup : Config
setup = record {
  yaml = plain_yaml;
  sort_pools = pool_sorter;
  sort_types = type_sorter;
  debounce_period = seconds 30;
  drainer = true;
  reaper_interval = seconds 60;
  orphan_check_interval = seconds 300;
  orphan_boot_timeout = seconds 600;
}

abbrev pub empty_pool : BurstNodePool
empty_pool = pool_with "a" (pos 0) (pos 0) []

abbrev pub history : System.History
history = System.store_next initial.history (empty_pool ∷ [])

abbrev reaper_program : Program Outcome
reaper_program = System.program_of setup (reap "burst-a")

abbrev two_threads : State
two_threads = record {
  history = history;
  threads = System.thread [] reaper_program ∷ System.thread [] reaper_program ∷ [];
}

pub max_IsInt32 : IsInt32 empty_pool.spec.scaling.max_nodes
max_IsInt32 = record { below = omega arith; above = omega arith }

two_events : Reaches (System.program_of setup) initial two_threads
two_events =
    next
      (next (next here (create empty_pool max_IsInt32 (refl, refl, refl) refl))
        (spawn (reap "burst-a") refl))
      (spawn (reap "burst-a") refl)

-- The second one could not read its node.
abbrev one_failed : State
one_failed = record {
  history = history;
  threads =
      System.thread [] reaper_program
      ∷ System.thread (event (get_node "burst-a") (err (message "timeout")) ∷ [])
          (ret (fail_unless_not_found (message "timeout")))
      ∷ [];
}

failed_read : Step (System.program_of setup) two_threads one_failed
unfolding System.program_of Reaper.reconcile
failed_read =
    advance history (System.thread [] reaper_program ∷ []) [] [] (get_node "burst-a") _
      (err (message "timeout")) refl tt refl refl

Reaches-IsSound_example :
    All (All IsSound) (stores history)
    × All (λ (th : Thread). System.Safety.NotPanicked th.rest) one_failed.threads
Reaches-IsSound_example = Reaches-IsSound setup one_failed (next two_events failed_read)

running_IsInt32 : IsInt32 running_pool.spec.scaling.max_nodes
running_IsInt32 = record { below = omega arith; above = omega arith }

life_meets : Meets (cluster running_pool "True") System.LifeCycle.contract
life_meets s list_pools = ((running_pool-IsValid, running_IsInt32), tt)
life_meets s (get_pool key) = (running_pool-IsValid, running_IsInt32)
life_meets s list_pods = omega arith
life_meets s _ = tt

program_of-Refines_example :
    EndsWell System.LifeCycle.contract Anything
      (run (cluster running_pool "True") tt [] (System.program_of setup (reap "burst-a")))
program_of-Refines_example =
    program_of-Refines setup (reap "burst-a") (cluster running_pool "True") tt life_meets
