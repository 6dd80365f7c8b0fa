-- ===== src/Manager.antt =====
-- cmd/main.go: the calls that set up the controllers and start the manager, with those of the SetupWithManager functions of internal/controller
-- and of the `init` functions before `main`. The libraries that answer these calls are a parameter.
pub mod Options
pub mod Required
pub mod Started
use cloud_burst_controller.Common.{
  ℕ, ℤ, pos, String, Bool, true, false, not, List, [], ◌∷◌, ◌++◌, str_eq, if◌then◌else◌,
}
use cloud_burst_controller.Kube.{Duration, Pod, Node}
use cloud_burst_controller.Manager.Options.{Flags, ManagerOptions, manager_options}
use cloud_burst_controller.Api.Scheme.{SchemeTypes, burst_types}
use cloud_burst_controller.Metrics.{Collector, collectors}
use cloud_burst_controller.Controller.Orphan
use cloud_burst_controller.Controller.Watch.{
  WatchEvent, provisioner_filter, node_ready_filter, reaper_filter, node_name_index,
}
use cloud_burst_controller.Effect.{seconds}

-- The fields of a reconciler, a field that is not set being 0; the clients that all are given are left out.
pub data Reconciler : Type 0 where
  provisioner : (debounce_period : Duration) → Reconciler
  node_ready : Reconciler
  reaper : (drainer : Bool) (check_interval : Duration) → Reconciler
  orphan : (check_interval boot_timeout : Duration) → Reconciler

-- `register_collectors` and the two calls after it are made by the `init` functions; `get_config` is
-- `ctrl.GetConfigOrDie`; `watch_pods` and `watch_nodes` complete a controller of that name with its event
-- filter, and `add_runner` is `mgr.Add` of an `orphanRunner` with its interval.
pub data SetupCall : Type 0 where
  register_collectors : List Collector → SetupCall
  add_client_types : SetupCall
  add_burst_types : SchemeTypes → SetupCall
  get_config : SetupCall
  new_manager : ManagerOptions → SetupCall
  new_cloud_provider : SetupCall
  new_clientset : SetupCall
  index_pods : (field : String) → (Pod → List String) → SetupCall
  watch_pods : (name : String) → (WatchEvent Pod → Bool) → Reconciler → SetupCall
  watch_nodes : (name : String) → (WatchEvent Node → Bool) → Reconciler → SetupCall
  add_runner : Reconciler → Duration → SetupCall
  add_check : String → SetupCall
  start_manager : SetupCall

unfoldable pub reconcilers : Flags → List Reconciler
reconcilers flags =
    provisioner flags.debounce_period
    ∷ node_ready
    ∷ reaper true flags.reaper_check_interval
    ∷ orphan flags.orphan_check_interval (pos 0)
    ∷ []

-- SetupWithManager of each.
abbrev pub provisioner_calls : Duration → List SetupCall
provisioner_calls period = watch_pods "provisioner" provisioner_filter (provisioner period) ∷ []

abbrev pub node_ready_calls : List SetupCall
node_ready_calls = watch_nodes "nodeready" node_ready_filter node_ready ∷ []

abbrev pub reaper_calls : Bool → Duration → List SetupCall
reaper_calls drainer interval =
    index_pods "spec.nodeName" node_name_index
    ∷ watch_nodes "reaper" reaper_filter (reaper drainer interval)
    ∷ []

abbrev pub orphan_calls : (interval timeout : Duration) → List SetupCall
orphan_calls interval timeout =
    add_runner (orphan interval timeout) (Orphan.check_interval interval timeout) ∷ []

abbrev pub controller_calls : Reconciler → List SetupCall
controller_calls (provisioner period) = provisioner_calls period
controller_calls node_ready = node_ready_calls
controller_calls (reaper drainer interval) = reaper_calls drainer interval
controller_calls (orphan interval timeout) = orphan_calls interval timeout

abbrev pub set_up_all : List Reconciler → List SetupCall → List SetupCall
set_up_all [] rest = rest
set_up_all (r ∷ rs) rest = controller_calls r ++ set_up_all rs rest

-- The `init` functions of internal/metrics and of cmd/main.go.
abbrev pub init_calls : List SetupCall
init_calls = register_collectors collectors ∷ add_client_types ∷ add_burst_types burst_types ∷ []

-- What they call, and then `main` while nothing fails, in order.
unfoldable pub setup_calls : Flags → List SetupCall
unfolding manager_options reconcilers
setup_calls flags =
    init_calls
    ++ get_config
      ∷ new_manager (manager_options flags)
      ∷ new_cloud_provider
      ∷ new_clientset
      ∷ set_up_all (reconcilers flags)
          (add_check "healthz" ∷ add_check "readyz" ∷ start_manager ∷ [])

-- The `Must` functions panic, by which the process ends with code 2; after the others `main` calls
-- `os.Exit(1)`, as GetConfigOrDie does.
unfoldable pub failure_code : SetupCall → ℕ
failure_code (register_collectors cs) = 2
failure_code add_client_types = 2
failure_code (add_burst_types types) = 2
failure_code _ = 1

-- Whether a call succeeds.
pub record Libraries : Type 1 where
  pub State : Type 0
  pub respond : State → SetupCall → Bool × State

-- The calls that were made, and the exit code.
pub record Exit : Type 0 where
  pub calls : List SetupCall
  pub code : ℕ

-- Each call but the last is followed by the next if it succeeds, and by the end of the process if it
-- fails.
module _ (libraries : Libraries) where
  open libraries use {State, respond}

  unfoldable pub run_calls : State → List SetupCall → Exit
  run_calls s [] = record { calls = []; code = 0 }
  run_calls s (c ∷ cs) =
      let (good, s') = respond s c in
      let rest = run_calls s' cs in
      if good
      then record { calls = c ∷ rest.calls; code = rest.code }
      else record { calls = c ∷ []; code = failure_code c }

  unfoldable pub main : State → Flags → Exit
  unfolding setup_calls
  main s flags = run_calls s (setup_calls flags)
