-- ===== src/System.antt =====
-- The reconcilers (internal/controller: `ProvisionerReconciler`, `NodeReadyReconciler` and
-- `ReaperReconciler`, which react to events, and `OrphanReconciler`, which a timer starts), running at
-- the same time over the pools that the API server stores. Between two calls of one any number of calls of the others may come. A read may be
-- stale, as through a cache; an update that fails may have been stored or not; the server stores
-- the status of an update, and leaves the specification; users create pools and change
-- specifications; and the process may restart.
pub mod Sound
pub mod Exact
pub mod Counted
pub mod Safety
pub mod LifeCycle
pub mod Known
pub mod Launched
pub mod Alone
use cloud_burst_controller.Common.{
  ℕ, ◌≡◌, ◌⊎◌, ◌≤◌, ◌&&◌, pos, Bool, String, some, List, [], ◌∷◌, ◌++◌, map, length, get_elem?,
  str_eq, IsInt32, if◌then◌else◌,
}
use cloud_burst_controller.Common.Sorting.{Sorter}
use cloud_burst_controller.Kube.{Duration, NamespacedName}
use cloud_burst_controller.Api.{BurstNodePoolSpec, BurstNodePool}
use cloud_burst_controller.Errors.{Result, ok, err}
use cloud_burst_controller.Talos.{Yaml}
use cloud_burst_controller.Effect.{
  Request, Response, list_pods, get_pool, list_pools, update_pool_status, launch_node,
  terminate_node, Program, call, Outcome,
}
use cloud_burst_controller.Effect.Contract.{Trace, event}
use cloud_burst_controller.Controller.Matching.{name_less}
use cloud_burst_controller.Controller.Selector.{type_less}
use cloud_burst_controller.Controller.Provisioner
use cloud_burst_controller.Controller.NodeReady
use cloud_burst_controller.Controller.Reaper
use cloud_burst_controller.Controller.Orphan

abbrev pub Store : Type 0
Store = List BurstNodePool

-- What the server stores, and what it stored before; which instances the cloud launched for the
-- controller, and which it was asked to terminate.
pub record History : Type 0 where
  pub current : Store
  pub earlier : List Store
  pub launched : List String
  pub terminated : List String

abbrev pub stores : History → List Store
stores h = h.current ∷ h.earlier

abbrev pub store_next : History → Store → History
store_next h store = record h { current = store; earlier = stores h }

abbrev pub same_pool : BurstNodePool → BurstNodePool → Bool
same_pool p q = str_eq p.namespace q.namespace && str_eq p.name q.name

-- The status subresource of one pool.
unfoldable pub put_status : BurstNodePool → Store → Store
put_status p store = map (λ q. if same_pool p q then record q { status = p.status } else q) store

-- Which responses the server may give: a read is of a present or past store.
abbrev pub Answers : History → (q : Request) → Response q → Type 0
Answers h list_pools (ok pools) = (i : ℕ) × (get_elem? (stores h) i ≡ some pools)
Answers h (get_pool key) (ok pool) =
    (i j : ℕ) × (store : Store) × (get_elem? (stores h) i ≡ some store)
    × (get_elem? store j ≡ some pool)
    × (pool.namespace ≡ key.namespace)
    × (pool.name ≡ key.name)
Answers h list_pods (ok pods) = length pods ≤ 2147483647
Answers h _ _ = Unit

-- What is stored, launched and terminated after a call. A launch that fails may have launched an instance.
abbrev pub Leads : History → (q : Request) → Response q → History → Type 0
Leads h (update_pool_status p) (ok u) h' = h' ≡ store_next h (put_status p h.current)
Leads h (update_pool_status p) (err e) h' = (h' ≡ h) ⊎ (h' ≡ store_next h (put_status p h.current))
Leads h (launch_node opts) (ok id) h' = h' ≡ record h { launched = id ∷ h.launched }
Leads h (launch_node opts) (err e) h' =
    (h' ≡ h) ⊎ ((id : String) × (h' ≡ record h { launched = id ∷ h.launched }))
Leads h (terminate_node id) r h' = h' ≡ record h { terminated = id ∷ h.terminated }
Leads h _ _ h' = h' ≡ h

-- How the reconcilers are set up.
pub record Config : Type 0 where
  pub yaml : Yaml
  pub sort_pools : Sorter name_less
  pub sort_types : Sorter type_less
  pub debounce_period : Duration
  pub drainer : Bool
  pub reaper_interval : Duration
  pub orphan_check_interval : Duration
  pub orphan_boot_timeout : Duration

-- An event that a reconciler reacts to.
pub data Job : Type 0 where
  provision : NamespacedName → Job
  make_ready : String → Job
  reap : String → Job

unfoldable pub program_of : Config → Job → Program Outcome
program_of cfg (provision key) =
    Provisioner.reconcile cfg.yaml cfg.sort_pools cfg.sort_types cfg.debounce_period key
program_of cfg (make_ready name) = NodeReady.reconcile name
program_of cfg (reap name) = Reaper.reconcile cfg.drainer cfg.reaper_interval name

-- What starts a run: an event, or the timer of the orphan check.
pub data Work : Type 0 where
  on_event : Job → Work
  check_orphans : Work

unfoldable pub program_of_work : Config → Work → Program Outcome
program_of_work cfg (on_event job) = program_of cfg job
program_of_work cfg check_orphans =
    Orphan.reconcile cfg.orphan_check_interval cfg.orphan_boot_timeout

-- A reconciler that runs: the calls it made and what is left of it.
pub record Thread : Type 0 where
  pub trace : Trace
  pub rest : Program Outcome

pub record State : Type 0 where
  pub history : History
  pub threads : List Thread

abbrev pub thread : Trace → Program Outcome → Thread
thread tr m = record { trace = tr; rest = m }

abbrev pub EmptyStatus : BurstNodePool → Type 0
EmptyStatus p =
    (p.status.active_nodes ≡ pos 0) × (p.status.pending_nodes ≡ pos 0) × (p.status.nodes ≡ [])

-- A step of the system whose runs start with these programs.
pub data Step {J : Type 0} (start : J → Program Outcome) (s t : State) : Type 0 where
  -- a run starts
  spawn : (job : J) → t ≡ record s { threads = thread [] (start job) ∷ s.threads } → Step start s t
  -- one thread makes its next call
  advance :
      (h' : History) (before rest : List Thread) (tr : Trace) (q : Request)
      (k : Response q → Program Outcome) (r : Response q)
      → s.threads ≡ before ++ thread tr (call q k) ∷ rest
      → Answers s.history q r
      → Leads s.history q r h'
      → t ≡ record { history = h'; threads = before ++ thread (event q r ∷ tr) (k r) ∷ rest }
      → Step start s t
  -- a user creates a pool, with an int32 maximum and no nodes
  create :
      (p : BurstNodePool)
      → IsInt32 p.spec.scaling.max_nodes
      → EmptyStatus p
      → t ≡ record s { history = store_next s.history (p ∷ s.history.current) }
      → Step start s t
  -- a user changes the specification of a pool
  edit :
      (before rest : Store) (p : BurstNodePool) (spec : BurstNodePoolSpec)
      → IsInt32 spec.scaling.max_nodes
      → s.history.current ≡ before ++ p ∷ rest
      → t
        ≡ record s { history = store_next s.history (before ++ (record p { spec = spec }) ∷ rest) }
      → Step start s t
  -- the process stops, and starts again
  restart : t ≡ record s { threads = [] } → Step start s t

pub data Reaches {J : Type 0} (start : J → Program Outcome) (s : State) : State → Type 0 where
  here : Reaches start s s
  next : {t u : State} → Reaches start s t → Step start t u → Reaches start s u

abbrev pub initial : State
initial = record {
  history = record { current = []; earlier = []; launched = []; terminated = [] };
  threads = [];
}
