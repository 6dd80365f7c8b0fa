-- ===== src/Controller/Orphan/Safe.antt =====
-- `OrphanReconciler.Reconcile` against every environment: what it terminates, deletes and stores.
use mathlib.Core.List.{Mem}
use cloud_burst_controller.Common.{
  ◌≡◌, ◌≢◌, refl, ◌≤ℤ◌, ltb_ℤ→le, false, inl, inr, Option, none, some, List, [], ◌∷◌, All,
  All-of_mem, All-middle, subst, String, Bool-cases,
}
use cloud_burst_controller.Kube.{Time, Duration, Node}
use cloud_burst_controller.Api.{terminating, BurstNodeStatus, BurstNodePool}
use cloud_burst_controller.Cloud.{CloudNode}
use cloud_burst_controller.Errors.{ok, err}
use cloud_burst_controller.Effect.{
  Request, Response, list_pools, update_pool_status, list_managed_nodes, delete_node,
  terminate_node, list_managed_instances, now, Program, ret, ◌>>=◌, requeue, since, Outcome,
}
use cloud_burst_controller.Effect.Contract.{
  Event, event, Trace, Happened, Contract, Ensures, Ensures-then,
}
use cloud_burst_controller.Controller.NodeStatus.{Found, has_name}
use cloud_burst_controller.Controller.NodeStatus.Valid.{IsValid, Finds, find_pool_and_node-Finds}
use cloud_burst_controller.Controller.Orphan.{
  remove_found, remove_from_pool_status, has_node, has_instance, in_boot_timeout, check_instance,
  check_instances, check_node, check_nodes, check_interval, boot_timeout, reconcile,
}
use cloud_burst_controller.Controller.Orphan.Removal.{remove_entry-IsValid}

-- A valid status with no entry that is being terminated.
pub record IsSettled (p : BurstNodePool) : Type 0 where
  pub valid : IsValid p.status
  pub settled : All (λ (n : BurstNodeStatus). n.state ≢ terminating) p.status.nodes

abbrev pub ListsSettled : (q : Request) → Response q → Type 0
ListsSettled list_pools (ok pools) = All IsSettled pools
ListsSettled _ _ = Unit

abbrev pub ListedInstances : List CloudNode → Event → Type 0
ListedInstances instances e = e ≡ event list_managed_instances (ok instances)

abbrev pub ListedNodes : List Node → Event → Type 0
ListedNodes nodes e = e ≡ event list_managed_nodes (ok nodes)

-- The clock was read when the timeout since the launch was over.
abbrev pub BootTimedOut : Duration → CloudNode → Event → Type 0
BootTimedOut timeout cn e = (t : Time) × (e ≡ event now t) × (timeout ≤ℤ since t cn.launched_at)

-- Why an instance may be terminated: it was listed, no listed node has its name, and it was launched
-- longer ago than the timeout.
pub record MayTerminate (timeout : Duration) (tr : Trace) (id : String) : Type 0 where
  pub instances : List CloudNode
  pub nodes : List Node
  pub instance_found : CloudNode
  pub has_id : instance_found.instance_id ≡ id
  pub among : Mem instance_found instances
  pub listed_instances : Happened (ListedInstances instances) tr
  pub listed_nodes : Happened (ListedNodes nodes) tr
  pub no_node : has_node nodes instance_found.name ≡ false
  pub timed_out : Happened (BootTimedOut timeout instance_found) tr

-- Why a node may be deleted: it was listed, and no listed instance has its name.
pub record MayDelete (tr : Trace) (name : String) : Type 0 where
  pub instances : List CloudNode
  pub nodes : List Node
  pub node : Node
  pub has_node_name : node.name ≡ name
  pub among : Mem node nodes
  pub listed_instances : Happened (ListedInstances instances) tr
  pub listed_nodes : Happened (ListedNodes nodes) tr
  pub no_instance : has_instance instances name ≡ false

abbrev pub Promise : Duration → Trace → Request → Type 0
Promise timeout tr (update_pool_status pool) = IsValid pool.status
Promise timeout tr (terminate_node id) = MayTerminate timeout tr id
Promise timeout tr (delete_node name) = MayDelete tr name
Promise timeout tr _ = Unit

abbrev pub contract : Duration → Contract
contract timeout = record { assume = ListsSettled; promise = Promise timeout }

in_boot_timeout-le :
    (timeout : Duration) (cn : CloudNode) (t : Time)
    → in_boot_timeout timeout cn t ≡ false
    → timeout ≤ℤ since t cn.launched_at
unfolding in_boot_timeout
in_boot_timeout-le timeout cn t over = ltb_ℤ→le (since t cn.launched_at) timeout over

module _ (timeout : Duration) (instances : List CloudNode) (nodes : List Node) where
  -- Both lists were fetched.
  abbrev Listed : Trace → Type 0
  Listed tr = Happened (ListedInstances instances) tr × Happened (ListedNodes nodes) tr

  abbrev Ok : Trace → Program Unit → Type 0
  Ok = Ensures (contract timeout) (λ tr u. Listed tr)

  later : (e : Event) (tr : Trace) → Listed tr → Listed (e ∷ tr)
  later e tr (a, b) = (inr a, inr b)

  remove_found-Ok :
      (name : String) (tr : Trace) (o : Option Found)
      → Listed tr
      → Finds IsSettled (has_name name) o
      → Ok tr (remove_found o)
  unfolding remove_found
  remove_found-Ok name tr none listed h = listed
  remove_found-Ok name tr (some f) listed (settled, found) = (
    remove_entry-IsValid (has_name name) f found settled.valid (
        All-middle _ f.split.before f.split.entry f.split.after
          (subst (All (λ n. n.state ≢ terminating)) found.nodes settled.settled)),
    λ r _. later _ tr listed,
  )

  remove_from_pool_status-Ok :
      (name : String) (tr : Trace) → Listed tr → Ok tr (remove_from_pool_status name)
  unfolding remove_from_pool_status
  remove_from_pool_status-Ok name tr listed = (
    tt,
    elim [
      | err e ↦ λ _. later _ tr listed
      | ok pools ↦ λ settled.
          remove_found-Ok name _ _ (later _ tr listed)
            (find_pool_and_node-Finds IsSettled (has_name name) pools settled)
    ],
  )

  check_instance-Ok :
      (cn : CloudNode) (tr : Trace)
      → Mem cn instances
      → Listed tr
      → Ok tr (check_instance timeout nodes cn)
  unfolding check_instance
  check_instance-Ok cn tr among listed = elim (Bool-cases (has_node nodes cn.name)) [
    | inl there ↦ rw there listed
    | inr absent ↦ rw absent (
      tt,
      λ t _. elim (Bool-cases (in_boot_timeout timeout cn t)) [
        | inl young ↦ rw young (later _ tr listed)
        | inr old ↦ rw old (
          record {
            instances = instances;
            nodes = nodes;
            instance_found = cn;
            has_id = refl;
            among = among;
            listed_instances = inr listed.0;
            listed_nodes = inr listed.1;
            no_node = absent;
            timed_out = inl (t, refl, in_boot_timeout-le timeout cn t old);
          },
          λ r _. remove_from_pool_status-Ok cn.name _ (inr (inr listed.0), inr (inr listed.1)),
        )
      ],
    )
  ]

  check_instances-Ok :
      (cns : List CloudNode) (tr : Trace)
      → All (λ cn. Mem cn instances) cns
      → Listed tr
      → Ok tr (check_instances timeout nodes cns)
  unfolding check_instances
  check_instances-Ok [] tr among listed = listed
  check_instances-Ok (cn ∷ cns) tr among listed =
      Ensures-then (contract timeout) (λ tr' u. Listed tr') (λ tr' u. Listed tr') tr
        (check_instance timeout nodes cn) _ (check_instance-Ok cn tr among.0 listed)
        (λ tr' u listed'. check_instances-Ok cns tr' among.1 listed')

  check_node-Ok :
      (node : Node) (tr : Trace) → Mem node nodes → Listed tr → Ok tr (check_node instances node)
  unfolding check_node
  check_node-Ok node tr among listed = elim (Bool-cases (has_instance instances node.name)) [
    | inl there ↦ rw there listed
    | inr absent ↦ rw absent (
      record {
        instances = instances;
        nodes = nodes;
        node = node;
        has_node_name = refl;
        among = among;
        listed_instances = listed.0;
        listed_nodes = listed.1;
        no_instance = absent;
      },
      λ r _. remove_from_pool_status-Ok node.name _ (later _ tr listed),
    )
  ]

  check_nodes-Ok :
      (ns : List Node) (tr : Trace)
      → All (λ n. Mem n nodes) ns
      → Listed tr
      → Ok tr (check_nodes instances ns)
  unfolding check_nodes
  check_nodes-Ok [] tr among listed = listed
  check_nodes-Ok (n ∷ ns) tr among listed =
      Ensures-then (contract timeout) (λ tr' u. Listed tr') (λ tr' u. Listed tr') tr
        (check_node instances n) _ (check_node-Ok n tr among.0 listed)
        (λ tr' u listed'. check_nodes-Ok ns tr' among.1 listed')

abbrev pub Anything : Trace → Outcome → Type 0
Anything tr o = Unit

module _ (interval timeout : Duration) (instances : List CloudNode) (nodes : List Node) where
  abbrev limit : Duration
  limit = boot_timeout interval timeout

  abbrev Fetched : Trace → Type 0
  Fetched = Listed limit instances nodes

  sweeps-Ok :
      (tr : Trace)
      → Fetched tr
      → Ensures (contract limit) Anything tr (
          check_instances limit nodes instances >>= λ _.
          check_nodes instances nodes >>= λ _. ret (requeue (check_interval interval timeout)))
  sweeps-Ok tr listed =
      Ensures-then (contract limit) (λ tr' u. Fetched tr') Anything tr
        (check_instances limit nodes instances) _
        (check_instances-Ok limit instances nodes instances tr (All-of_mem _ instances (λ x m. m))
          listed)
        (λ tr' u listed'.
          Ensures-then (contract limit) (λ tr'' u'. Fetched tr'') Anything tr'
            (check_nodes instances nodes) _
            (check_nodes-Ok limit instances nodes nodes tr' (All-of_mem _ nodes (λ x m. m)) listed')
            (λ tr'' u' listed''. tt))

-- As long as the listed pools have valid statuses and no entry that is being terminated, `Reconcile`
-- never panics and stores only valid statuses. It terminates only listed instances without a listed
-- node of their name, past the boot timeout on the clock, and deletes only listed nodes without a
-- listed instance of their name.
pub orphan-Ensures :
    (interval timeout : Duration)
    → Ensures (contract (boot_timeout interval timeout)) Anything [] (reconcile interval timeout)
unfolding reconcile
orphan-Ensures interval timeout = (
  tt,
  elim [
    | err e ↦ λ _. tt
    | ok instances ↦ λ _. (
      tt,
      elim [
        | err e ↦ λ _. tt
        | ok nodes ↦ λ _. sweeps-Ok interval timeout instances nodes _ (inr (inl refl), inl refl)
      ],
    )
  ],
)
