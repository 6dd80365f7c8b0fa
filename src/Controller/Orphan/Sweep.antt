-- ===== src/Controller/Orphan/Sweep.antt =====
-- What a run of `OrphanReconciler.Reconcile` covers.
use cloud_burst_controller.Common.{
  ◌≡◌, refl, ◌⊎◌, inl, inr, String, true, Option, none, some, List, [], ◌∷◌, All, All-map,
  Bool-cases,
}
use cloud_burst_controller.Kube.{Time, Duration, Node}
use cloud_burst_controller.Cloud.{CloudNode}
use cloud_burst_controller.Errors.{Error, wrapped, ok, err}
use cloud_burst_controller.Effect.{
  Request, list_managed_nodes, delete_node, terminate_node, list_managed_instances, now, Program,
  ◌>>=◌, Outcome, fail, requeue, ret,
}
use cloud_burst_controller.Effect.Contract.{
  any_answer, Event, event, Trace, Happened, Ensures, Ensures-then, Ensures-keep, Environment, run,
  EndsWell, run-EndsWell,
}
use cloud_burst_controller.Controller.NodeStatus.{Found, find_pool_and_node, has_name}
use cloud_burst_controller.Controller.Orphan.{
  remove_found, remove_from_pool_status, has_node, has_instance, in_boot_timeout, check_instance,
  check_instances, check_node, check_nodes, check_interval, boot_timeout, reconcile,
}

abbrev pub Asked : Request → Event → Type 0
Asked q e = e.request ≡ q

abbrev pub SeenYoung : Duration → CloudNode → Event → Type 0
SeenYoung timeout cn e = (t : Time) × (e ≡ event now t) × (in_boot_timeout timeout cn t ≡ true)

-- Why an instance is left, or that its termination was asked for.
pub data InstanceHandled (timeout : Duration) (nodes : List Node) (tr : Trace) (cn : CloudNode)
    : Type 0 where
  -- a listed node has its name
  joined : has_node nodes cn.name ≡ true → InstanceHandled timeout nodes tr cn
  -- the clock was read within its boot timeout
  young : Happened (SeenYoung timeout cn) tr → InstanceHandled timeout nodes tr cn
  terminated :
      Happened (Asked (terminate_node cn.instance_id)) tr → InstanceHandled timeout nodes tr cn

-- Why a node is left, or that its deletion was asked for.
pub data NodeHandled (instances : List CloudNode) (tr : Trace) (node : Node) : Type 0 where
  -- a listed instance has its name
  backed : has_instance instances node.name ≡ true → NodeHandled instances tr node
  deleted : Happened (Asked (delete_node node.name)) tr → NodeHandled instances tr node

abbrev Ends : (Trace → Type 0) → Trace → Program Unit → Type 0
Ends P = Ensures any_answer (λ tr u. P tr)

remove_from_pool_status-Ends :
    (name : String) (P : Trace → Type 0)
    → ((e : Event) (tr : Trace) → P tr → P (e ∷ tr))
    → (tr : Trace) → P tr
    → Ends P tr (remove_from_pool_status name)
unfolding remove_from_pool_status remove_found
remove_from_pool_status-Ends name P grows tr h = (
  tt,
  elim [
    | err e ↦ λ _. grows _ tr h
    | ok pools ↦ λ _. removed (find_pool_and_node (has_name name) pools) _ (grows _ tr h)
  ],
)
  where
    removed : (o : Option Found) (tr' : Trace) → P tr' → Ends P tr' (remove_found o)
    removed none tr' h' = h'
    removed (some f) tr' h' = (tt, λ r _. grows _ tr' h')

module _ (timeout : Duration) (instances : List CloudNode) (nodes : List Node) where
  instance_grows :
      (cn : CloudNode) (e : Event) (tr : Trace)
      → InstanceHandled timeout nodes tr cn
      → InstanceHandled timeout nodes (e ∷ tr) cn
  instance_grows cn e tr (joined there) = joined there
  instance_grows cn e tr (young seen) = young (inr seen)
  instance_grows cn e tr (terminated asked) = terminated (inr asked)

  node_grows :
      (node : Node) (e : Event) (tr : Trace)
      → NodeHandled instances tr node
      → NodeHandled instances (e ∷ tr) node
  node_grows node e tr (backed there) = backed there
  node_grows node e tr (deleted asked) = deleted (inr asked)

  check_instance-Handled :
      (cn : CloudNode) (tr : Trace)
      → Ends (λ tr'. InstanceHandled timeout nodes tr' cn) tr (check_instance timeout nodes cn)
  unfolding check_instance
  check_instance-Handled cn tr = elim (Bool-cases (has_node nodes cn.name)) [
    | inl there ↦ rw (check_instance, there) (joined there)
    | inr absent ↦
        rw (check_instance, absent)
          (
            tt,
            λ t _. elim (Bool-cases (in_boot_timeout timeout cn t)) [
              | inl early ↦ rw early (young (inl (t, refl, early)))
              | inr old ↦ rw old (
                tt,
                λ r _.
                    remove_from_pool_status-Ends cn.name _ (instance_grows cn) _
                      (terminated (inl refl)),
              )
            ],
          )
  ]

  check_node-Handled :
      (node : Node) (tr : Trace)
      → Ends (λ tr'. NodeHandled instances tr' node) tr (check_node instances node)
  unfolding check_node
  check_node-Handled node tr = elim (Bool-cases (has_instance instances node.name)) [
    | inl there ↦ rw (check_node, there) (backed there)
    | inr absent ↦
        rw (check_node, absent)
          (
            tt,
            λ r _.
                remove_from_pool_status-Ends node.name _ (node_grows node) _ (deleted (inl refl)),
          )
  ]

  check_instances-Handled :
      (cns : List CloudNode) (tr : Trace)
      → Ends
          (λ tr'. All (InstanceHandled timeout nodes tr') cns)
          tr
          (check_instances timeout nodes cns)
  unfolding check_instances
  check_instances-Handled [] tr = tt
  check_instances-Handled (cn ∷ cns) tr =
      Ensures-then any_answer (λ tr' u. InstanceHandled timeout nodes tr' cn) _ tr
        (check_instance timeout nodes cn) _ (check_instance-Handled cn tr)
        (λ tr' u h.
          Ensures-keep any_answer (λ tr'' u'. All (InstanceHandled timeout nodes tr'') cns)
            (λ tr''. InstanceHandled timeout nodes tr'' cn) (instance_grows cn) tr' _
            (check_instances-Handled cns tr') h)

  check_nodes-Handled :
      (ns : List Node) (tr : Trace)
      → Ends (λ tr'. All (NodeHandled instances tr') ns) tr (check_nodes instances ns)
  unfolding check_nodes
  check_nodes-Handled [] tr = tt
  check_nodes-Handled (n ∷ ns) tr =
      Ensures-then any_answer (λ tr' u. NodeHandled instances tr' n) _ tr (check_node instances n) _
        (check_node-Handled n tr)
        (λ tr' u h.
          Ensures-keep any_answer (λ tr'' u'. All (NodeHandled instances tr'') ns)
            (λ tr''. NodeHandled instances tr'' n) (node_grows n) tr' _ (check_nodes-Handled ns tr')
            h)

-- What a sweep of these instances and nodes leaves nothing out of.
pub record Complete (timeout : Duration) (tr : Trace) : Type 0 where
  pub instances : List CloudNode
  pub nodes : List Node
  pub listed_instances : Happened (λ e. e ≡ event list_managed_instances (ok instances)) tr
  pub listed_nodes : Happened (λ e. e ≡ event list_managed_nodes (ok nodes)) tr
  pub all_instances : All (InstanceHandled timeout nodes tr) instances
  pub all_nodes : All (NodeHandled instances tr) nodes

-- One of the two lists failed, which was the last call, and its error is returned.
pub data ListFailed (tr : Trace) (o : Outcome) : Type 0 where
  no_instances :
      (e : Error)
      → tr ≡ event list_managed_instances (err e) ∷ []
      → o ≡ fail (wrapped "listing managed cloud nodes" e)
      → ListFailed tr o
  no_nodes :
      (e : Error) (instances : List CloudNode)
      → tr ≡ event list_managed_nodes (err e) ∷ event list_managed_instances (ok instances) ∷ []
      → o ≡ fail (wrapped "listing burst K8s nodes" e)
      → ListFailed tr o

-- A run ends with the failure of one of the two lists, or the sweep was complete.
abbrev pub Swept : (interval timeout : Duration) → Trace → Outcome → Type 0
Swept interval timeout tr o =
    ListFailed tr o
    ⊎ ((o ≡ requeue (check_interval interval timeout))
        × Complete (boot_timeout interval timeout) tr)

module _ (interval timeout : Duration) (instances : List CloudNode) (nodes : List Node) where
  abbrev limit : Duration
  limit = boot_timeout interval timeout

  abbrev start : Trace
  start = event list_managed_nodes (ok nodes) ∷ event list_managed_instances (ok instances) ∷ []

  abbrev FromStart : Trace → Type 0
  FromStart tr =
      Happened (λ e. e ≡ event list_managed_instances (ok instances)) tr
      × Happened (λ e. e ≡ event list_managed_nodes (ok nodes)) tr

  sweeps : Ensures any_answer (Swept interval timeout) start (
      check_instances limit nodes instances >>= λ _.
      check_nodes instances nodes >>= λ _. ret (requeue (check_interval interval timeout)))
  sweeps =
      Ensures-then any_answer
        (λ tr u. FromStart tr × All (InstanceHandled limit nodes tr) instances)
        (Swept interval timeout) start (check_instances limit nodes instances) _
        (Ensures-keep any_answer (λ tr u. All (InstanceHandled limit nodes tr) instances) FromStart
          (λ e tr (a, b). (inr a, inr b)) start _
          (check_instances-Handled limit instances nodes instances start)
          (inr (inl refl), inl refl))
        (λ tr u swept.
          Ensures-then any_answer
            (λ tr' u'.
              (FromStart tr' × All (InstanceHandled limit nodes tr') instances)
              × All (NodeHandled instances tr') nodes)
            (Swept interval timeout) tr (check_nodes instances nodes) _
            (Ensures-keep any_answer (λ tr' u'. All (NodeHandled instances tr') nodes)
              (λ tr'. FromStart tr' × All (InstanceHandled limit nodes tr') instances)
              (λ e tr' ((a, b), h). (
                (inr a, inr b),
                All-map (λ cn. instance_grows limit instances nodes cn e tr') instances h,
              ))
              tr _ (check_nodes-Handled limit instances nodes nodes tr) swept)
            (λ tr' u' (((a, b), all_instances), all_nodes). inr (
              refl,
              record {
                instances = instances;
                nodes = nodes;
                listed_instances = a;
                listed_nodes = b;
                all_instances = all_instances;
                all_nodes = all_nodes;
              },
            )))

reconcile-Swept :
    (interval timeout : Duration)
    → Ensures any_answer (Swept interval timeout) [] (reconcile interval timeout)
unfolding reconcile
reconcile-Swept interval timeout = (
  tt,
  elim [
    | err e ↦ λ _. inl (no_instances e refl refl)
    | ok instances ↦ λ _. (
      tt,
      elim [
        | err e ↦ λ _. inl (no_nodes e instances refl refl)
        | ok nodes ↦ λ _. sweeps interval timeout instances nodes
      ],
    )
  ],
)

-- In every environment a run of `Reconcile` ends with the error of one of the two lists, which failed and
-- was its last call, or no orphan is left out: each listed instance has a listed node of its name, or was seen within its boot timeout, or
-- its termination was asked for; and each listed node has a listed instance of its name, or its
-- deletion was asked for; and the next run is asked for after the check interval.
pub reconcile_sweeps :
    (interval timeout : Duration) (env : Environment) (s : env.State)
    → EndsWell any_answer (Swept interval timeout) (run env s [] (reconcile interval timeout))
reconcile_sweeps interval timeout env s =
    run-EndsWell any_answer env (λ s' q. tt) (Swept interval timeout) s []
      (reconcile interval timeout) (tt) (reconcile-Swept interval timeout)
