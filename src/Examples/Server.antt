-- ===== src/Examples/Server.antt =====
-- A server with one pool: a run of the provisioner, and then a restart and the orphan check.
use cloud_burst_controller.Common.{
  All, quot, arith, map, filter, lookup, text_at, int32, int64, ◌+ℤ◌, ◌-ℤ◌, ◌≡◌, refl, ◌&&◌, Bool,
  inl, inr, String, List, [], ◌∷◌, str_eq, eq_iff, Bool-cases, if◌then◌else◌,
}
use cloud_burst_controller.Kube.{NamespacedName}
use cloud_burst_controller.Api.{NodeState, BurstNodeStatus, BurstNodePool, pending}
use cloud_burst_controller.Errors.{Result, ok, err, message}
use cloud_burst_controller.Effect.{
  Program, Outcome, Request, Response, get_pool, list_pools, list_pods, update_pool_status,
  launch_node, terminate_node,
}
use cloud_burst_controller.Controller.Provisioner
use cloud_burst_controller.Controller.Provisioner.Launch.{launch_with_fallback}
use cloud_burst_controller.Common.Sorting.{insertion_sort}
use cloud_burst_controller.Api.Resolve.{resolve_instance_types}
use cloud_burst_controller.Talos.{
  patch_and_encode, patch_hostname, patch_config, set_hostname, get_field,
}
use cloud_burst_controller.Controller.Matching.{
  is_pod_unschedulable, is_burst_enabled, match_pod_to_pool, scan_pools, is_better,
  pod_matches_pool, pool_specificity_score,
}
use cloud_burst_controller.Controller.Selector.{
  select_instance_types, candidate_fits, max_pod_requirements, capacity_fits, required_architecture,
  max_requirements_from, raise_requirements, pod_gpu_requests, known_less,
}
use cloud_burst_controller.Controller.Capacity.{
  sum_requests, requested, pod_resource_requests, estimate_pods_per_node, estimate_for,
  max_requests, at_least_one, min_ℤ, fit_by, calculate_nodes_needed, nodes_for, div_ceil,
}
use cloud_burst_controller.Controller.Capacity.Table.{get_instance_capacity, instance_capacities}
use cloud_burst_controller.Controller.Provisioner.Launch.{launch_with_fallback}
use cloud_burst_controller.System.{
  Store, History, store_next, put_status, Answers, Leads, State, Reaches, here, next, create, spawn,
  provision, program_of, initial, Work, on_event, check_orphans, program_of_work, restart, stores,
}
use cloud_burst_controller.System.Sound.{IsSoundFor}
use cloud_burst_controller.System.Safety.{Reaches-IsCounted, NonePanicked}
use cloud_burst_controller.Controller.NodeStatus.Valid.{IsCounted}
use cloud_burst_controller.System.Alone.{Server, alone, alone-Reaches}
use cloud_burst_controller.System.Launched.{IsOwn}
use cloud_burst_controller.System.Launched.Reached.{Reaches-IsOwn}
use cloud_burst_controller.Examples.{running_pool, answer}
use cloud_burst_controller.Examples.Events.{setup, empty_pool, history, max_IsInt32}

abbrev named : NamespacedName → BurstNodePool → Bool
named key p = str_eq p.namespace key.namespace && str_eq p.name key.name

abbrev first_named : NamespacedName → Store → Result BurstNodePool
first_named key [] = err (message "not found")
first_named key (p ∷ ps) = if named key p then ok p else err (message "not found")

abbrev answer_from : History → (q : Request) → Response q
answer_from h list_pools = ok h.current
answer_from h (get_pool key) = first_named key h.current
answer_from h q = answer running_pool "True" q

abbrev after : History → Request → History
after h (update_pool_status p) = store_next h (put_status p h.current)
after h (launch_node opts) = record h { launched = "i-3" ∷ h.launched }
after h (terminate_node id) = record h { terminated = id ∷ h.terminated }
after h _ = h

first_named-Answers :
    (key : NamespacedName) (current : Store) (earlier : List Store)
    (launched terminated : List String)
    → Answers
        (record {
          current = current;
          earlier = earlier;
          launched = launched;
          terminated = terminated;
        })
        (get_pool key)
        (first_named key current)
first_named-Answers key [] earlier launched terminated = tt
first_named-Answers key (p ∷ ps) earlier launched terminated = elim (Bool-cases (named key p)) [
  | inl e ↦ rw e (
    0,
    0,
    p ∷ ps,
    refl,
    refl,
    (eq_iff p.namespace key.namespace).0 (ground arith),
    (eq_iff p.name key.name).0 (ground arith),
  )
  | inr e ↦ rw e tt
]

answers : (h : History) (q : Request) → Answers h q (answer_from h q)
answers h list_pools = (0, refl)
answers h (get_pool key) = first_named-Answers key h.current h.earlier h.launched h.terminated
answers h list_pods = omega arith
answers h _ = tt

leads : (h : History) (q : Request) → Leads h q (answer_from h q) (after h q)
leads h (update_pool_status p) = refl
leads h (launch_node opts) = refl
leads h (terminate_node id) = refl
leads h _ = refl

abbrev server : Server
server = record { answer = answer_from; after = after; answers = answers; leads = leads }

abbrev pod_key : NamespacedName
pod_key = record { namespace = "default"; name = "train" }

abbrev provisioned : State
provisioned = alone (program_of setup) server history [] (program_of setup (provision pod_key))

provisioned-Reaches : Reaches (program_of setup) initial provisioned
provisioned-Reaches =
    alone-Reaches (program_of setup) server initial history []
      (program_of setup (provision pod_key))
      (next (next here (create empty_pool max_IsInt32 (refl, refl, refl) refl))
        (spawn (provision pod_key) refl))

Reaches-IsOwn_example : IsOwn provisioned.history
Reaches-IsOwn_example = Reaches-IsOwn setup provisioned provisioned-Reaches

abbrev entry_state : BurstNodeStatus → String × NodeState
entry_state n = (n.instance_id, n.state)

-- The cloud launched one instance, and it is the one entry that is stored.
launched_one :
    (provisioned.history.launched ≡ "i-3" ∷ [])
    × (map (λ (p : BurstNodePool). map entry_state p.status.nodes) provisioned.history.current
        ≡ ((("i-3", pending) ∷ []) ∷ []))
unfolding alone program_of Provisioner.reconcile Provisioner.debounce Provisioner.match_pool
    Provisioner.with_pool Provisioner.check_capacity Provisioner.matching_pods
    Provisioner.size_and_provision Provisioner.provision Provisioner.launch_nodes
    Provisioner.launch_node_for Provisioner.launch_configured Provisioner.add_launched
    Provisioner.add_pending_node Provisioner.persist Provisioner.is_provisioned
    Provisioner.capacity_or_default Provisioner.config_key_of Provisioner.node_name_for
    launch_with_fallback is_pod_unschedulable is_burst_enabled match_pod_to_pool scan_pools
    insertion_sort is_better pod_matches_pool pool_specificity_score filter lookup text_at
    select_instance_types candidate_fits max_pod_requirements resolve_instance_types
    get_instance_capacity capacity_fits required_architecture max_requirements_from
    raise_requirements pod_gpu_requests sum_requests int32 int64 ◌+ℤ◌ requested
    pod_resource_requests known_less calculate_nodes_needed nodes_for div_ceil
    estimate_pods_per_node estimate_for max_requests ◌-ℤ◌ at_least_one min_ℤ fit_by quot
    instance_capacities patch_and_encode patch_hostname patch_config set_hostname get_field
    put_status
launched_one = (refl, refl)

-- The same run, a restart, and then the orphan check.
abbrev works : Work → Program Outcome
works = program_of_work setup

abbrev launched_state : State
launched_state = alone works server history [] (works (on_event (provision pod_key)))

abbrev swept : State
swept = alone works server launched_state.history [] (works check_orphans)

swept-Reaches : Reaches works initial swept
swept-Reaches = alone-Reaches works server initial launched_state.history [] (works check_orphans) (
    next
      (next
        (alone-Reaches works server initial history [] (works (on_event (provision pod_key))) (
          next (next here (create empty_pool max_IsInt32 (refl, refl, refl) refl))
            (spawn (on_event (provision pod_key)) refl)))
        (restart refl))
      (spawn check_orphans refl))

Reaches-IsCounted_example :
    All (All (IsSoundFor IsCounted)) (stores swept.history) × NonePanicked swept.threads
Reaches-IsCounted_example = Reaches-IsCounted setup swept swept-Reaches
