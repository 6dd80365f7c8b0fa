-- ===== src/Controller/Provisioner/Launching.antt =====
-- The launches of one `Reconcile`: there is room for each, and each is accounted for.
use mathlib.Core.List.{append_assoc, map-append}
use cloud_burst_controller.Common.{
  ℕ, zero, suc, ◌+◌, ◌≤◌, ◌<◌, ◌≡◌, refl, sym, ◌∙◌, ap, inl, inr, pos, pos_part, String, some, List,
  [], ◌∷◌, ◌++◌, length, length-append, arith, Bool-cases, All-append,
}
use cloud_burst_controller.Kube.{Time}
use cloud_burst_controller.Api.{
  InstanceTypeConfig, AwsConfig, BurstNodePoolSpec, BurstNodePool, NodeState, pending,
  BurstNodeStatus,
}
use cloud_burst_controller.Cloud.Ec2.{is_capacity_error}
use cloud_burst_controller.Errors.{Result, ok, err}
use cloud_burst_controller.Talos.{Yaml, patch_and_encode}
use cloud_burst_controller.Effect.Contract.{Trace, Happened, Ensures, Ensures-then}
use cloud_burst_controller.Controller.NodeStatus.Valid.{
  pending_weight, active_weight, weigh, weigh-append, increment_pos, plus_slack, plus_slack_lem,
  IsCountedBy,
}
use cloud_burst_controller.Controller.Provisioner.{
  node_name_for, add_pending_node, add_launched, launch_configured, launch_node_for, launch_nodes,
}
use cloud_burst_controller.Controller.Provisioner.Launch.{Launched, launch_with_fallback}
use cloud_burst_controller.Controller.Provisioner.Promise.{
  launches, instance_ids, entries, Fetched, Extends,
}
use cloud_burst_controller.Controller.Provisioner.Counted.{contract}

-- During the launches: the pool that was fetched, how many launches are still to come, and the pool
-- as it is changed.
pub record Inv (fetched : BurstNodePool) (slack left : ℕ) (tr : Trace) (pool : BurstNodePool)
    : Type 0 where
  pub was_fetched : Happened (Fetched fetched) tr
  pub same_spec : pool.spec ≡ fetched.spec
  pub before : IsCountedBy slack fetched.status
  pub counts : IsCountedBy slack pool.status
  pub accounted : instance_ids pool ≡ instance_ids fetched ++ launches tr
  pub counted : entries pool ≡ entries fetched + length (launches tr)
  pub extends : Extends fetched pool (launches tr)
  pub room : slack + entries pool + left ≤ pos_part fetched.spec.scaling.max_nodes
  pub in_range : pos_part fetched.spec.scaling.max_nodes ≤ 2147483647

-- What `launchWithFallback` adds to the launches.
abbrev AddsLaunch : Trace → Result Launched → Trace → Type 0
AddsLaunch tr (ok l) tr' = launches tr' ≡ launches tr ++ l.instance_id ∷ []
AddsLaunch tr (err e) tr' = launches tr' ≡ launches tr

module _ (fetched : BurstNodePool) (slack : ℕ) (before : IsCountedBy slack fetched.status) where
  Ends : Trace → Trace → Result Launched → Type 0
  Ends tr tr' r = Happened (Fetched fetched) tr' × AddsLaunch tr r tr'

  launch_with_fallback-Ok :
      (aws : AwsConfig) (cs : List InstanceTypeConfig) (name : String) (user_data : List ℕ)
      (start tr : Trace)
      → Happened (Fetched fetched) tr
      → launches tr ≡ launches start
      → slack + (entries fetched + length (launches start))
        < pos_part fetched.spec.scaling.max_nodes
      → Ensures contract (Ends start) tr (launch_with_fallback (some aws) cs name user_data)
  unfolding launch_with_fallback Ends
  launch_with_fallback-Ok aws [] name user_data start tr was same room = (was, same)
  launch_with_fallback-Ok aws (c ∷ cs) name user_data start tr was same room = (
    record {
      slack = slack;
      fetched = fetched;
      was_fetched = was;
      before = before;
      room = rw same room;
    },
    elim [
      | ok id ↦ λ _. (inr was, ap (λ ids. ids ++ id ∷ []) same)
      | err e ↦ λ _. elim (Bool-cases (is_capacity_error e)) [
        | inl full ↦
            rw full (launch_with_fallback-Ok aws cs name user_data start _ (inr was) same room)
        | inr other ↦ rw other (inr was, same)
      ]
    ],
  )

-- An entry more for a launch more.
module _ (fetched : BurstNodePool) (slack n : ℕ) (tr tr' : Trace) (pool : BurstNodePool)
    (inv : Inv fetched slack (suc n) tr pool) (name : String) (l : Launched) (t : Time)
    (was : Happened (Fetched fetched) tr')
    (added : launches tr' ≡ launches tr ++ l.instance_id ∷ []) where
  abbrev added_pool : BurstNodePool
  added_pool = add_pending_node pool name l t

  weigh_added :
      (w : NodeState → ℕ) → weigh w added_pool.status.nodes ≡ weigh w pool.status.nodes + w pending
  unfolding add_pending_node weigh
  weigh_added w = omega (arith, weigh-append w pool.status.nodes _)

  entries_added : entries added_pool ≡ entries pool + 1
  entries_added = omega (arith, weigh_added pending_weight, weigh_added active_weight)

  add_pending_node-IsCountedBy : IsCountedBy slack added_pool.status
  add_pending_node-IsCountedBy = record {
    pending_counted = pending_added ∙ ap pos (sym (weigh_added pending_weight));
    active_counted = active_added ∙ ap (λ w. pos (plus_slack slack w)) same_active;
    in_range = omega (
      arith,
      entries_added,
      inv.room,
      inv.in_range,
      plus_slack_lem slack (weigh active_weight added_pool.status.nodes),
    );
  }
    where
      same_active :
          weigh active_weight pool.status.nodes ≡ weigh active_weight added_pool.status.nodes
      same_active = omega (arith, weigh_added active_weight)

      pending_added :
          added_pool.status.pending_nodes ≡ pos (weigh pending_weight pool.status.nodes + 1)
      pending_added =
          unfold add_pending_node in
          rw inv.counts.pending_counted (
            increment_pos (weigh pending_weight pool.status.nodes)
              (omega (arith, inv.room, inv.in_range)))

      active_added :
          added_pool.status.active_nodes
          ≡ pos (plus_slack slack (weigh active_weight pool.status.nodes))
      active_added = unfold add_pending_node in inv.counts.active_counted

  ids_added : instance_ids added_pool ≡ instance_ids pool ++ l.instance_id ∷ []
  unfolding add_pending_node
  ids_added = map-append _ pool.status.nodes _

  spec_added : added_pool.spec ≡ pool.spec
  unfolding add_pending_node
  spec_added = refl

  namespace_added : added_pool.namespace ≡ pool.namespace
  unfolding add_pending_node
  namespace_added = refl

  name_added : added_pool.name ≡ pool.name
  unfolding add_pending_node
  name_added = refl

  nodes_added :
      (n : BurstNodeStatus) × (n.state ≡ pending)
      × (n.instance_id ≡ l.instance_id)
      × (added_pool.status.nodes ≡ pool.status.nodes ++ n ∷ [])
  unfolding add_pending_node
  nodes_added = (_, refl, refl, refl)

  Extends-added : Extends fetched added_pool (launches tr')
  Extends-added =
      let (n, is_pending, same_id, nodes) = nodes_added in
      let was = inv.extends in
      record {
        namespace = namespace_added ∙ was.namespace;
        name = name_added ∙ was.name;
        spec = spec_added ∙ was.spec;
        added = was.added ++ n ∷ [];
        nodes =
            nodes
            ∙ ap (λ ns. ns ++ n ∷ []) was.nodes
            ∙ append_assoc fetched.status.nodes was.added (n ∷ []);
        all_pending =
            All-append (λ (n : BurstNodeStatus). n.state ≡ pending) was.added (n ∷ [])
              was.all_pending (is_pending, tt);
        each_launched =
            map-append (λ (n : BurstNodeStatus). n.instance_id) was.added (n ∷ [])
            ∙ ap (λ ids. ids ++ n.instance_id ∷ []) was.each_launched
            ∙ ap (λ id. launches tr ++ id ∷ []) same_id
            ∙ sym added;
      }

  add_pending_node-Inv : Inv fetched slack n tr' added_pool
  add_pending_node-Inv = record {
    was_fetched = was;
    same_spec = spec_added ∙ inv.same_spec;
    before = inv.before;
    counts = add_pending_node-IsCountedBy;
    accounted =
        ids_added
        ∙ ap (λ ids. ids ++ l.instance_id ∷ []) inv.accounted
        ∙ append_assoc (instance_ids fetched) (launches tr) (l.instance_id ∷ [])
        ∙ ap (λ ids. instance_ids fetched ++ ids) (sym added);
    counted = rw added (
        omega
          (arith, entries_added, inv.counted, length-append (launches tr) (l.instance_id ∷ [])));
    extends = Extends-added;
    room = omega (arith, entries_added, inv.room);
    in_range = inv.in_range;
  }

-- A round that launches nothing leaves the pool.
Inv-skip :
    {fetched : BurstNodePool} {slack n : ℕ} {tr : Trace} {pool : BurstNodePool} (tr' : Trace)
    → Happened (Fetched fetched) tr'
    → launches tr' ≡ launches tr
    → Inv fetched slack (suc n) tr pool
    → Inv fetched slack n tr' pool
Inv-skip tr' was same inv = record {
  was_fetched = was;
  same_spec = inv.same_spec;
  before = inv.before;
  counts = inv.counts;
  accounted = rw same inv.accounted;
  counted = rw same inv.counted;
  extends = rw same inv.extends;
  room = omega (arith, inv.room);
  in_range = inv.in_range;
}

module _ (fetched : BurstNodePool) (slack : ℕ) (yaml : Yaml) (config_data : List ℕ)
    (cs : List InstanceTypeConfig) (aws : AwsConfig) (has_aws : fetched.spec.aws ≡ some aws) where
  launch_configured-Ok :
      (n : ℕ) (tr tr' : Trace) (pool : BurstNodePool) (name : String) (config : Result (List ℕ))
      → Inv fetched slack (suc n) tr pool
      → Happened (Fetched fetched) tr'
      → launches tr' ≡ launches tr
      → Ensures contract
          (Inv fetched slack n)
          tr'
          (launch_configured yaml config_data cs pool name config)
  unfolding launch_configured add_launched Ends
  launch_configured-Ok n tr tr' pool name (err e) inv was same = Inv-skip tr' was same inv
  launch_configured-Ok n tr tr' pool name (ok user_data) inv was same =
      Ensures-then contract (Ends fetched slack inv.before tr) (Inv fetched slack n) tr'
        (launch_with_fallback pool.spec.aws cs name user_data)
        (add_launched yaml config_data cs pool name)
        (rw (ap (λ (s : BurstNodePoolSpec). s.aws) inv.same_spec ∙ has_aws) (
          launch_with_fallback-Ok fetched slack inv.before aws cs name user_data tr tr' was same
            (omega (arith, inv.counted, inv.room))))
        (λ tr''. elim [
          | err e ↦ λ ended. Inv-skip tr'' ended.0 ended.1 inv
          | ok l ↦ λ ended. (
            tt,
            λ t _.
                add_pending_node-Inv fetched slack n tr _ pool inv name l t (inr ended.0) ended.1,
          )
        ])

  launch_node_for-Ok :
      (n : ℕ) (tr : Trace) (pool : BurstNodePool)
      → Inv fetched slack (suc n) tr pool
      → Ensures contract (Inv fetched slack n) tr (launch_node_for yaml config_data cs pool)
  unfolding launch_node_for
  launch_node_for-Ok n tr pool inv = (
    tt,
    λ bytes _.
        let name = node_name_for pool bytes in
        launch_configured-Ok n tr _ pool name (patch_and_encode yaml config_data name) inv
          (inr inv.was_fetched) refl,
  )

  -- Each of the launches has room, and at the end all are accounted for.
  pub launch_nodes-Ok :
      (n : ℕ) (tr : Trace) (pool : BurstNodePool)
      → Inv fetched slack n tr pool
      → Ensures contract (Inv fetched slack 0) tr (launch_nodes yaml config_data cs n pool)
  unfolding launch_nodes
  launch_nodes-Ok zero tr pool inv = inv
  launch_nodes-Ok (suc n) tr pool inv =
      Ensures-then contract (Inv fetched slack n) (Inv fetched slack 0) tr
        (launch_node_for yaml config_data cs pool) _ (launch_node_for-Ok n tr pool inv)
        (λ tr' pool' inv'. launch_nodes-Ok n tr' pool' inv')
