-- ===== src/Controller/Provisioner/Sizing.antt =====
-- The numbers and the state with which the launches of one `Reconcile` start.
use mathlib.Core.List.{append-nil}
use cloud_burst_controller.Common.{
  ℕ, ◌+◌, ◌≤◌, ◌≡◌, refl, sym, ap, ◌⊎◌, inl, inr, ℤ, pos, IsInt32, pos_part, ◌+ℤ◌, leb_ℤ, int32,
  int32_of_range, +ℤ_parts, eq_of_parts, parts_apart, leb_ℤ→lt, ≤ℤ-or-<ℤ, false, some, List, [],
  length, arith, Option-cases,
}
use cloud_burst_controller.Common.Sorting.{Sorter}
use cloud_burst_controller.Kube.{Pod}
use cloud_burst_controller.Api.{AwsConfig, BurstNodePool}
use cloud_burst_controller.Effect.Contract.{Trace, Happened}
use cloud_burst_controller.Controller.Capacity.{InstanceCapacity, calculate_nodes_needed}
use cloud_burst_controller.Controller.Capacity.Needed.{calculate_nodes_needed-bounds}
use cloud_burst_controller.Controller.Selector.{type_less, select_instance_types}
use cloud_burst_controller.Controller.NodeStatus.Valid.{
  pending_weight, active_weight, weigh, plus_slack, plus_slack_lem, IsCountedBy,
}
use cloud_burst_controller.Controller.Provisioner.Launching.{Inv}
use cloud_burst_controller.Controller.Provisioner.Promise.{launches, instance_ids, entries, Fetched}

-- The sum that `Reconcile` hands to `CalculateNodesNeeded` is the number of nodes that the pool counts.
pub current_lem :
    (pool : BurstNodePool) (slack : ℕ)
    → IsCountedBy slack pool.status
    → int32 (pool.status.active_nodes +ℤ pool.status.pending_nodes) ≡ pos (slack + entries pool)
current_lem pool slack counts =
    rw (counts.active_counted, counts.pending_counted, sum_lem)
      (int32_of_range (pos (slack + entries pool))
        (record { below = omega (arith, counts.in_range, slack_lem); above = omega arith }))
  where
    slack_lem :
        plus_slack slack (weigh active_weight pool.status.nodes)
        ≡ slack + weigh active_weight pool.status.nodes
    slack_lem = plus_slack_lem slack (weigh active_weight pool.status.nodes)

    sum_lem :
        pos (plus_slack slack (weigh active_weight pool.status.nodes))
          +ℤ pos (weigh pending_weight pool.status.nodes)
        ≡ pos (slack + entries pool)
    sum_lem = eq_of_parts _ _ (
        omega (
          arith,
          slack_lem,
          +ℤ_parts (pos (plus_slack slack (weigh active_weight pool.status.nodes)))
              (pos (weigh pending_weight pool.status.nodes)),
        ))

-- A number of nodes above 0 has room in the pool.
needed_room :
    (pods : List Pod) (capacity : InstanceCapacity) (n : ℕ) (max : ℤ)
    → IsInt32 max
    → length pods ≤ 2147483647
    → leb_ℤ (calculate_nodes_needed pods capacity (pos n) max) (pos 0) ≡ false
    → n + pos_part (calculate_nodes_needed pods capacity (pos n) max) ≤ pos_part max
needed_room pods capacity n max range few positive =
    let needed = calculate_nodes_needed pods capacity (pos n) max in
    let (_, full, within) =
      calculate_nodes_needed-bounds pods capacity (pos n) max (omega arith) range few in
    elim (≤ℤ-or-<ℤ max (pos n)) [
      | inl above ↦
          absurd (omega (arith, leb_ℤ→lt needed (pos 0) positive, ap pos_part (full above)))
      | inr below ↦ omega (
        arith,
        leb_ℤ→lt needed (pos 0) positive,
        within (omega arith),
        +ℤ_parts (pos n) needed,
        parts_apart needed,
        parts_apart max,
        parts_apart (pos n +ℤ needed),
      )
    ]

pub needed_room_at :
    (pods : List Pod) (capacity : InstanceCapacity) (current : ℤ) (n : ℕ) (max : ℤ)
    → current ≡ pos n
    → IsInt32 max
    → length pods ≤ 2147483647
    → leb_ℤ (calculate_nodes_needed pods capacity current max) (pos 0) ≡ false
    → n + pos_part (calculate_nodes_needed pods capacity current max) ≤ pos_part max
needed_room_at pods capacity current n max e = rw e (needed_room pods capacity n max)

-- At the first launch.
pub start-Inv :
    (fetched : BurstNodePool) (slack n : ℕ) (tr : Trace)
    → Happened (Fetched fetched) tr
    → launches tr ≡ []
    → IsCountedBy slack fetched.status
    → IsInt32 fetched.spec.scaling.max_nodes
    → slack + entries fetched + n ≤ pos_part fetched.spec.scaling.max_nodes
    → Inv fetched slack n tr fetched
start-Inv fetched slack n tr was no_launch counts range room = record {
  was_fetched = was;
  same_spec = refl;
  before = counts;
  counts = counts;
  accounted = rw no_launch (sym (append-nil (instance_ids fetched)));
  counted = rw no_launch (omega arith);
  extends = record {
    namespace = refl;
    name = refl;
    spec = refl;
    added = [];
    nodes = sym (append-nil fetched.status.nodes);
    all_pending = tt;
    each_launched = sym no_launch;
  };
  room = room;
  in_range = range.below;
}

-- There are candidates only for a pool with an AWS configuration.
pub select_aws :
    (sort_types : Sorter type_less) (pool : BurstNodePool) (pods : List Pod)
    → (select_instance_types sort_types pool pods ≡ [])
      ⊎ ((aws : AwsConfig) × (pool.spec.aws ≡ some aws))
unfolding select_instance_types
select_aws sort_types pool pods = elim (Option-cases pool.spec.aws) [
  | inl absent ↦ inl (rw absent refl)
  | inr given ↦ inr given
]
