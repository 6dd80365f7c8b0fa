-- ===== src/Controller/Capacity/Needed.antt =====
-- Bounds and sufficiency of `CalculateNodesNeeded`.
use cloud_burst_controller.Common.{
  ℕ, ◌*◌, ◌≤◌, ◌≡◌, ◌⊎◌, inl, inr, refl, ℤ, pos, ◌+ℤ◌, ◌-ℤ◌, ◌≤ℤ◌, ◌<ℤ◌, pos_part, int32, IsInt32,
  int32_of_range, +ℤ_parts, -ℤ_parts, parts_apart, eq_of_parts, ≤ℤ-or-<ℤ, List, length, arith,
}
use cloud_burst_controller.Kube.{Pod}
use cloud_burst_controller.Controller.Capacity.{
  InstanceCapacity, min_ℤ, estimate_pods_per_node, div_ceil, at_least_one, nodes_for,
  calculate_nodes_needed,
}

-- `div_ceil` is the least number of groups of `d` that hold `n`.
pub div_ceil_enough : (n d : ℕ) → 1 ≤ d → n ≤ div_ceil n d * d
unfolding div_ceil
div_ceil_enough n d h = grind arith

pub div_ceil_least : (n d k : ℕ) → 1 ≤ d → n ≤ k * d → div_ceil n d ≤ k
unfolding div_ceil
div_ceil_least n d k h le = grind arith

-- How many pods go on one node: at least one.
abbrev pub groups : ℤ → ℕ
groups per_node = pos_part (at_least_one per_node)

groups_pos : (per_node : ℤ) → 1 ≤ groups per_node
unfolding at_least_one
groups_pos per_node = ground arith

module _ (pods : ℕ) (per_node current max : ℤ) (start : pos 0 ≤ℤ current) (room : current ≤ℤ max)
    (range : IsInt32 max) where
  available_lem : int32 (max -ℤ current) ≡ max -ℤ current
  available_lem = int32_of_range _ (record {
    below = omega (
      arith,
      range.below,
      -ℤ_parts max current,
      parts_apart (max -ℤ current),
      parts_apart max,
      parts_apart current,
    );
    above = omega (arith, -ℤ_parts max current, parts_apart (max -ℤ current));
  })

  -- Within the ranges the count is the lesser of what is needed and what is left.
  nodes_for_lem :
      pods ≤ 2147483647
      → nodes_for pods per_node current max
        ≡ min_ℤ (pos (div_ceil pods (groups per_node))) (max -ℤ current)
  unfolding nodes_for min_ℤ
  nodes_for_lem few = rw (available_lem, needed_lem) (ground (arith, -ℤ_parts max current))
    where
      needed_lem :
          int32 (pos (div_ceil pods (groups per_node))) ≡ pos (div_ceil pods (groups per_node))
      needed_lem = int32_of_range _ (record {
        below = omega (
          arith,
          div_ceil_least pods (groups per_node) pods (groups_pos per_node)
              (grind (arith, groups_pos per_node)),
        );
        above = omega arith;
      })

  nodes_for_bounds :
      pods ≤ 2147483647
      → (pos 0 ≤ℤ nodes_for pods per_node current max)
        × (current +ℤ nodes_for pods per_node current max ≤ℤ max)
  unfolding min_ℤ
  nodes_for_bounds few = rw (nodes_for_lem few) (
      ground (
        arith,
        -ℤ_parts max current,
        +ℤ_parts current (max -ℤ current),
        +ℤ_parts current (pos (div_ceil pods (groups per_node))),
      ))

  -- Either there is room for all pods, or the pool is full.
  nodes_for_enough :
      pods ≤ 2147483647
      → (pods ≤ pos_part (nodes_for pods per_node current max) * groups per_node)
        ⊎ (current +ℤ nodes_for pods per_node current max ≡ max)
  unfolding min_ℤ
  nodes_for_enough few = rw (nodes_for_lem few) (
      ground (
        arith,
        -ℤ_parts max current,
        +ℤ_parts current (max -ℤ current),
        eq_of_parts (current +ℤ (max -ℤ current)) max,
        div_ceil_enough pods (groups per_node) (groups_pos per_node),
      ))

  -- With fewer nodes than that some pod would be left over.
  nodes_for_least :
      pods ≤ 2147483647
      → (k : ℕ) → pods ≤ k * groups per_node
      → pos_part (nodes_for pods per_node current max) ≤ k
  unfolding min_ℤ
  nodes_for_least few k h = rw (nodes_for_lem few) (
      ground (
        arith,
        -ℤ_parts max current,
        div_ceil_least pods (groups per_node) k (groups_pos per_node) h,
      ))

module _ (pods : List Pod) (capacity : InstanceCapacity) (current max : ℤ) where
  calculate_nodes_needed_full :
      max ≤ℤ current → calculate_nodes_needed pods capacity current max ≡ pos 0
  unfolding calculate_nodes_needed
  calculate_nodes_needed_full h = ground arith

  calculate_nodes_needed_room :
      current <ℤ max
      → calculate_nodes_needed pods capacity current max
        ≡ nodes_for (length pods) (estimate_pods_per_node pods capacity) current max
  unfolding calculate_nodes_needed
  calculate_nodes_needed_room h = ground arith

  module _ (start : pos 0 ≤ℤ current) (range : IsInt32 max) (few : length pods ≤ 2147483647) where
    -- For a current number that is not negative, an int32 maximum and a number of pods within an int32:
    -- the number of nodes to launch is never negative, and with the nodes that there are it never
    -- passes the maximum; at the maximum or above it is 0.
    pub calculate_nodes_needed-bounds :
        (pos 0 ≤ℤ calculate_nodes_needed pods capacity current max)
        × (max ≤ℤ current → calculate_nodes_needed pods capacity current max ≡ pos 0)
        × (current ≤ℤ max → current +ℤ calculate_nodes_needed pods capacity current max ≤ℤ max)
    calculate_nodes_needed-bounds = elim (≤ℤ-or-<ℤ max current) [
      | inl full ↦
          rw (calculate_nodes_needed_full full)
            (omega arith, λ _. refl, λ below. omega (arith, +ℤ_parts current (pos 0)))
      | inr room ↦ rw (calculate_nodes_needed_room room) (
          let bounds =
            nodes_for_bounds (length pods) (estimate_pods_per_node pods capacity) current max start
              (omega arith) range few in
          (bounds.0, (λ above. absurd (omega arith)), (λ _. bounds.1)))
    ]

    -- Under the same conditions, below the maximum the new nodes have room for all the pods, at `estimatePodsPerNode` pods to a
    -- node, or they fill the pool; and no smaller number has room for all.
    pub calculate_nodes_needed-enough :
        current <ℤ max
        → let needed = calculate_nodes_needed pods capacity current max in
          let per_node = groups (estimate_pods_per_node pods capacity) in
          ((length pods ≤ pos_part needed * per_node) ⊎ (current +ℤ needed ≡ max))
          × ((k : ℕ) → length pods ≤ k * per_node → pos_part needed ≤ k)
    calculate_nodes_needed-enough room = rw (calculate_nodes_needed_room room) (
        let per_node = estimate_pods_per_node pods capacity in
        (
          nodes_for_enough (length pods) per_node current max start (omega arith) range few,
          nodes_for_least (length pods) per_node current max start (omega arith) range few,
        ))
