-- ===== src/Controller/NodeStatus.antt =====
-- The node entries of a pool's status, as the reconcilers of internal/controller search and change
-- them: the loops over `pool.Status.Nodes`, and the pair of slices around the index that they find.
pub mod Valid
pub mod Storing
pub mod Entries
use cloud_burst_controller.Common.{
  String, ℤ, pos, ◌+ℤ◌, ◌-ℤ◌, int32, ltb_ℤ, Bool, Option, none, some, List, [], ◌∷◌, ◌++◌, str_eq,
  if◌then◌else◌,
}
use cloud_burst_controller.Api.{NodeState, BurstNodeStatus, BurstNodePoolStatus, BurstNodePool}

-- `nodes[:j]`, `nodes[j]` and `nodes[j+1:]`.
pub record Split : Type 0 where
  pub before : List BurstNodeStatus
  pub entry : BurstNodeStatus
  pub after : List BurstNodeStatus

abbrev pub push_front : BurstNodeStatus → Option Split → Option Split
push_front n none = none
push_front n (some s) = some (record s { before = n ∷ s.before })

-- The first entry that passes a test.
unfoldable pub find_node : (BurstNodeStatus → Bool) → List BurstNodeStatus → Option Split
find_node test [] = none
find_node test (n ∷ ns) =
    if test n
    then some (record { before = []; entry = n; after = ns })
    else push_front n (find_node test ns)

pub record Found : Type 0 where
  pub pool : BurstNodePool
  pub split : Split

abbrev pub found_in : BurstNodePool → Option Split → Option Found → Option Found
found_in pool none rest = rest
found_in pool (some s) rest = some (record { pool = pool; split = s })

-- The first such entry of the first pool that has one.
unfoldable pub find_pool_and_node : (BurstNodeStatus → Bool) → List BurstNodePool → Option Found
find_pool_and_node test [] = none
find_pool_and_node test (p ∷ ps) =
    found_in p (find_node test p.status.nodes) (find_pool_and_node test ps)

unfoldable pub has_name : String → BurstNodeStatus → Bool
has_name name n = str_eq n.name name

-- The status with the found entry changed, and with it removed.
unfoldable pub with_entry : Found → BurstNodeStatus → BurstNodePool
with_entry f entry = record f.pool {
  status = record f.pool.status { nodes = f.split.before ++ entry ∷ f.split.after };
}

unfoldable pub without_entry : Found → BurstNodePoolStatus
without_entry f = record f.pool.status { nodes = f.split.before ++ f.split.after }

-- `x++` and `x--` on an int32, and `if x < 0 { x = 0 }`.
unfoldable pub increment : ℤ → ℤ
increment x = int32 (x +ℤ pos 1)

unfoldable pub decrement : ℤ → ℤ
decrement x = int32 (x -ℤ pos 1)

unfoldable pub at_least_zero : ℤ → ℤ
at_least_zero x = if ltb_ℤ x (pos 0) then pos 0 else x
