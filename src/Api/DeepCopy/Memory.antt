-- ===== src/Api/DeepCopy/Memory.antt =====
-- The memory that the deep copies read and extend. A pointer, a slice or a map is nil (`none`) or the
-- place of a cell; a cell holds what `new` or `make` allocated, and a struct in a cell holds other structs
-- and pointers to other cells. The objects have the fields of the types in Api.
use cloud_burst_controller.Common.{
  ℕ, ◌≡◌, ℤ, String, Option, none, some, List, [], ◌∷◌, ◌++◌, length, get_elem?,
}
use cloud_burst_controller.Kube.{Time, TextMap}
use cloud_burst_controller.Api.{
  InstanceTypeConfig, TalosConfig, ScalingConfig, TolerationRule, ResourceRule, NodeTaint,
  NodeState,
}

abbrev pub Ref : Type 0
Ref = ℕ

pub record AwsConfigObject : Type 0 where
  pub region : String
  pub ami : String
  pub instance_type : String
  pub instance_types : Option Ref
  pub subnet_id : String
  pub security_group_ids : Option Ref
  pub volume_size : ℤ
  pub volume_type : String
  pub tags : Option Ref

pub record MatchRulesObject : Type 0 where
  pub tolerations : Option Ref
  pub node_affinity_labels : Option Ref
  pub resources : Option Ref

pub record SpecObject : Type 0 where
  pub cloud : String
  pub aws : Option Ref
  pub talos : TalosConfig
  pub scaling : ScalingConfig
  pub match_rules : MatchRulesObject
  pub node_labels : Option Ref
  pub node_taints : Option Ref

pub record NodeStatusObject : Type 0 where
  pub name : String
  pub instance_id : String
  pub instance_type : String
  pub state : NodeState
  pub launched_at : Time
  pub ready_at : Option Ref
  pub last_pod_finished : Option Ref

pub record StatusObject : Type 0 where
  pub active_nodes : ℤ
  pub pending_nodes : ℤ
  pub nodes : Option Ref

pub record PoolObject : Type 0 where
  pub namespace : String
  pub name : String
  pub spec : SpecObject
  pub status : StatusObject

pub record PoolListObject : Type 0 where
  pub items : Option Ref

pub data Cell : Type 0 where
  text_map_cell : TextMap → Cell
  texts_cell : List String → Cell
  instance_types_cell : List InstanceTypeConfig → Cell
  node_taints_cell : List NodeTaint → Cell
  toleration_rules_cell : List TolerationRule → Cell
  resource_rules_cell : List ResourceRule → Cell
  time_cell : Time → Cell
  instance_type_cell : InstanceTypeConfig → Cell
  node_taint_cell : NodeTaint → Cell
  toleration_rule_cell : TolerationRule → Cell
  resource_rule_cell : ResourceRule → Cell
  talos_config_cell : TalosConfig → Cell
  scaling_config_cell : ScalingConfig → Cell
  aws_config_cell : AwsConfigObject → Cell
  match_rules_cell : MatchRulesObject → Cell
  spec_cell : SpecObject → Cell
  node_status_cell : NodeStatusObject → Cell
  node_statuses_cell : List NodeStatusObject → Cell
  status_cell : StatusObject → Cell
  pool_cell : PoolObject → Cell
  pools_cell : List PoolObject → Cell
  pool_list_cell : PoolListObject → Cell

abbrev pub Memory : Type 0
Memory = List Cell

-- A command: its result and the memory after it, or nothing when it dereferences a place without such a
-- cell, which stands for a panic.
abbrev pub Copy : Type 0 → Type 0
Copy A = Memory → Option (A × Memory)

module _ {A B : Type 0} where
  abbrev pub and_then : Option (A × Memory) → (A → Copy B) → Option (B × Memory)
  and_then none k = none
  and_then (some (a, h)) k = k a h

  infixl 5 ◌>>=◌
  abbrev pub ◌>>=◌ : Copy A → (A → Copy B) → Copy B
  m >>= k = λ h. and_then (m h) k

abbrev pub give : {A : Type 0} → A → Copy A
give a h = some (a, h)

-- `new` and `make`, with what is then put there.
abbrev pub alloc : Cell → Copy Ref
alloc c h = some (length h, h ++ c ∷ [])

-- The cells of one type: how they are made, and what they hold.
pub record Kind (R : Type 0) : Type 0 where
  pub cell : R → Cell
  pub held : Cell → Option R
  pub held_cell : (x : R) → held (cell x) ≡ some x

module _ {R : Type 0} (kind : Kind R) where
  abbrev pub holding : Option Cell → Option R
  holding none = none
  holding (some c) = kind.held c

  -- What is at a place, if it is of this type.
  abbrev pub look : Memory → Ref → Option R
  look h r = holding (get_elem? h r)

  abbrev pub found : Memory → Option R → Option (R × Memory)
  found h none = none
  found h (some x) = some (x, h)

  abbrev pub load : Ref → Copy R
  load r h = found h (look h r)
