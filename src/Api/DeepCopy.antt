-- ===== src/Api/DeepCopy.antt =====
-- api/v1alpha1/zz_generated.deepcopy.go: the deep copies of the custom resource and of its parts. A struct
-- is copied as a value, and what it points to into new cells; the cell of a slice or of a struct is
-- allocated when its content is known. `DeepCopy` of the API machinery's `Time` is a parameter.
pub mod Memory
mod Kinds
mod Fresh
mod View
pub mod Views
pub mod Independent
use cloud_burst_controller.Common.{Option, none, some, List, [], ◌∷◌}
use cloud_burst_controller.Kube.{Time}
use cloud_burst_controller.Api.DeepCopy.Memory.{
  Ref, AwsConfigObject, MatchRulesObject, SpecObject, NodeStatusObject, StatusObject, PoolObject,
  PoolListObject, Copy, ◌>>=◌, give, alloc, Kind, load,
}
use cloud_burst_controller.Api.DeepCopy.Kinds.{
  text_map_kind, texts_kind, instance_types_kind, node_taints_kind, toleration_rules_kind,
  resource_rules_kind, time_kind, instance_type_kind, node_taint_kind, toleration_rule_kind,
  resource_rule_kind, talos_config_kind, scaling_config_kind, aws_config_kind, match_rules_kind,
  spec_kind, node_status_kind, node_statuses_kind, status_kind, pool_kind, pools_kind,
  pool_list_kind,
}

-- Through a pointer, a slice or a map: nil stays nil; else the content is copied to a new cell.
module _ {R : Type 0} (kind : Kind R) (into : R → Copy R) where
  unfoldable pub copy_at : Option Ref → Copy (Option Ref)
  copy_at none = give none
  copy_at (some r) = do x ← load kind r; y ← into x; out ← alloc (kind.cell y); give (some out)

-- The loop over the elements of a slice.
module _ {R : Type 0} (into : R → Copy R) where
  unfoldable pub copy_each : List R → Copy (List R)
  copy_each [] = give []
  copy_each (x ∷ xs) = do y ← into x; ys ← copy_each xs; give (y ∷ ys)

-- `*out = *in` alone.
abbrev pub assign : {R : Type 0} → R → Copy R
assign x = give x

unfoldable pub aws_config_into : AwsConfigObject → Copy AwsConfigObject
aws_config_into c = do
  types ← copy_at instance_types_kind assign c.instance_types
  ids ← copy_at texts_kind assign c.security_group_ids
  tags ← copy_at text_map_kind assign c.tags
  give (record c { instance_types = types; security_group_ids = ids; tags = tags })

unfoldable pub match_rules_into : MatchRulesObject → Copy MatchRulesObject
match_rules_into c = do
  tolerations ← copy_at toleration_rules_kind assign c.tolerations
  labels ← copy_at text_map_kind assign c.node_affinity_labels
  resources ← copy_at resource_rules_kind assign c.resources
  give
      (record c { tolerations = tolerations; node_affinity_labels = labels; resources = resources })

unfoldable pub spec_into : SpecObject → Copy SpecObject
spec_into c = do
  aws ← copy_at aws_config_kind aws_config_into c.aws
  rules ← match_rules_into c.match_rules
  labels ← copy_at text_map_kind assign c.node_labels
  taints ← copy_at node_taints_kind assign c.node_taints
  give (record c { aws = aws; match_rules = rules; node_labels = labels; node_taints = taints })

unfoldable pub deep_copy_aws_config : Option Ref → Copy (Option Ref)
deep_copy_aws_config = copy_at aws_config_kind aws_config_into

unfoldable pub deep_copy_match_rules : Option Ref → Copy (Option Ref)
deep_copy_match_rules = copy_at match_rules_kind match_rules_into

unfoldable pub deep_copy_spec : Option Ref → Copy (Option Ref)
deep_copy_spec = copy_at spec_kind spec_into

unfoldable pub deep_copy_instance_type : Option Ref → Copy (Option Ref)
deep_copy_instance_type = copy_at instance_type_kind assign

unfoldable pub deep_copy_node_taint : Option Ref → Copy (Option Ref)
deep_copy_node_taint = copy_at node_taint_kind assign

unfoldable pub deep_copy_resource_rule : Option Ref → Copy (Option Ref)
deep_copy_resource_rule = copy_at resource_rule_kind assign

unfoldable pub deep_copy_scaling_config : Option Ref → Copy (Option Ref)
deep_copy_scaling_config = copy_at scaling_config_kind assign

unfoldable pub deep_copy_talos_config : Option Ref → Copy (Option Ref)
deep_copy_talos_config = copy_at talos_config_kind assign

unfoldable pub deep_copy_toleration_rule : Option Ref → Copy (Option Ref)
deep_copy_toleration_rule = copy_at toleration_rule_kind assign

-- A pointer to a pool, or to a list of pools, as a `runtime.Object`.
pub data RuntimeObject : Type 0 where
  pool_object list_object : Option Ref → RuntimeObject

-- The nil interface for a nil pointer.
abbrev pub unless_nil : (Option Ref → RuntimeObject) → Option Ref → Option RuntimeObject
unless_nil object none = none
unless_nil object (some r) = some (object (some r))

module _ (copy_time : Time → Time) where
  -- `DeepCopy` of a `Time`.
  unfoldable pub time_into : Time → Copy Time
  time_into t = give (copy_time t)

  unfoldable pub node_status_into : NodeStatusObject → Copy NodeStatusObject
  node_status_into c = do
    launched ← time_into c.launched_at
    ready ← copy_at time_kind time_into c.ready_at
    finished ← copy_at time_kind time_into c.last_pod_finished
    give (record c { launched_at = launched; ready_at = ready; last_pod_finished = finished })

  unfoldable pub status_into : StatusObject → Copy StatusObject
  status_into c = do
    nodes ← copy_at node_statuses_kind (copy_each node_status_into) c.nodes
    give (record c { nodes = nodes })

  unfoldable pub pool_into : PoolObject → Copy PoolObject
  pool_into c = do
    spec ← spec_into c.spec
    status ← status_into c.status
    give (record c { spec = spec; status = status })

  unfoldable pub pool_list_into : PoolListObject → Copy PoolListObject
  pool_list_into c = do
    items ← copy_at pools_kind (copy_each pool_into) c.items
    give (record c { items = items })

  unfoldable pub deep_copy_node_status : Option Ref → Copy (Option Ref)
  deep_copy_node_status = copy_at node_status_kind node_status_into

  unfoldable pub deep_copy_status : Option Ref → Copy (Option Ref)
  deep_copy_status = copy_at status_kind status_into

  unfoldable pub deep_copy_pool : Option Ref → Copy (Option Ref)
  deep_copy_pool = copy_at pool_kind pool_into

  unfoldable pub deep_copy_pool_list : Option Ref → Copy (Option Ref)
  deep_copy_pool_list = copy_at pool_list_kind pool_list_into

  unfoldable pub deep_copy_pool_object : Option Ref → Copy (Option RuntimeObject)
  deep_copy_pool_object o = do c ← deep_copy_pool o; give (unless_nil pool_object c)

  unfoldable pub deep_copy_list_object : Option Ref → Copy (Option RuntimeObject)
  deep_copy_list_object o = do c ← deep_copy_pool_list o; give (unless_nil list_object c)

  -- The call of `DeepCopyObject` through the interface.
  unfoldable pub deep_copy_object : RuntimeObject → Copy (Option RuntimeObject)
  deep_copy_object (pool_object o) = deep_copy_pool_object o
  deep_copy_object (list_object o) = deep_copy_list_object o
