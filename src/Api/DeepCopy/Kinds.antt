-- ===== src/Api/DeepCopy/Kinds.antt =====
-- The types of the cells.
use cloud_burst_controller.Common.{String, Option, none, some, List, refl}
use cloud_burst_controller.Kube.{Time, TextMap}
use cloud_burst_controller.Api.{
  InstanceTypeConfig, TalosConfig, ScalingConfig, TolerationRule, ResourceRule, NodeTaint,
}
use cloud_burst_controller.Api.DeepCopy.Memory.{
  AwsConfigObject, MatchRulesObject, SpecObject, NodeStatusObject, StatusObject, PoolObject,
  PoolListObject, Kind, Cell, text_map_cell, texts_cell, instance_types_cell, node_taints_cell,
  toleration_rules_cell, resource_rules_cell, time_cell, instance_type_cell, node_taint_cell,
  toleration_rule_cell, resource_rule_cell, talos_config_cell, scaling_config_cell, aws_config_cell,
  match_rules_cell, spec_cell, node_status_cell, node_statuses_cell, status_cell, pool_cell,
  pools_cell, pool_list_cell,
}

abbrev held_text_map : Cell → Option TextMap
held_text_map (text_map_cell x) = some x
held_text_map _ = none

abbrev pub text_map_kind : Kind TextMap
text_map_kind = record { cell = text_map_cell; held = held_text_map; held_cell = λ x. refl }

abbrev held_texts : Cell → Option (List String)
held_texts (texts_cell x) = some x
held_texts _ = none

abbrev pub texts_kind : Kind (List String)
texts_kind = record { cell = texts_cell; held = held_texts; held_cell = λ x. refl }

abbrev held_instance_types : Cell → Option (List InstanceTypeConfig)
held_instance_types (instance_types_cell x) = some x
held_instance_types _ = none

abbrev pub instance_types_kind : Kind (List InstanceTypeConfig)
instance_types_kind = record {
  cell = instance_types_cell;
  held = held_instance_types;
  held_cell = λ x. refl;
}

abbrev held_node_taints : Cell → Option (List NodeTaint)
held_node_taints (node_taints_cell x) = some x
held_node_taints _ = none

abbrev pub node_taints_kind : Kind (List NodeTaint)
node_taints_kind = record {
  cell = node_taints_cell;
  held = held_node_taints;
  held_cell = λ x. refl;
}

abbrev held_toleration_rules : Cell → Option (List TolerationRule)
held_toleration_rules (toleration_rules_cell x) = some x
held_toleration_rules _ = none

abbrev pub toleration_rules_kind : Kind (List TolerationRule)
toleration_rules_kind = record {
  cell = toleration_rules_cell;
  held = held_toleration_rules;
  held_cell = λ x. refl;
}

abbrev held_resource_rules : Cell → Option (List ResourceRule)
held_resource_rules (resource_rules_cell x) = some x
held_resource_rules _ = none

abbrev pub resource_rules_kind : Kind (List ResourceRule)
resource_rules_kind = record {
  cell = resource_rules_cell;
  held = held_resource_rules;
  held_cell = λ x. refl;
}

abbrev held_time : Cell → Option Time
held_time (time_cell x) = some x
held_time _ = none

abbrev pub time_kind : Kind Time
time_kind = record { cell = time_cell; held = held_time; held_cell = λ x. refl }

abbrev held_instance_type : Cell → Option InstanceTypeConfig
held_instance_type (instance_type_cell x) = some x
held_instance_type _ = none

abbrev pub instance_type_kind : Kind InstanceTypeConfig
instance_type_kind = record {
  cell = instance_type_cell;
  held = held_instance_type;
  held_cell = λ x. refl;
}

abbrev held_node_taint : Cell → Option NodeTaint
held_node_taint (node_taint_cell x) = some x
held_node_taint _ = none

abbrev pub node_taint_kind : Kind NodeTaint
node_taint_kind = record { cell = node_taint_cell; held = held_node_taint; held_cell = λ x. refl }

abbrev held_toleration_rule : Cell → Option TolerationRule
held_toleration_rule (toleration_rule_cell x) = some x
held_toleration_rule _ = none

abbrev pub toleration_rule_kind : Kind TolerationRule
toleration_rule_kind = record {
  cell = toleration_rule_cell;
  held = held_toleration_rule;
  held_cell = λ x. refl;
}

abbrev held_resource_rule : Cell → Option ResourceRule
held_resource_rule (resource_rule_cell x) = some x
held_resource_rule _ = none

abbrev pub resource_rule_kind : Kind ResourceRule
resource_rule_kind = record {
  cell = resource_rule_cell;
  held = held_resource_rule;
  held_cell = λ x. refl;
}

abbrev held_talos_config : Cell → Option TalosConfig
held_talos_config (talos_config_cell x) = some x
held_talos_config _ = none

abbrev pub talos_config_kind : Kind TalosConfig
talos_config_kind = record {
  cell = talos_config_cell;
  held = held_talos_config;
  held_cell = λ x. refl;
}

abbrev held_scaling_config : Cell → Option ScalingConfig
held_scaling_config (scaling_config_cell x) = some x
held_scaling_config _ = none

abbrev pub scaling_config_kind : Kind ScalingConfig
scaling_config_kind = record {
  cell = scaling_config_cell;
  held = held_scaling_config;
  held_cell = λ x. refl;
}

abbrev held_aws_config : Cell → Option AwsConfigObject
held_aws_config (aws_config_cell x) = some x
held_aws_config _ = none

abbrev pub aws_config_kind : Kind AwsConfigObject
aws_config_kind = record { cell = aws_config_cell; held = held_aws_config; held_cell = λ x. refl }

abbrev held_match_rules : Cell → Option MatchRulesObject
held_match_rules (match_rules_cell x) = some x
held_match_rules _ = none

abbrev pub match_rules_kind : Kind MatchRulesObject
match_rules_kind = record {
  cell = match_rules_cell;
  held = held_match_rules;
  held_cell = λ x. refl;
}

abbrev held_spec : Cell → Option SpecObject
held_spec (spec_cell x) = some x
held_spec _ = none

abbrev pub spec_kind : Kind SpecObject
spec_kind = record { cell = spec_cell; held = held_spec; held_cell = λ x. refl }

abbrev held_node_status : Cell → Option NodeStatusObject
held_node_status (node_status_cell x) = some x
held_node_status _ = none

abbrev pub node_status_kind : Kind NodeStatusObject
node_status_kind = record {
  cell = node_status_cell;
  held = held_node_status;
  held_cell = λ x. refl;
}

abbrev held_node_statuses : Cell → Option (List NodeStatusObject)
held_node_statuses (node_statuses_cell x) = some x
held_node_statuses _ = none

abbrev pub node_statuses_kind : Kind (List NodeStatusObject)
node_statuses_kind = record {
  cell = node_statuses_cell;
  held = held_node_statuses;
  held_cell = λ x. refl;
}

abbrev held_status : Cell → Option StatusObject
held_status (status_cell x) = some x
held_status _ = none

abbrev pub status_kind : Kind StatusObject
status_kind = record { cell = status_cell; held = held_status; held_cell = λ x. refl }

abbrev held_pool : Cell → Option PoolObject
held_pool (pool_cell x) = some x
held_pool _ = none

abbrev pub pool_kind : Kind PoolObject
pool_kind = record { cell = pool_cell; held = held_pool; held_cell = λ x. refl }

abbrev held_pools : Cell → Option (List PoolObject)
held_pools (pools_cell x) = some x
held_pools _ = none

abbrev pub pools_kind : Kind (List PoolObject)
pools_kind = record { cell = pools_cell; held = held_pools; held_cell = λ x. refl }

abbrev held_pool_list : Cell → Option PoolListObject
held_pool_list (pool_list_cell x) = some x
held_pool_list _ = none

abbrev pub pool_list_kind : Kind PoolListObject
pool_list_kind = record { cell = pool_list_cell; held = held_pool_list; held_cell = λ x. refl }
