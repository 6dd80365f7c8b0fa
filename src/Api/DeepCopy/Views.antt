-- ===== src/Api/DeepCopy/Views.antt =====
-- Which value of Api each object shows. A nil slice or map shows the empty one, a nil pointer `none`.
use cloud_burst_controller.Common.{◌≡◌, String, Option, none, some, List, []}
use cloud_burst_controller.Kube.{Time, TextMap}
use cloud_burst_controller.Api.{
  InstanceTypeConfig, AwsConfig, TolerationRule, ResourceRule, MatchRules, NodeTaint,
  BurstNodePoolSpec, BurstNodeStatus, BurstNodePoolStatus, BurstNodePool,
}
use cloud_burst_controller.Api.DeepCopy.Memory.{
  Ref, AwsConfigObject, MatchRulesObject, SpecObject, NodeStatusObject, StatusObject, PoolObject,
  PoolListObject, Memory,
}
use cloud_burst_controller.Api.DeepCopy.Kinds.{
  text_map_kind, texts_kind, instance_types_kind, node_taints_kind, toleration_rules_kind,
  resource_rules_kind, time_kind, aws_config_kind, node_statuses_kind, pool_kind, pools_kind,
  pool_list_kind,
}
use cloud_burst_controller.Api.DeepCopy.{RuntimeObject, pool_object, list_object}
use cloud_burst_controller.Api.DeepCopy.View.{View, plain, each, present, through}

abbrev pub texts : View (Option Ref) (List String)
texts = through plain texts_kind []

abbrev pub text_map : View (Option Ref) TextMap
text_map = through plain text_map_kind []

abbrev pub instance_types : View (Option Ref) (List InstanceTypeConfig)
instance_types = through plain instance_types_kind []

abbrev pub node_taints : View (Option Ref) (List NodeTaint)
node_taints = through plain node_taints_kind []

abbrev pub toleration_rules : View (Option Ref) (List TolerationRule)
toleration_rules = through plain toleration_rules_kind []

abbrev pub resource_rules : View (Option Ref) (List ResourceRule)
resource_rules = through plain resource_rules_kind []

abbrev pub time : View (Option Ref) (Option Time)
time = through (present plain) time_kind none

-- The fields of an object that are not pointers, with the values of the others.
abbrev pub aws_config_of :
    AwsConfigObject → List InstanceTypeConfig → List String → TextMap → AwsConfig
aws_config_of c types ids tags = record {
  region = c.region;
  ami = c.ami;
  instance_type = c.instance_type;
  instance_types = types;
  subnet_id = c.subnet_id;
  security_group_ids = ids;
  volume_size = c.volume_size;
  volume_type = c.volume_type;
  tags = tags;
}

pub record SeesAwsConfig (h : Memory) (c : AwsConfigObject) (v : AwsConfig) : Type 0 where
  pub same : v ≡ aws_config_of c v.instance_types v.security_group_ids v.tags
  pub types : instance_types.Sees h c.instance_types v.instance_types
  pub ids : texts.Sees h c.security_group_ids v.security_group_ids
  pub tags : text_map.Sees h c.tags v.tags

abbrev pub aws_config : View AwsConfigObject AwsConfig
aws_config = record {
  Sees = SeesAwsConfig;
  grows = λ h more c v s. record {
    same = s.same;
    types = instance_types.grows h more c.instance_types v.instance_types s.types;
    ids = texts.grows h more c.security_group_ids v.security_group_ids s.ids;
    tags = text_map.grows h more c.tags v.tags s.tags;
  };
}

abbrev pub aws : View (Option Ref) (Option AwsConfig)
aws = through (present aws_config) aws_config_kind none

pub record SeesMatchRules (h : Memory) (c : MatchRulesObject) (v : MatchRules) : Type 0 where
  pub tolerations : toleration_rules.Sees h c.tolerations v.tolerations
  pub labels : text_map.Sees h c.node_affinity_labels v.node_affinity_labels
  pub resources : resource_rules.Sees h c.resources v.resources

abbrev pub match_rules : View MatchRulesObject MatchRules
match_rules = record {
  Sees = SeesMatchRules;
  grows = λ h more c v s. record {
    tolerations = toleration_rules.grows h more c.tolerations v.tolerations s.tolerations;
    labels = text_map.grows h more c.node_affinity_labels v.node_affinity_labels s.labels;
    resources = resource_rules.grows h more c.resources v.resources s.resources;
  };
}

abbrev pub spec_of :
    SpecObject → Option AwsConfig → MatchRules → TextMap → List NodeTaint → BurstNodePoolSpec
spec_of c aws_value rules labels taints = record {
  cloud = c.cloud;
  aws = aws_value;
  talos = c.talos;
  scaling = c.scaling;
  match_rules = rules;
  node_labels = labels;
  node_taints = taints;
}

pub record SeesSpec (h : Memory) (c : SpecObject) (v : BurstNodePoolSpec) : Type 0 where
  pub same : v ≡ spec_of c v.aws v.match_rules v.node_labels v.node_taints
  pub aws_config : aws.Sees h c.aws v.aws
  pub rules : match_rules.Sees h c.match_rules v.match_rules
  pub labels : text_map.Sees h c.node_labels v.node_labels
  pub taints : node_taints.Sees h c.node_taints v.node_taints

abbrev pub spec : View SpecObject BurstNodePoolSpec
spec = record {
  Sees = SeesSpec;
  grows = λ h more c v s. record {
    same = s.same;
    aws_config = aws.grows h more c.aws v.aws s.aws_config;
    rules = match_rules.grows h more c.match_rules v.match_rules s.rules;
    labels = text_map.grows h more c.node_labels v.node_labels s.labels;
    taints = node_taints.grows h more c.node_taints v.node_taints s.taints;
  };
}

abbrev pub node_status_of : NodeStatusObject → Option Time → Option Time → BurstNodeStatus
node_status_of c ready finished = record {
  name = c.name;
  instance_id = c.instance_id;
  instance_type = c.instance_type;
  state = c.state;
  launched_at = c.launched_at;
  ready_at = ready;
  last_pod_finished = finished;
}

pub record SeesNodeStatus (h : Memory) (c : NodeStatusObject) (v : BurstNodeStatus) : Type 0 where
  pub same : v ≡ node_status_of c v.ready_at v.last_pod_finished
  pub ready : time.Sees h c.ready_at v.ready_at
  pub finished : time.Sees h c.last_pod_finished v.last_pod_finished

abbrev pub node_status : View NodeStatusObject BurstNodeStatus
node_status = record {
  Sees = SeesNodeStatus;
  grows = λ h more c v s. record {
    same = s.same;
    ready = time.grows h more c.ready_at v.ready_at s.ready;
    finished = time.grows h more c.last_pod_finished v.last_pod_finished s.finished;
  };
}

abbrev pub node_statuses : View (Option Ref) (List BurstNodeStatus)
node_statuses = through (each node_status) node_statuses_kind []

pub record SeesStatus (h : Memory) (c : StatusObject) (v : BurstNodePoolStatus) : Type 0 where
  pub active_nodes : v.active_nodes ≡ c.active_nodes
  pub pending_nodes : v.pending_nodes ≡ c.pending_nodes
  pub nodes : node_statuses.Sees h c.nodes v.nodes

abbrev pub status : View StatusObject BurstNodePoolStatus
status = record {
  Sees = SeesStatus;
  grows = λ h more c v s. record {
    active_nodes = s.active_nodes;
    pending_nodes = s.pending_nodes;
    nodes = node_statuses.grows h more c.nodes v.nodes s.nodes;
  };
}

pub record SeesPool (h : Memory) (c : PoolObject) (v : BurstNodePool) : Type 0 where
  pub namespace : v.namespace ≡ c.namespace
  pub name : v.name ≡ c.name
  pub spec_seen : spec.Sees h c.spec v.spec
  pub status_seen : status.Sees h c.status v.status

abbrev pub pool : View PoolObject BurstNodePool
pool = record {
  Sees = SeesPool;
  grows = λ h more c v s. record {
    namespace = s.namespace;
    name = s.name;
    spec_seen = spec.grows h more c.spec v.spec s.spec_seen;
    status_seen = status.grows h more c.status v.status s.status_seen;
  };
}

abbrev pub pools : View (Option Ref) (List BurstNodePool)
pools = through (each pool) pools_kind []

abbrev pub pool_list : View PoolListObject (List BurstNodePool)
pool_list = record {
  Sees = λ h c vs. pools.Sees h c.items vs;
  grows = λ h more c vs s. pools.grows h more c.items vs s;
}

-- What the pointer in a `runtime.Object` shows.
pub data Shown : Type 0 where
  one_pool : Option BurstNodePool → Shown
  some_pools : Option (List BurstNodePool) → Shown

abbrev pub pool_pointer : View (Option Ref) (Option BurstNodePool)
pool_pointer = through (present pool) pool_kind none

abbrev pub list_pointer : View (Option Ref) (Option (List BurstNodePool))
list_pointer = through (present pool_list) pool_list_kind none

abbrev pub SeesObject : Memory → RuntimeObject → Shown → Type 0
SeesObject h (pool_object o) (one_pool v) = pool_pointer.Sees h o v
SeesObject h (list_object o) (some_pools v) = list_pointer.Sees h o v
SeesObject h _ _ = ⊥

-- The nil interface shows a nil pointer.
abbrev pub SeesResult : Memory → Option RuntimeObject → Shown → Type 0
SeesResult h none (one_pool v) = v ≡ none
SeesResult h none (some_pools v) = v ≡ none
SeesResult h (some o) shown = SeesObject h o shown
