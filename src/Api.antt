-- ===== src/Api.antt =====
-- api/v1alpha1/burstnodepool_types.go: the custom resource, its configuration and its status.
-- A nil pointer is `none`, an int32 or int64 an integer, an omitted text the empty text.
pub mod Resolve
pub mod Scheme
pub mod DeepCopy
use cloud_burst_controller.Common.{ℤ, String, Option, List}
use cloud_burst_controller.Kube.{Time, Duration, TextMap}

pub record InstanceTypeConfig : Type 0 where
  pub name : String
  pub ami : String
  pub architecture : String

pub record AwsConfig : Type 0 where
  pub region : String
  pub ami : String
  pub instance_type : String
  pub instance_types : List InstanceTypeConfig
  pub subnet_id : String
  pub security_group_ids : List String
  pub volume_size : ℤ
  pub volume_type : String
  pub tags : TextMap

pub record TalosConfig : Type 0 where
  pub machine_config_secret : String
  pub machine_config_key : String

pub record ScalingConfig : Type 0 where
  pub max_nodes : ℤ
  pub cooldown_period : Duration
  pub boot_timeout : Duration

pub record TolerationRule : Type 0 where
  pub key : String
  pub operator : String
  pub value : String

pub record ResourceRule : Type 0 where
  pub resource_name : String
  pub operator : String

pub record MatchRules : Type 0 where
  pub tolerations : List TolerationRule
  pub node_affinity_labels : TextMap
  pub resources : List ResourceRule

pub record NodeTaint : Type 0 where
  pub key : String
  pub value : String
  pub effect : String

pub record BurstNodePoolSpec : Type 0 where
  pub cloud : String
  pub aws : Option AwsConfig
  pub talos : TalosConfig
  pub scaling : ScalingConfig
  pub match_rules : MatchRules
  pub node_labels : TextMap
  pub node_taints : List NodeTaint

pub data NodeState : Type 0 where
  pending running cordoned draining terminating : NodeState

pub record BurstNodeStatus : Type 0 where
  pub name : String
  pub instance_id : String
  pub instance_type : String
  pub state : NodeState
  pub launched_at : Time
  pub ready_at : Option Time
  pub last_pod_finished : Option Time

pub record BurstNodePoolStatus : Type 0 where
  pub active_nodes : ℤ
  pub pending_nodes : ℤ
  pub nodes : List BurstNodeStatus

pub record BurstNodePool : Type 0 where
  pub namespace : String
  pub name : String
  pub spec : BurstNodePoolSpec
  pub status : BurstNodePoolStatus
