-- ===== src/Cloud.antt =====
-- internal/cloud/types.go: what is launched and what is listed. `Provider` of provider.go is the part of
-- `Request` (Effect.antt) that the cloud answers.
pub mod Ec2
use cloud_burst_controller.Common.{ℕ, ℤ, String, List}
use cloud_burst_controller.Kube.{Time, TextMap}

-- `user_data` is a text, as its bytes.
pub record LaunchOptions : Type 0 where
  pub name : String
  pub ami : String
  pub instance_type : String
  pub subnet_id : String
  pub security_group_ids : List String
  pub volume_size : ℤ
  pub volume_type : String
  pub user_data : List ℕ
  pub tags : TextMap

pub record CloudNode : Type 0 where
  pub instance_id : String
  pub instance_type : String
  pub name : String
  pub state : String
  pub launched_at : Time
  pub tags : TextMap
