-- ===== src/Controller/Provisioner/Launch.antt =====
-- `launchWithFallback`: the candidates in order, going on only after a capacity error.
use cloud_burst_controller.Common.{
  ℕ, String, cat, Option, none, some, List, [], ◌∷◌, str_eq, if◌then◌else◌,
}
use cloud_burst_controller.Api.{InstanceTypeConfig, AwsConfig}
use cloud_burst_controller.Cloud.{LaunchOptions}
use cloud_burst_controller.Cloud.Ec2.{is_capacity_error}
use cloud_burst_controller.Errors.{message, wrapped, Result, ok, err}
use cloud_burst_controller.Effect.{launch_node, Program, ret, panic, call}

-- The instance ID and the type of a launched instance.
pub record Launched : Type 0 where
  pub instance_id : String
  pub instance_type : String

unfoldable pub launch_options :
    AwsConfig → InstanceTypeConfig → (node_name : String) → (user_data : List ℕ) → LaunchOptions
launch_options aws candidate node_name user_data = record {
  name = node_name;
  ami = if str_eq candidate.ami "" then aws.ami else candidate.ami;
  instance_type = candidate.name;
  subnet_id = aws.subnet_id;
  security_group_ids = aws.security_group_ids;
  volume_size = aws.volume_size;
  volume_type = aws.volume_type;
  user_data = user_data;
  tags = aws.tags;
}

-- A nil AWS config is dereferenced for the first candidate.
unfoldable pub launch_with_fallback :
    Option AwsConfig
    → List InstanceTypeConfig
    → (node_name : String) → (user_data : List ℕ) → Program (Result Launched)
launch_with_fallback aws [] node_name user_data =
    ret (err (message "all instance type candidates exhausted (capacity unavailable)"))
launch_with_fallback none (c ∷ cs) node_name user_data = panic
launch_with_fallback (some aws) (c ∷ cs) node_name user_data =
    call (launch_node (launch_options aws c node_name user_data)) (elim [
      | ok id ↦ ret (ok (record { instance_id = id; instance_type = c.name }))
      | err e ↦
          if is_capacity_error e
          then launch_with_fallback (some aws) cs node_name user_data
          else ret (err (wrapped (cat "launching " c.name) e))
    ])
