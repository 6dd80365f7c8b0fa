-- ===== src/Examples/Copies.antt =====
-- A pool in memory, and its deep copy.
use cloud_burst_controller.Common.{pos, none, some, [], ◌∷◌, ◌++◌, refl, ◌≡◌}
use cloud_burst_controller.Api.{running}
use cloud_burst_controller.Api.DeepCopy.Memory.{
  AwsConfigObject, NodeStatusObject, PoolObject, Memory, texts_cell, instance_types_cell,
  toleration_rules_cell, time_cell, aws_config_cell, node_statuses_cell, pool_cell,
}
use cloud_burst_controller.Api.DeepCopy.{
  pool_object, deep_copy_object, aws_config_into, match_rules_into, spec_into, status_into,
  node_status_into, pool_into, time_into, copy_at, copy_each, deep_copy_pool, deep_copy_pool_object,
}
use cloud_burst_controller.Api.DeepCopy.Views.{SeesAwsConfig, SeesPool, one_pool}
use cloud_burst_controller.Api.DeepCopy.Independent.{Apart, deep_copy_object-Apart}
use cloud_burst_controller.Examples.{medium, large, aws_config, running_pool}

abbrev aws_object : AwsConfigObject
aws_object = record {
  region = "us-west-2";
  ami = "ami-1";
  instance_type = "";
  instance_types = some 0;
  subnet_id = "subnet-1";
  security_group_ids = some 1;
  volume_size = pos 50;
  volume_type = "gp3";
  tags = none;
}

abbrev node_object : NodeStatusObject
node_object = record {
  name = "burst-a";
  instance_id = "i-1";
  instance_type = "t3.medium";
  state = running;
  launched_at = 0;
  ready_at = none;
  last_pod_finished = some 4;
}

abbrev pool_in_memory : PoolObject
pool_in_memory = record {
  namespace = "default";
  name = "a";
  spec = record {
    cloud = "aws";
    aws = some 2;
    talos = running_pool.spec.talos;
    scaling = running_pool.spec.scaling;
    match_rules = record { tolerations = some 3; node_affinity_labels = none; resources = none };
    node_labels = none;
    node_taints = none;
  };
  status = record { active_nodes = pos 1; pending_nodes = pos 0; nodes = some 5 };
}

abbrev memory : Memory
memory =
    instance_types_cell (large ∷ medium ∷ [])
    ∷ texts_cell ("sg-1" ∷ [])
    ∷ aws_config_cell aws_object
    ∷ toleration_rules_cell running_pool.spec.match_rules.tolerations
    ∷ time_cell 0
    ∷ node_statuses_cell (node_object ∷ [])
    ∷ pool_cell pool_in_memory
    ∷ []

aws_seen : SeesAwsConfig memory aws_object aws_config
aws_seen = record {
  same = refl;
  types = (large ∷ medium ∷ [], refl, refl);
  ids = ("sg-1" ∷ [], refl, refl);
  tags = refl;
}

pool_seen : SeesPool memory pool_in_memory running_pool
pool_seen = record {
  namespace = refl;
  name = refl;
  spec_seen = record {
    same = refl;
    aws_config = (aws_object, refl, (aws_config, refl, aws_seen));
    rules = record {
      tolerations = (running_pool.spec.match_rules.tolerations, refl, refl);
      labels = refl;
      resources = refl;
    };
    labels = refl;
    taints = refl;
  };
  status_seen = record {
    active_nodes = refl;
    pending_nodes = refl;
    nodes = (
      node_object ∷ [],
      refl,
      (record { same = refl; ready = refl; finished = (0, refl, (0, refl, refl)) }, tt),
    );
  };
}

deep_copy_object-Apart_example :
    Apart (λ t. t) (λ t. refl) memory (pool_object (some 6)) (one_pool (some running_pool))
deep_copy_object-Apart_example =
    deep_copy_object-Apart (λ t. t) (λ t. refl) memory (pool_object (some 6))
      (one_pool (some running_pool)) (pool_in_memory, refl, (running_pool, refl, pool_seen))

-- The cells of the copy come after those of the original, and point to one another.
abbrev copied_cells : Memory
copied_cells =
    instance_types_cell (large ∷ medium ∷ [])
    ∷ texts_cell ("sg-1" ∷ [])
    ∷ aws_config_cell (record aws_object { instance_types = some 7; security_group_ids = some 8 })
    ∷ toleration_rules_cell running_pool.spec.match_rules.tolerations
    ∷ time_cell 0
    ∷ node_statuses_cell ((record node_object { last_pod_finished = some 11 }) ∷ [])
    ∷ pool_cell (record pool_in_memory {
      spec = record pool_in_memory.spec {
        aws = some 9;
        match_rules = record pool_in_memory.spec.match_rules { tolerations = some 10 };
      };
      status = record pool_in_memory.status { nodes = some 12 };
    })
    ∷ []

copied_at_end :
    deep_copy_object (λ t. t) (pool_object (some 6)) memory
    ≡ some (some (pool_object (some 13)), memory ++ copied_cells)
unfolding deep_copy_object deep_copy_pool_object deep_copy_pool copy_at copy_each pool_into
    spec_into aws_config_into match_rules_into status_into node_status_into time_into
copied_at_end = refl

nil_copied : deep_copy_object (λ t. t) (pool_object none) memory ≡ some (none, memory)
unfolding deep_copy_object deep_copy_pool_object deep_copy_pool copy_at
nil_copied = refl
