-- ===== src/Examples.antt =====
-- A small cluster for the tests: one burst pool, a pod that waits for it, a burst node, and an
-- environment that answers each call from them.
mod Runs
mod Decisions
mod Selection
mod Traces
mod Liveness
mod Provisioning
mod Machines
mod Events
mod Starting
mod Copies
mod Server
use cloud_burst_controller.Common.{
  ℕ, ℤ, pos, String, Bool, true, false, Option, none, some, List, [], ◌∷◌, ◌≡◌, refl, arith,
  str_lt_asymm, str_lt-trans_not, inl, inr, Bool-cases, str_eq, eq_iff,
}
use cloud_burst_controller.Common.Sorting.{Sorter, IsOrder, insertion_sorter}
use cloud_burst_controller.Kube.{
  Time, Duration, Quantity, Condition, Toleration, Container, NamespacedName, Pod, Node, Secret,
}
use cloud_burst_controller.Api.{
  InstanceTypeConfig, AwsConfig, TolerationRule, NodeState, pending, running, cordoned, draining,
  terminating, BurstNodeStatus, BurstNodePoolStatus, BurstNodePool,
}
use cloud_burst_controller.Errors.{Result, ok, err}
use cloud_burst_controller.Cloud.{CloudNode}
use cloud_burst_controller.Talos.{Yaml, mapping, end, field}
use cloud_burst_controller.Effect.{
  Request, Response, get_pod, list_pods, list_pods_on, update_pod, get_pool, list_pools,
  update_pool_status, get_secret, get_node, list_managed_nodes, update_node, delete_node,
  run_node_drain, launch_node, terminate_node, list_managed_instances, now, random_bytes, seconds,
}
use cloud_burst_controller.Effect.Contract.{Environment}
use cloud_burst_controller.Controller.Matching.{name_less}
use cloud_burst_controller.Controller.Selector.{type_less}
use cloud_burst_controller.Controller.Selector.Fits.{type_less-IsOrder}
use cloud_burst_controller.Controller.NodeStatus.Valid.{weigh, IsValid}

pub name_less-IsOrder : IsOrder name_less
name_less-IsOrder = record {
  asymm = λ p q. str_lt_asymm p.name q.name;
  trans_not = λ p q r. str_lt-trans_not p.name q.name r.name;
}

abbrev pub pool_sorter : Sorter name_less
pool_sorter = insertion_sorter name_less name_less-IsOrder

abbrev pub type_sorter : Sorter type_less
type_sorter = insertion_sorter type_less type_less-IsOrder

abbrev pub medium : InstanceTypeConfig
medium = record { name = "t3.medium"; ami = ""; architecture = "" }

abbrev pub large : InstanceTypeConfig
large = record { name = "t3.large"; ami = ""; architecture = "" }

abbrev pub aws_config : AwsConfig
aws_config = record {
  region = "us-west-2";
  ami = "ami-1";
  instance_type = "";
  instance_types = large ∷ medium ∷ [];
  subnet_id = "subnet-1";
  security_group_ids = "sg-1" ∷ [];
  volume_size = pos 50;
  volume_type = "gp3";
  tags = [];
}

-- An entry in a state, launched at time 0 and idle since then.
abbrev pub entry_in : NodeState → BurstNodeStatus
entry_in state = record {
  name = "burst-a";
  instance_id = "i-1";
  instance_type = "t3.medium";
  state = state;
  launched_at = 0;
  ready_at = none;
  last_pod_finished = some 0;
}

-- The pool with a maximum of five nodes and these counters and entries.
abbrev pub pool_with : String → (active pending_count : ℤ) → List BurstNodeStatus → BurstNodePool
pool_with name active pending_count nodes = record {
  namespace = "default";
  name = name;
  spec = record {
    cloud = "aws";
    aws = some aws_config;
    talos = record { machine_config_secret = "talos"; machine_config_key = "" };
    scaling = record {
      max_nodes = pos 5;
      cooldown_period = seconds 300;
      boot_timeout = seconds 300;
    };
    match_rules = record {
      tolerations = record { key = "burst"; operator = "Exists"; value = "" } ∷ [];
      node_affinity_labels = [];
      resources = [];
    };
    node_labels = [];
    node_taints = [];
  };
  status = record { active_nodes = active; pending_nodes = pending_count; nodes = nodes };
}

abbrev pub running_pool : BurstNodePool
running_pool = pool_with "a" (pos 1) (pos 0) (entry_in running ∷ [])

abbrev pub pending_pool : BurstNodePool
pending_pool = pool_with "a" (pos 0) (pos 1) (entry_in pending ∷ [])

abbrev pub terminating_pool : BurstNodePool
terminating_pool = pool_with "a" (pos 1) (pos 0) (entry_in terminating ∷ [])

pub running_pool-IsValid : IsValid running_pool.status
unfolding weigh
running_pool-IsValid = record {
  pending_counted = refl;
  active_counted = refl;
  in_range = omega arith;
}

pub pending_pool-IsValid : IsValid pending_pool.status
unfolding weigh
pending_pool-IsValid = record {
  pending_counted = refl;
  active_counted = refl;
  in_range = omega arith;
}

pub terminating_pool-IsValid : IsValid terminating_pool.status
unfolding weigh
terminating_pool-IsValid = record {
  pending_counted = refl;
  active_counted = refl;
  in_range = omega arith;
}

-- It asks for half a CPU and 1000 MB.
abbrev pub waiting_pod : Pod
waiting_pod = record {
  namespace = "default";
  name = "job";
  labels = ("burst.homelab.dev/enabled", "true") ∷ [];
  annotations = [];
  owner_kinds = "Job" ∷ [];
  containers =
      record {
        requests =
            ("cpu", record { milli_value = pos 500; scaled_mega = pos 1; value = pos 1 })
            ∷ (
              "memory",
              record {
                milli_value = pos 1000000000000;
                scaled_mega = pos 1000;
                value = pos 1000000000;
              },
            )
            ∷ [];
        limits = [];
      }
      ∷ [];
  tolerations = record { key = "burst"; value = "" } ∷ [];
  affinity = none;
  node_name = "";
  phase = "Pending";
  conditions =
      record {
        kind = "PodScheduled";
        status = "False";
        reason = "Unschedulable";
        last_transition_time = 1000000000;
      }
      ∷ [];
}

-- A YAML library that reads every text as a config with an empty `machine`, and prints nothing.
abbrev pub plain_yaml : Yaml
plain_yaml = record {
  unmarshal = λ bytes. ok (field "machine" (mapping end) end);
  marshal = λ config. ok [];
}

abbrev pub burst_node : (is_ready : String) → Node
burst_node is_ready = record {
  name = "burst-a";
  labels = ("burst.homelab.dev/managed", "true") ∷ [];
  unschedulable = false;
  conditions =
      record {
        kind = "Ready";
        status = is_ready;
        reason = "KubeletReady";
        last_transition_time = 1000000000;
      }
      ∷ [];
}

-- An instance without a node.
abbrev pub stray_instance : CloudNode
stray_instance = record {
  instance_id = "i-2";
  instance_type = "t3.medium";
  name = "burst-b";
  state = "running";
  launched_at = 0;
  tags = [];
}

-- Every call succeeds, an hour after the launches; the node is ready as it says, and nothing runs on it.
abbrev pub answer : (pool : BurstNodePool) (is_ready : String) (q : Request) → Response q
answer pool is_ready (get_pod key) = ok waiting_pod
answer pool is_ready list_pods = ok (waiting_pod ∷ [])
answer pool is_ready (list_pods_on name) = ok []
answer pool is_ready (update_pod pod) = ok tt
answer pool is_ready (get_pool key) = ok pool
answer pool is_ready list_pools = ok (pool ∷ [])
answer pool is_ready (update_pool_status stored) = ok tt
answer pool is_ready (get_secret key) = ok (record { contents = ("worker.yaml", 0 ∷ []) ∷ [] })
answer pool is_ready (get_node name) = ok (burst_node is_ready)
answer pool is_ready list_managed_nodes = ok (burst_node is_ready ∷ [])
answer pool is_ready (update_node node) = ok tt
answer pool is_ready (delete_node name) = ok tt
answer pool is_ready (run_node_drain helper name) = ok tt
answer pool is_ready (launch_node opts) = ok "i-3"
answer pool is_ready (terminate_node id) = ok tt
answer pool is_ready list_managed_instances = ok (stray_instance ∷ [])
answer pool is_ready now = 3600000000000
answer pool is_ready (random_bytes n) = 1 ∷ 2 ∷ 3 ∷ 4 ∷ []

abbrev pub cluster : BurstNodePool → String → Environment
cluster pool is_ready = record { State = Unit; respond = λ s q. (answer pool is_ready q, s) }
