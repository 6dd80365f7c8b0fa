-- ===== src/Cloud/Ec2/Provider.antt =====
-- internal/cloud/aws/ec2.go, `EC2Provider`: the operations of cloud.Provider by calls of the EC2 API.
-- The API is a parameter, with a state of its own; an input or output of it has the fields that the
-- code sets or reads, and a nil pointer is `none`.
pub mod Launch
pub mod Listing
use mathlib.Core.List.{Perm}
use cloud_burst_controller.Common.{
  ℤ, pos, ℕ, String, Bool, Option, none, some, List, [], ◌∷◌, ◌++◌, map, insert, cat, str_eq,
  if◌then◌else◌,
}
use cloud_burst_controller.Kube.{Time, TextMap}
use cloud_burst_controller.Cloud.{LaunchOptions, CloudNode}
use cloud_burst_controller.Errors.{Error, message, wrapped, Result, ok, err}

pub record Tag : Type 0 where
  pub key : Option String
  pub value : Option String

pub record BlockDevice : Type 0 where
  pub device_name : String
  pub volume_size : ℤ
  pub volume_type : String

pub record RunInstancesInput : Type 0 where
  pub image_id : String
  pub instance_type : String
  pub min_count : ℤ
  pub max_count : ℤ
  pub subnet_id : String
  pub security_group_ids : List String
  pub user_data : List ℕ
  pub tagged_resource : String
  pub tags : List Tag
  pub block_devices : List BlockDevice
  pub shutdown_behavior : String

pub record Filter : Type 0 where
  pub name : String
  pub values : List String

-- `state` is the name in a state that may be nil.
pub record Instance : Type 0 where
  pub instance_id : Option String
  pub instance_type : String
  pub state : Option String
  pub launch_time : Option Time
  pub tags : List Tag

-- `ec2API`; the instances of a description come in reservations.
pub record Ec2Api : Type 1 where
  pub State : Type 0
  pub run_instances : State → RunInstancesInput → Result (List Instance) × State
  pub terminate_instances : State → List String → Result Unit × State
  pub describe_instances : State → List Filter → Result (List (List Instance)) × State

-- The order in which `range` goes through a map is any.
pub record Ranger : Type 0 where
  pub range_map : TextMap → TextMap
  pub rearranged : (m : TextMap) → Perm (range_map m) m

-- `aws.ToString`
abbrev pub to_string : Option String → String
to_string none = ""
to_string (some s) = s

abbrev pub tag : String → String → Tag
tag k v = record { key = some k; value = some v }

abbrev pub managed_key : String
managed_key = "burst.homelab.dev/managed"

unfoldable pub launch_tags : Ranger → LaunchOptions → List Tag
launch_tags ranger opts =
    tag "Name" opts.name
    ∷ tag managed_key "true"
    ∷ map (λ (kv : String × String). tag kv.0 kv.1) (ranger.range_map opts.tags)

unfoldable pub launch_input : Ranger → LaunchOptions → RunInstancesInput
unfolding launch_tags
launch_input ranger opts = record {
  image_id = opts.ami;
  instance_type = opts.instance_type;
  min_count = pos 1;
  max_count = pos 1;
  subnet_id = opts.subnet_id;
  security_group_ids = opts.security_group_ids;
  user_data = opts.user_data;
  tagged_resource = "instance";
  tags = launch_tags ranger opts;
  block_devices =
      record {
        device_name = "/dev/xvda";
        volume_size = opts.volume_size;
        volume_type = opts.volume_type;
      }
      ∷ [];
  shutdown_behavior = "terminate";
}

-- The ID of the first instance that was launched.
unfoldable pub launched_id : Result (List Instance) → Result String
launched_id (err e) = err (wrapped "launching EC2 instance" e)
launched_id (ok []) = err (message "no instances returned from RunInstances")
launched_id (ok (i ∷ rest)) = ok (to_string i.instance_id)

unfoldable pub terminated : String → Result Unit → Result Unit
terminated id (err e) = err (wrapped (cat "terminating EC2 instance " id) e)
terminated id (ok u) = ok tt

unfoldable pub managed_filters : List Filter
managed_filters =
    record { name = "tag:burst.homelab.dev/managed"; values = "true" ∷ [] }
    ∷ record { name = "instance-state-name"; values = "pending" ∷ "running" ∷ [] }
    ∷ []

-- The loop over the tags.
unfoldable pub read_tags : List Tag → CloudNode → CloudNode
read_tags [] node = node
read_tags (t ∷ ts) node = read_tags ts (record node {
  name = if str_eq (to_string t.key) "Name" then to_string t.value else node.name;
  tags = insert (to_string t.key) (to_string t.value) node.tags;
})

abbrev pub time_of : Option Time → Time
time_of none = 0
time_of (some t) = t

-- A nil state is dereferenced: no result.
unfoldable pub cloud_node_of : Instance → Option CloudNode
unfolding read_tags
cloud_node_of i = elim i.state [
  | none ↦ none
  | some state ↦ some (
      read_tags i.tags (record {
        instance_id = to_string i.instance_id;
        instance_type = i.instance_type;
        name = "";
        state = state;
        launched_at = time_of i.launch_time;
        tags = [];
      }))
]

abbrev pub cons_node : Option CloudNode → Option (List CloudNode) → Option (List CloudNode)
cons_node none rest = none
cons_node (some n) none = none
cons_node (some n) (some ns) = some (n ∷ ns)

unfoldable pub cloud_nodes_of : List Instance → Option (List CloudNode)
unfolding cloud_node_of
cloud_nodes_of [] = some []
cloud_nodes_of (i ∷ is) = cons_node (cloud_node_of i) (cloud_nodes_of is)

abbrev pub concat : List (List Instance) → List Instance
concat [] = []
concat (r ∷ rs) = r ++ concat rs

-- No result is a panic.
unfoldable pub listed : Result (List (List Instance)) → Option (Result (List CloudNode))
unfolding cloud_nodes_of
listed (err e) = some (err (wrapped "describing EC2 instances" e))
listed (ok reservations) = elim (cloud_nodes_of (concat reservations)) [
  | none ↦ none
  | some nodes ↦ some (ok nodes)
]

module _ (api : Ec2Api) (ranger : Ranger) where
  open api use {State, run_instances, terminate_instances, describe_instances}

  unfoldable pub launch_node : State → LaunchOptions → Result String × State
  unfolding launched_id launch_input
  launch_node s opts =
      let (r, s') = run_instances s (launch_input ranger opts) in (launched_id r, s')

  unfoldable pub terminate_node : State → String → Result Unit × State
  unfolding terminated
  terminate_node s id = let (r, s') = terminate_instances s (id ∷ []) in (terminated id r, s')

  unfoldable pub list_managed_nodes : State → Option (Result (List CloudNode)) × State
  unfolding listed managed_filters
  list_managed_nodes s = let (r, s') = describe_instances s managed_filters in (listed r, s')
