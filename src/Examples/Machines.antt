-- ===== src/Examples/Machines.antt =====
-- The EC2 provider on an API with two instances, and the user data of an instance.
use cloud_burst_controller.Common.{
  ℕ, ◌≡◌, ◌<◌, refl, pos, none, some, List, [], ◌∷◌, All, length, get_elem?, arith, eq_iff, subst,
  ap,
}
use mathlib.Core.List.{Perm}
use mathlib.Core.List.Perm
use cloud_burst_controller.Cloud.{LaunchOptions, CloudNode}
use cloud_burst_controller.Errors.{api_error, Result, ok, err}
use cloud_burst_controller.Cloud.Ec2.Provider.{
  tag, managed_key, Instance, Ec2Api, Ranger, launch_tags, launch_input, launch_node,
  list_managed_nodes,
}
use cloud_burst_controller.Cloud.Ec2.Provider.Launch.{is_capacity_result, launch_node-capacity}
use cloud_burst_controller.Cloud.Ec2.Provider.Listing.{Shows, list_managed_nodes-Shows}
use cloud_burst_controller.Talos.{
  mapping, other, Fields, end, field, Yaml, set_hostname, patch_and_encode, patch_hostname,
  patch_config, get_field, set_field, network_of,
}
use cloud_burst_controller.Talos.Base64.{digit, encode_to_string}
use cloud_burst_controller.Talos.UserData.{Reads, patch_and_encode-Reads}

abbrev worker_options : LaunchOptions
worker_options = record {
  name = "burst-a";
  ami = "ami-1";
  instance_type = "t3.medium";
  subnet_id = "subnet-1";
  security_group_ids = "sg-1" ∷ [];
  volume_size = pos 50;
  volume_type = "gp3";
  user_data = [];
  tags = ("team", "ml") ∷ [];
}

abbrev in_order : Ranger
in_order = record { range_map = λ m. m; rearranged = λ m. Perm.refl m }

abbrev worker : Instance
worker = record {
  instance_id = some "i-1";
  instance_type = "t3.medium";
  state = some "running";
  launch_time = some 5;
  tags = tag "team" "ml" ∷ tag managed_key "true" ∷ tag "Name" "burst-a" ∷ [];
}

abbrev unnamed_instance : Instance
unnamed_instance = record {
  instance_id = some "i-2";
  instance_type = "t3.medium";
  state = some "pending";
  launch_time = none;
  tags = [];
}

abbrev two_reservations : List (List Instance)
two_reservations = (unnamed_instance ∷ []) ∷ (worker ∷ []) ∷ []

-- It has no room for another instance.
abbrev full_api : Ec2Api
full_api = record {
  State = Unit;
  run_instances = λ s input. (err (api_error "InsufficientInstanceCapacity"), s);
  terminate_instances = λ s ids. (ok tt, s);
  describe_instances = λ s filters. (ok two_reservations, s);
}

launch_node-capacity_example :
    is_capacity_result (launch_node full_api in_order tt worker_options).0
    ≡ is_capacity_result (full_api.run_instances tt (launch_input in_order worker_options)).0
launch_node-capacity_example = launch_node-capacity full_api in_order tt worker_options

-- EC2 describes the tags in another order.
worker_tagged : Perm worker.tags (launch_tags in_order worker_options)
unfolding launch_tags
worker_tagged =
    Perm.trans (Perm.swap (tag managed_key "true") (tag "team" "ml") (tag "Name" "burst-a" ∷ [])) (
      Perm.trans
        (Perm.cons (tag managed_key "true") (Perm.swap (tag "Name" "burst-a") (tag "team" "ml") []))
        (Perm.swap (tag "Name" "burst-a") (tag managed_key "true") (tag "team" "ml" ∷ [])))

list_managed_nodes-Shows_example :
    (ns : List CloudNode) × (n : CloudNode) × ((list_managed_nodes full_api in_order tt).0
      ≡ some (ok ns))
    × (length ns ≡ 2)
    × (get_elem? ns 1 ≡ some n)
    × Shows worker_options worker n
list_managed_nodes-Shows_example =
    list_managed_nodes-Shows full_api in_order tt worker_options two_reservations 1 worker refl
      (("pending", refl), (("running", refl), tt)) refl worker_tagged
      ((λ e. cc ((eq_iff "team" "Name").1 e)), tt)
      ((λ e. cc ((eq_iff "team" "burst.homelab.dev/managed").1 e)), tt)

abbrev config : Fields
config = field "machine" (mapping (field "type" (other "worker") end)) end

abbrev with_name : Fields
with_name =
    field "machine"
      (mapping (
        field "type" (other "worker")
          (field "network" (mapping (field "hostname" (other "burst-a") end)) end)))
      end

-- A package that prints every config as one byte, and reads this byte as the config with the name.
abbrev read_config : List ℕ → Result Fields
read_config [] = ok config
read_config (b ∷ bs) = ok with_name

abbrev tiny_yaml : Yaml
tiny_yaml = record { unmarshal = read_config; marshal = λ m. ok (7 ∷ []) }

set_name : set_hostname "burst-a" config ≡ some with_name
unfolding set_hostname get_field set_field network_of
set_name = refl

one_byte :
    (m : Fields) (bytes : List ℕ)
    → set_hostname "burst-a" config ≡ some m
    → ok (7 ∷ []) ≡ ok bytes
    → (tiny_yaml.unmarshal bytes ≡ ok m) × All (λ b. b < 256) bytes
one_byte m bytes set printed =
    let is_byte : 7 ∷ [] ≡ bytes = cc printed in
    let is_config : with_name ≡ m = cc (set_name, set) in
    subst (λ bs. (tiny_yaml.unmarshal bs ≡ ok m) × All (λ b. b < 256) bs) is_byte
      (ap ok is_config, (omega arith, tt))

encoded : patch_and_encode tiny_yaml [] "burst-a" ≡ ok (66 ∷ 119 ∷ 61 ∷ 61 ∷ [])
unfolding patch_and_encode patch_hostname patch_config set_hostname get_field encode_to_string digit
encoded = refl

patch_and_encode-Reads_example : Reads tiny_yaml "burst-a" config (66 ∷ 119 ∷ 61 ∷ 61 ∷ [])
patch_and_encode-Reads_example =
    patch_and_encode-Reads tiny_yaml "burst-a" [] config refl one_byte (66 ∷ 119 ∷ 61 ∷ 61 ∷ [])
      encoded
