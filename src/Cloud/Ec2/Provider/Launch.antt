-- ===== src/Cloud/Ec2/Provider/Launch.antt =====
-- What a launch by `EC2Provider` asks for and how it reports errors.
use cloud_burst_controller.Common.{◌≡◌, refl, Bool, false, List, [], ◌∷◌}
use cloud_burst_controller.Cloud.{LaunchOptions}
use cloud_burst_controller.Cloud.Ec2.{is_capacity_error}
use cloud_burst_controller.Errors.{as_api_error, Result, ok, err}
use cloud_burst_controller.Cloud.Ec2.Provider.{
  Instance, Ec2Api, Ranger, launch_input, launched_id, launch_node,
}

-- Whether an operation failed for want of capacity.
abbrev pub is_capacity_result : {A : Type 0} → Result A → Bool
is_capacity_result (ok a) = false
is_capacity_result (err e) = is_capacity_error e

launched_id-capacity :
    (r : Result (List Instance)) → is_capacity_result (launched_id r) ≡ is_capacity_result r
unfolding launched_id is_capacity_error as_api_error
launched_id-capacity (err e) = refl
launched_id-capacity (ok []) = refl
launched_id-capacity (ok (i ∷ rest)) = refl

-- `LaunchNode` reports want of capacity to `IsCapacityError` exactly when the call of RunInstances failed
-- for it: the context that is put around the error does not hide it, and no other failure looks
-- like it.
pub launch_node-capacity :
    (api : Ec2Api) (ranger : Ranger) (s : api.State) (opts : LaunchOptions)
    → is_capacity_result (launch_node api ranger s opts).0
      ≡ is_capacity_result (api.run_instances s (launch_input ranger opts)).0
unfolding launch_node
launch_node-capacity api ranger s opts =
    launched_id-capacity (api.run_instances s (launch_input ranger opts)).0
