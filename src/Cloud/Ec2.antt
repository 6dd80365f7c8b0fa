-- ===== src/Cloud/Ec2.antt =====
-- internal/cloud/aws/ec2.go: which errors are for want of capacity; the provider is in Provider.
pub mod Provider
use cloud_burst_controller.Common.{String, Bool, false, ◌||◌, none, some, str_eq}
use cloud_burst_controller.Errors.{Error, as_api_error}

-- The codes on which the launch goes on with the next instance type.
unfoldable pub is_capacity_code : String → Bool
is_capacity_code code =
    str_eq code "InsufficientInstanceCapacity"
    || str_eq code "InstanceLimitExceeded"
    || str_eq code "Unsupported"

unfoldable pub is_capacity_error : Error → Bool
unfolding as_api_error is_capacity_code
is_capacity_error e = elim (as_api_error e) [ none ↦ false | some code ↦ is_capacity_code code ]
