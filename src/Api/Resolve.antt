-- ===== src/Api/Resolve.antt =====
-- `ResolveInstanceTypes` of api/v1alpha1/burstnodepool_types.go.
use cloud_burst_controller.Common.{List, [], ◌∷◌, str_eq, if◌then◌else◌}
use cloud_burst_controller.Api.{InstanceTypeConfig, AwsConfig}

-- The list, or else the single type wrapped as a list, or else nothing.
wrap_single : AwsConfig → List InstanceTypeConfig
wrap_single a =
    if str_eq a.instance_type ""
    then []
    else record { name = a.instance_type; ami = ""; architecture = "" } ∷ []

resolve : List InstanceTypeConfig → AwsConfig → List InstanceTypeConfig
unfolding wrap_single
resolve [] a = wrap_single a
resolve (t ∷ ts) a = t ∷ ts

unfoldable pub resolve_instance_types : AwsConfig → List InstanceTypeConfig
unfolding resolve
resolve_instance_types a = resolve a.instance_types a
