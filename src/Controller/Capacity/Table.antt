-- ===== src/Controller/Capacity/Table.antt =====
-- The table of known instance types in internal/controller/batch.go.
use cloud_burst_controller.Common.{String, Option, List, [], ◌∷◌, lookup}
use cloud_burst_controller.Controller.Capacity.{InstanceCapacity, capacity}

unfoldable pub instance_capacities : List (String × InstanceCapacity)
instance_capacities =
    ("t3.medium", capacity 1800 3500 0 "amd64")
    ∷ ("t3.large", capacity 1800 7200 0 "amd64")
    ∷ ("t3.xlarge", capacity 3600 14800 0 "amd64")
    ∷ ("t3.2xlarge", capacity 7200 29600 0 "amd64")
    ∷ ("m6i.large", capacity 1800 7200 0 "amd64")
    ∷ ("m6i.xlarge", capacity 3600 14800 0 "amd64")
    ∷ ("m6i.2xlarge", capacity 7200 29600 0 "amd64")
    ∷ ("m6i.4xlarge", capacity 14400 59200 0 "amd64")
    ∷ ("m7i.large", capacity 1800 7200 0 "amd64")
    ∷ ("m7i.xlarge", capacity 3600 14800 0 "amd64")
    ∷ ("c6i.large", capacity 1800 3500 0 "amd64")
    ∷ ("c6i.xlarge", capacity 3600 7200 0 "amd64")
    ∷ ("c6i.2xlarge", capacity 7200 14800 0 "amd64")
    ∷ ("r6i.large", capacity 1800 14800 0 "amd64")
    ∷ ("r6i.xlarge", capacity 3600 29600 0 "amd64")
    ∷ ("r6i.2xlarge", capacity 7200 59200 0 "amd64")
    ∷ ("m7g.medium", capacity 900 3500 0 "arm64")
    ∷ ("m7g.large", capacity 1800 7200 0 "arm64")
    ∷ ("m7g.xlarge", capacity 3600 14800 0 "arm64")
    ∷ ("m7g.2xlarge", capacity 7200 29600 0 "arm64")
    ∷ ("c7g.medium", capacity 900 1800 0 "arm64")
    ∷ ("c7g.large", capacity 1800 3500 0 "arm64")
    ∷ ("c7g.xlarge", capacity 3600 7200 0 "arm64")
    ∷ ("c7g.2xlarge", capacity 7200 14800 0 "arm64")
    ∷ ("r7g.large", capacity 1800 14800 0 "arm64")
    ∷ ("r7g.xlarge", capacity 3600 29600 0 "arm64")
    ∷ ("r7g.2xlarge", capacity 7200 59200 0 "arm64")
    ∷ ("g5.xlarge", capacity 3600 14800 1 "amd64")
    ∷ ("g5.2xlarge", capacity 7200 29600 1 "amd64")
    ∷ ("g5.4xlarge", capacity 14400 59200 1 "amd64")
    ∷ ("p3.2xlarge", capacity 7200 56000 1 "amd64")
    ∷ ("p3.8xlarge", capacity 28800 224000 4 "amd64")
    ∷ ("p3.16xlarge", capacity 57600 448000 8 "amd64")
    ∷ []

unfoldable pub get_instance_capacity : String → Option InstanceCapacity
unfolding lookup instance_capacities
get_instance_capacity instance_type = lookup instance_type instance_capacities
