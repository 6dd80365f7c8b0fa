-- ===== src/Api/Scheme.antt =====
-- api/v1alpha1/groupversion_info.go, with what `init` of burstnodepool_types.go adds to it.
use cloud_burst_controller.Common.{String, List, [], ◌∷◌}

-- The group and version under which the types are registered, and the types.
pub record SchemeTypes : Type 0 where
  pub group : String
  pub version : String
  pub types : List String

abbrev pub burst_types : SchemeTypes
burst_types = record {
  group = "burst.homelab.dev";
  version = "v1alpha1";
  types = "BurstNodePool" ∷ "BurstNodePoolList" ∷ [];
}
