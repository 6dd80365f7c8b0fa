-- ===== src/Metrics.antt =====
-- internal/metrics/metrics.go: the collectors that are registered when the process starts.
use cloud_burst_controller.Common.{ℕ, String, List, [], ◌∷◌}

-- `ExponentialBuckets(start, factor, count)`.
pub record Buckets : Type 0 where
  pub start : ℕ
  pub factor : ℕ
  pub count : ℕ

pub data CollectorKind : Type 0 where
  gauge_vec : CollectorKind
  counter_vec : CollectorKind
  histogram_vec : Buckets → CollectorKind

pub record Collector : Type 0 where
  pub kind : CollectorKind
  pub name : String
  pub help : String
  pub labels : List String

abbrev pub nodes_active : Collector
nodes_active = record {
  kind = gauge_vec;
  name = "burst_nodes_active";
  help = "Number of active burst nodes";
  labels = "pool" ∷ [];
}

abbrev pub nodes_provisioned_total : Collector
nodes_provisioned_total = record {
  kind = counter_vec;
  name = "burst_nodes_provisioned_total";
  help = "Total number of burst nodes provisioned";
  labels = "pool" ∷ [];
}

abbrev pub nodes_terminated_total : Collector
nodes_terminated_total = record {
  kind = counter_vec;
  name = "burst_nodes_terminated_total";
  help = "Total number of burst nodes terminated";
  labels = "pool" ∷ [];
}

abbrev pub provision_duration_seconds : Collector
provision_duration_seconds = record {
  kind = histogram_vec (record { start = 15; factor = 2; count = 8 });
  name = "burst_provision_duration_seconds";
  help = "Time from launch to node ready";
  labels = "pool" ∷ [];
}

abbrev pub provision_failures_total : Collector
provision_failures_total = record {
  kind = counter_vec;
  name = "burst_provision_failures_total";
  help = "Total number of burst node provision failures";
  labels = "pool" ∷ [];
}

-- What `MustRegister` is called with.
abbrev pub collectors : List Collector
collectors =
    nodes_active ∷ nodes_provisioned_total ∷ nodes_terminated_total ∷ provision_duration_seconds
    ∷ provision_failures_total ∷ []
