-- ===== src/Kube.antt =====
-- The Kubernetes objects as far as the controllers read and write them: pods, nodes and secrets of
-- k8s.io/api. Each record has the fields that the code under internal/ uses, and no others; what the
-- API server does with them is not modelled here.
use cloud_burst_controller.Common.{ℕ, ℤ, String, Bool, Option, List}

-- A `time.Time` in nanoseconds since January 1 of year 1, so that the zero time is 0.
abbrev pub Time : Type 0
Time = ℕ

-- A `time.Duration` in nanoseconds.
abbrev pub Duration : Type 0
Duration = ℤ

abbrev pub TextMap : Type 0
TextMap = List (String × String)

-- A resource.Quantity is known by the three readings that the code takes of it.
pub record Quantity : Type 0 where
  pub milli_value : ℤ
  pub scaled_mega : ℤ
  pub value : ℤ

pub record Condition : Type 0 where
  pub kind : String
  pub status : String
  pub reason : String
  pub last_transition_time : Time

pub record Toleration : Type 0 where
  pub key : String
  pub value : String

pub record NodeSelectorRequirement : Type 0 where
  pub key : String
  pub operator : String
  pub values : List String

pub record NodeSelectorTerm : Type 0 where
  pub match_expressions : List NodeSelectorRequirement

pub record NodeSelector : Type 0 where
  pub node_selector_terms : List NodeSelectorTerm

pub record NodeAffinity : Type 0 where
  pub required : Option NodeSelector

pub record Affinity : Type 0 where
  pub node_affinity : Option NodeAffinity

pub record Container : Type 0 where
  pub requests : List (String × Quantity)
  pub limits : List (String × Quantity)

pub record NamespacedName : Type 0 where
  pub namespace : String
  pub name : String

pub record Pod : Type 0 where
  pub namespace : String
  pub name : String
  pub labels : TextMap
  pub annotations : TextMap
  pub owner_kinds : List String
  pub containers : List Container
  pub tolerations : List Toleration
  pub affinity : Option Affinity
  pub node_name : String
  pub phase : String
  pub conditions : List Condition

pub record Node : Type 0 where
  pub name : String
  pub labels : TextMap
  pub unschedulable : Bool
  pub conditions : List Condition

pub record Secret : Type 0 where
  pub contents : List (String × List ℕ)
