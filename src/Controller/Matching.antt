-- ===== src/Controller/Matching.antt =====
-- internal/controller/matching.go: which pool a pod goes to. `for` loops that return early on a test
-- are `any` and `all`; the pointer that is returned is the pool itself.
pub mod Best
pub mod Rules
use cloud_burst_controller.Common.{
  ℕ, ◌+◌, String, ℤ, pos, negsuc, ltb_ℤ, Bool, true, false, not, ◌&&◌, ◌||◌, Option, none, some,
  List, [], ◌∷◌, length, any, all, str_eq, str_lt, text_at, has_key, if◌then◌else◌, ltb,
}
use cloud_burst_controller.Common.Sorting.{Sorter}
use cloud_burst_controller.Kube.{
  TextMap, Condition, Toleration, NodeSelectorRequirement, NodeSelectorTerm, NodeSelector,
  NodeAffinity, Affinity, Container, Pod,
}
use cloud_burst_controller.Api.{TolerationRule, ResourceRule, BurstNodePool}

-- The `switch` on the rule's operator; a toleration that fails it leaves the search going.
unfoldable pub tolerates : TolerationRule → Toleration → Bool
tolerates rule t =
    str_eq t.key rule.key
    && (if str_eq rule.operator "Exists"
        then true
        else (if str_eq rule.operator "Equal" then str_eq t.value rule.value else false))

unfoldable pub pod_has_toleration : Pod → TolerationRule → Bool
unfolding tolerates any
pod_has_toleration pod rule = any (tolerates rule) pod.tolerations

-- One match expression against one label: `In` with the value, or `Exists`.
unfoldable pub expression_matches : (key value : String) → NodeSelectorRequirement → Bool
unfolding any
expression_matches key value expr =
    str_eq expr.key key && str_eq expr.operator "In" && any (λ v. str_eq v value) expr.values
    || str_eq expr.key key && str_eq expr.operator "Exists"

unfoldable pub term_matches_labels : NodeSelectorTerm → TextMap → Bool
unfolding expression_matches any all
term_matches_labels term labels =
    all
      (λ (label : String × String). any (expression_matches label.0 label.1) term.match_expressions)
      labels

-- The terms of `RequiredDuringSchedulingIgnoredDuringExecution`; none where a pointer is nil.
unfoldable pub required_terms : Option Affinity → List NodeSelectorTerm
required_terms affinity = elim affinity [
  | none ↦ []
  | some a ↦ elim a.node_affinity [
    | none ↦ []
    | some na ↦ elim na.required [ none ↦ [] | some required ↦ required.node_selector_terms ]
  ]
]

unfoldable pub pod_has_node_affinity_labels : Pod → TextMap → Bool
unfolding term_matches_labels required_terms any
pod_has_node_affinity_labels pod labels =
    any (λ term. term_matches_labels term labels) (required_terms pod.affinity)

unfoldable pub has_resource : String → Pod → Bool
unfolding has_key any
has_resource name pod =
    any (λ (c : Container). has_key name c.requests || has_key name c.limits) pod.containers

unfoldable pub pod_matches_resource_rule : Pod → ResourceRule → Bool
unfolding has_resource
pod_matches_resource_rule pod rule =
    if str_eq rule.operator "Exists"
    then has_resource rule.resource_name pod
    else (if str_eq rule.operator "DoesNotExist"
        then not (has_resource rule.resource_name pod)
        else false)

unfoldable pub pod_matches_pool : Pod → BurstNodePool → Bool
unfolding pod_has_toleration pod_has_node_affinity_labels pod_matches_resource_rule all
pod_matches_pool pod pool =
    let rules = pool.spec.match_rules in
    all (pod_has_toleration pod) rules.tolerations
    && (if ltb 0 (length rules.node_affinity_labels)
        then pod_has_node_affinity_labels pod rules.node_affinity_labels
        else true)
    && all (pod_matches_resource_rule pod) rules.resources

unfoldable pub pool_specificity_score : BurstNodePool → ℕ
pool_specificity_score pool =
    let rules = pool.spec.match_rules in length rules.node_affinity_labels + length rules.resources

-- The order that `sort.Slice` is given.
abbrev pub name_less : BurstNodePool → BurstNodePool → Bool
name_less p q = str_lt p.name q.name

-- The tests of one round of the loop: the pool matches, and its score is above the best so far.
unfoldable pub is_better : Pod → BurstNodePool → ℤ → Bool
is_better pod pool best_score =
    pod_matches_pool pod pool && ltb_ℤ best_score (pos (pool_specificity_score pool))

-- The loop over the sorted pools, with its variables `best` and `bestScore`.
unfoldable pub scan_pools :
    Pod → List BurstNodePool → Option BurstNodePool → ℤ → Option BurstNodePool
scan_pools pod [] best best_score = best
scan_pools pod (p ∷ ps) best best_score =
    let better = is_better pod p best_score in
    scan_pools pod ps (if better then some p else best)
      (if better then pos (pool_specificity_score p) else best_score)

module _ (sorter : Sorter name_less) where
  open sorter use {sort_slice}

  unfoldable pub match_pod_to_pool : Pod → List BurstNodePool → Option BurstNodePool
  match_pod_to_pool pod pools = scan_pools pod (sort_slice pools) none (negsuc 0)

unfoldable pub is_burst_enabled : Pod → Bool
unfolding text_at
is_burst_enabled pod = str_eq (text_at "burst.homelab.dev/enabled" pod.labels) "true"

unfoldable pub says_unschedulable : Condition → Bool
says_unschedulable cond =
    str_eq cond.kind "PodScheduled"
    && str_eq cond.status "False"
    && str_eq cond.reason "Unschedulable"

unfoldable pub is_pod_unschedulable : Pod → Bool
unfolding says_unschedulable any
is_pod_unschedulable pod = any says_unschedulable pod.conditions
