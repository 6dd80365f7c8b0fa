-- ===== src/Controller/Matching/Rules.antt =====
-- What the match rules of a pool say of a pod.
use cloud_burst_controller.Common.{
  ℕ, suc, ◌≡◌, refl, ◌↔◌, ◌⊎◌, inl, inr, String, true, false, List, [], ◌∷◌, length, ltb, lookup,
  has_key, str_eq, eq_iff, if◌then◌else◌, All, arith, Bool-cases,
}
use cloud_burst_controller.Common.Reflect.{
  Some, Says, and-Says, or-Says, if-Says, not-Says, false-Says, true-Says, map-Says, any-Says,
  all-Says,
}
use cloud_burst_controller.Kube.{
  TextMap, Toleration, NodeSelectorRequirement, NodeSelectorTerm, Container, Pod,
}
use cloud_burst_controller.Api.{TolerationRule, ResourceRule, BurstNodePool}
use cloud_burst_controller.Controller.Matching.{
  tolerates, pod_has_toleration, expression_matches, term_matches_labels, required_terms,
  pod_has_node_affinity_labels, has_resource, pod_matches_resource_rule, pod_matches_pool,
}

-- A toleration of the rule's key, for any value or for the rule's.
abbrev pub Tolerates : TolerationRule → Toleration → Type 0
Tolerates rule t =
    (t.key ≡ rule.key)
    × ((rule.operator ≡ "Exists") ⊎ ((rule.operator ≡ "Equal") × (t.value ≡ rule.value)))

-- An expression that requires the label, with its value or with any.
abbrev pub Requires : (String × String) → NodeSelectorRequirement → Type 0
Requires label expr =
    (expr.key ≡ label.0)
    × (((expr.operator ≡ "In") × Some (λ v. v ≡ label.1) expr.values) ⊎ (expr.operator ≡ "Exists"))

-- A term that requires all the labels.
abbrev pub RequiresAll : TextMap → NodeSelectorTerm → Type 0
RequiresAll labels term =
    All (λ (label : String × String). Some (Requires label) term.match_expressions) labels

abbrev pub HasKey {ℓ} : {V : Type ℓ} → String → List (String × V) → Type 0
HasKey k [] = ⊥
HasKey k (entry ∷ m) = (entry.0 ≡ k) ⊎ HasKey k m

-- A container requests the resource, or limits it.
abbrev pub Asks : String → Pod → Type 0
Asks name pod =
    Some (λ (c : Container). HasKey name c.requests ⊎ HasKey name c.limits) pod.containers

abbrev pub MeetsResourceRule : Pod → ResourceRule → Type 0
MeetsResourceRule pod rule =
    ((rule.operator ≡ "Exists") × Asks rule.resource_name pod)
    ⊎ ((rule.operator ≡ "DoesNotExist") × (¬ Asks rule.resource_name pod))

pub record Matches (pod : Pod) (pool : BurstNodePool) : Type 0 where
  pub tolerations :
      All (λ rule. Some (Tolerates rule) pod.tolerations) pool.spec.match_rules.tolerations
  pub labels :
      (pool.spec.match_rules.node_affinity_labels ≡ [])
      ⊎ Some (RequiresAll pool.spec.match_rules.node_affinity_labels) (required_terms pod.affinity)
  pub resources : All (MeetsResourceRule pod) pool.spec.match_rules.resources

distinct : {s : String} → (s ≡ "Exists") → (s ≡ "Equal") → ⊥
distinct p q = cc (p, q)

tolerates-Says :
    (rule : TolerationRule) (t : Toleration) → Says (tolerates rule t) (Tolerates rule t)
unfolding tolerates
tolerates-Says rule t = and-Says _ _ (eq_iff t.key rule.key) (
    map-Says _
      (elim [ inl (e, u) ↦ inl e | inr (n, inl h) ↦ inr h | inr (n, inr (u, v)) ↦ absurd v ])
      (elim [ inl e ↦ inl (e, tt) | inr (e, v) ↦ inr (λ x. distinct x e, inl (e, v)) ])
      (if-Says (str_eq rule.operator "Exists") true _ (eq_iff rule.operator "Exists") true-Says (
        if-Says (str_eq rule.operator "Equal") (str_eq t.value rule.value) false
          (eq_iff rule.operator "Equal") (eq_iff t.value rule.value) false-Says)))

expression_matches-Says :
    (label : String × String) (expr : NodeSelectorRequirement)
    → Says (expression_matches label.0 label.1 expr) (Requires label expr)
unfolding expression_matches
expression_matches-Says label expr =
    map-Says _ (elim [ inl ((k, op), v) ↦ (k, inl (op, v)) | inr (k, op) ↦ (k, inr op) ])
      (λ (k, how). elim how [ inl (op, v) ↦ inl ((k, op), v) | inr op ↦ inr (k, op) ])
      (or-Says _ _
        (and-Says _ _ (and-Says _ _ (eq_iff expr.key label.0) (eq_iff expr.operator "In"))
          (any-Says _ _ (λ v. eq_iff v label.1) expr.values))
        (and-Says _ _ (eq_iff expr.key label.0) (eq_iff expr.operator "Exists")))

term_matches_labels-Says :
    (labels : TextMap) (term : NodeSelectorTerm)
    → Says (term_matches_labels term labels) (RequiresAll labels term)
unfolding term_matches_labels
term_matches_labels-Says labels term =
    all-Says _ _ (λ label. any-Says _ _ (expression_matches-Says label) term.match_expressions)
      labels

has_key-Says {ℓ} :
    {V : Type ℓ} (k : String) (m : List (String × V)) → Says (has_key k m) (HasKey k m)
unfolding has_key lookup
has_key-Says k [] = false-Says
has_key-Says k (entry ∷ m) = elim (Bool-cases (str_eq entry.0 k)) [
  | inl same ↦ rw (has_key, same) (λ e. inl ((eq_iff entry.0 k).0 same), λ h. refl)
  | inr other ↦
      rw (has_key, other)
        (
          λ e. inr ((has_key-Says k m).0 e),
          λ h. elim h [
            | inl same ↦ absurd (cc (other, (eq_iff entry.0 k).1 same))
            | inr later ↦ (has_key-Says k m).1 later
          ],
        )
]

has_resource-Says : (name : String) (pod : Pod) → Says (has_resource name pod) (Asks name pod)
unfolding has_resource
has_resource-Says name pod =
    any-Says _ _ (λ c. or-Says _ _ (has_key-Says name c.requests) (has_key-Says name c.limits))
      pod.containers

apart : {s : String} → (s ≡ "Exists") → (s ≡ "DoesNotExist") → ⊥
apart p q = cc (p, q)

pod_matches_resource_rule-Says :
    (pod : Pod) (rule : ResourceRule)
    → Says (pod_matches_resource_rule pod rule) (MeetsResourceRule pod rule)
unfolding pod_matches_resource_rule
pod_matches_resource_rule-Says pod rule =
    let asks = has_resource-Says rule.resource_name pod in
    map-Says _ (elim [ inl h ↦ inl h | inr (n, inl h) ↦ inr h | inr (n, inr (u, v)) ↦ absurd v ])
      (elim [ inl h ↦ inl h | inr (e, v) ↦ inr (λ x. apart x e, inl (e, v)) ])
      (if-Says (str_eq rule.operator "Exists") _ _ (eq_iff rule.operator "Exists") asks (
        if-Says (str_eq rule.operator "DoesNotExist") _ false (eq_iff rule.operator "DoesNotExist")
          (not-Says _ asks) false-Says))

non_empty : (n : ℕ) → ltb 0 (suc n) ≡ true
non_empty n = ground arith

labels-Says :
    (pod : Pod) (labels : TextMap)
    → Says
        (if ltb 0 (length labels) then pod_has_node_affinity_labels pod labels else true)
        ((labels ≡ []) ⊎ Some (RequiresAll labels) (required_terms pod.affinity))
unfolding pod_has_node_affinity_labels
labels-Says pod [] = (λ e. inl refl, λ h. refl)
labels-Says pod (l ∷ ls) = rw (non_empty (length ls)) (
    map-Says _ inr (elim [ inl e ↦ absurd (cc e) | inr h ↦ h ])
      (any-Says _ _ (term_matches_labels-Says (l ∷ ls)) (required_terms pod.affinity)))

-- A pod matches a pool exactly when, by the pool's match rules, it has for each toleration rule a toleration
-- of its key that fits its operator and value; and, if there are labels, a term of its required node
-- affinity requires all of them, with their value or with any; and each resource rule holds: the
-- resource is requested or limited by a container, or by none, as the rule says. An operator that is
-- not known holds of nothing.
pub pod_matches_pool-Says :
    (pod : Pod) (pool : BurstNodePool) → pod_matches_pool pod pool ≡ true ↔ Matches pod pool
unfolding pod_matches_pool pod_has_toleration
pod_matches_pool-Says pod pool =
    map-Says _
      (λ ((tolerations, labels), resources). record {
        tolerations = tolerations;
        labels = labels;
        resources = resources;
      })
      (λ m. ((m.tolerations, m.labels), m.resources))
      (and-Says _ _
        (and-Says _ _
          (all-Says _ _ (λ rule. any-Says _ _ (tolerates-Says rule) pod.tolerations)
            pool.spec.match_rules.tolerations)
          (labels-Says pod pool.spec.match_rules.node_affinity_labels))
        (all-Says _ _ (pod_matches_resource_rule-Says pod) pool.spec.match_rules.resources))
