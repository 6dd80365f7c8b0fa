-- ===== src/Controller/Selector/Asked.antt =====
-- The architecture that pods ask for by their required node affinity, told without the code that looks for
-- it: of the expressions `kubernetes.io/arch In …` the first one, and of its values the first.
use cloud_burst_controller.Common.{
  ◌≡◌, ◌≢◌, refl, sym, ap, subst, ◌∙◌, ◌⊎◌, inl, inr, String, Option, none, some, List, [], ◌∷◌,
  ◌++◌, str_eq, eq_iff, Bool-cases,
}
use cloud_burst_controller.Kube.{
  NodeSelectorRequirement, NodeSelectorTerm, NodeSelector, NodeAffinity, Affinity, Pod,
}
use cloud_burst_controller.Api.{InstanceTypeConfig}
use cloud_burst_controller.Controller.Matching.{required_terms}
use cloud_burst_controller.Controller.Capacity.{InstanceCapacity}
use cloud_burst_controller.Controller.Selector.{
  or_else, first_value, expression_architecture, expressions_architecture, terms_architecture,
  pods_architecture, required_architecture, candidate_architecture,
}

abbrev pub terms_of_selector : Option NodeSelector → List NodeSelectorTerm
terms_of_selector none = []
terms_of_selector (some selector) = selector.node_selector_terms

abbrev pub terms_of_node : Option NodeAffinity → List NodeSelectorTerm
terms_of_node none = []
terms_of_node (some node) = terms_of_selector node.required

abbrev pub terms_of : Option Affinity → List NodeSelectorTerm
terms_of none = []
terms_of (some affinity) = terms_of_node affinity.node_affinity

-- All expressions of the terms, and then of the pods, in their order.
abbrev pub expressions_of : List NodeSelectorTerm → List NodeSelectorRequirement
expressions_of [] = []
expressions_of (t ∷ ts) = t.match_expressions ++ expressions_of ts

abbrev pub required_expressions : List Pod → List NodeSelectorRequirement
required_expressions [] = []
required_expressions (p ∷ ps) = expressions_of (terms_of p.affinity) ++ required_expressions ps

-- The expression asks for an architecture, and this is its first value.
pub record AsksFor (e : NodeSelectorRequirement) (arch : String) : Type 0 where
  pub key : e.key ≡ "kubernetes.io/arch"
  pub operator : e.operator ≡ "In"
  pub others : List String
  pub values : e.values ≡ arch ∷ others

-- The first architecture that the expressions ask for, if one does.
abbrev pub FirstAsked : List NodeSelectorRequirement → Option String → Type 0
FirstAsked [] o = o ≡ none
FirstAsked (e ∷ es) o =
    ((arch : String) × (o ≡ some arch) × AsksFor e arch)
    ⊎ ((¬ ((arch : String) × AsksFor e arch)) × FirstAsked es o)

-- A type runs its own architecture if it gives one, and else that of the table.
abbrev pub Runs : InstanceTypeConfig → InstanceCapacity → String → Type 0
Runs c cap arch =
    ((c.architecture ≡ "") × (cap.architecture ≡ arch))
    ⊎ ((c.architecture ≢ "") × (c.architecture ≡ arch))

-- The empty text asks for nothing.
abbrev pub Allows : Option String → InstanceTypeConfig → InstanceCapacity → Type 0
Allows none c cap = Unit
Allows (some arch) c cap = (arch ≡ "") ⊎ Runs c cap arch

-- Does the architecture suit: the pods ask for none, or it is the first that they ask for.
abbrev pub SuitsArchitecture : List Pod → InstanceTypeConfig → InstanceCapacity → Type 0
SuitsArchitecture pods c cap =
    (o : Option String) × FirstAsked (required_expressions pods) o × Allows o c cap

first_value-cases :
    (vs : List String)
    → ((v : String) × (others : List String) × (first_value vs ≡ some v) × (vs ≡ v ∷ others))
      ⊎ ((first_value vs ≡ none) × (vs ≡ []))
first_value-cases [] = inr (refl, refl)
first_value-cases (v ∷ vs) = inl (v, vs, refl, refl)

expression_architecture-cases :
    (e : NodeSelectorRequirement)
    → ((arch : String) × (expression_architecture e ≡ some arch) × AsksFor e arch)
      ⊎ ((expression_architecture e ≡ none) × ¬ ((arch : String) × AsksFor e arch))
unfolding expression_architecture
expression_architecture-cases e = elim (Bool-cases (str_eq e.key "kubernetes.io/arch")) [
  | inr other ↦
      rw other (inr (refl, λ asks. cc ((eq_iff e.key "kubernetes.io/arch").1 asks.1.key, other)))
  | inl is_key ↦ rw is_key (elim (Bool-cases (str_eq e.operator "In")) [
    | inr other ↦
        rw other (inr (refl, λ asks. cc ((eq_iff e.operator "In").1 asks.1.operator, other)))
    | inl is_in ↦ rw is_in (elim (first_value-cases e.values) [
      | inl (v, others, first, values) ↦ inl (
        v,
        first,
        record {
          key = (eq_iff e.key "kubernetes.io/arch").0 is_key;
          operator = (eq_iff e.operator "In").0 is_in;
          others = others;
          values = values;
        },
      )
      | inr (absent, empty) ↦ inr (absent, λ asks. cc (asks.1.values, empty))
    ])
  ])
]

FirstAsked-append :
    (es fs : List NodeSelectorRequirement) (o p : Option String)
    → FirstAsked es o
    → FirstAsked fs p
    → FirstAsked (es ++ fs) (or_else o p)
FirstAsked-append [] fs o p h k = subst (λ x. FirstAsked fs (or_else x p)) (sym h) k
FirstAsked-append (e ∷ es) fs o p (inl (arch, same, asks)) k =
    inl (arch, ap (λ x. or_else x p) same, asks)
FirstAsked-append (e ∷ es) fs o p (inr (not_asked, rest)) k =
    inr (not_asked, FirstAsked-append es fs o p rest k)

expressions-FirstAsked :
    (es : List NodeSelectorRequirement) → FirstAsked es (expressions_architecture es)
unfolding expressions_architecture
expressions-FirstAsked [] = refl
expressions-FirstAsked (e ∷ es) = elim (expression_architecture-cases e) [
  | inl (arch, same, asks) ↦
      inl (arch, ap (λ x. or_else x (expressions_architecture es)) same, asks)
  | inr (absent, not_asked) ↦ inr (
    not_asked,
    subst (λ x. FirstAsked es (or_else x (expressions_architecture es))) (sym absent)
        (expressions-FirstAsked es),
  )
]

terms-FirstAsked :
    (ts : List NodeSelectorTerm) → FirstAsked (expressions_of ts) (terms_architecture ts)
unfolding terms_architecture
terms-FirstAsked [] = refl
terms-FirstAsked (t ∷ ts) =
    FirstAsked-append t.match_expressions (expressions_of ts) _ _
      (expressions-FirstAsked t.match_expressions) (terms-FirstAsked ts)

required_terms-node :
    (o : Option NodeAffinity) (a : Affinity)
    → a.node_affinity ≡ o
    → required_terms (some a) ≡ terms_of_node o
unfolding required_terms
required_terms-node none a same = rw same refl
required_terms-node (some node) a same =
    rw same
      (elim node.required
        as (λ r.
          elim r [ none ↦ [] | some required ↦ required.node_selector_terms ]
          ≡ terms_of_selector r) [ none ↦ refl | some s ↦ refl ])

required_terms_lem : (o : Option Affinity) → required_terms o ≡ terms_of o
unfolding required_terms
required_terms_lem none = refl
required_terms_lem (some a) = required_terms-node a.node_affinity a refl

pub pods-FirstAsked :
    (pods : List Pod) → FirstAsked (required_expressions pods) (pods_architecture pods)
unfolding pods_architecture
pods-FirstAsked [] = refl
pods-FirstAsked (p ∷ ps) =
    FirstAsked-append (expressions_of (terms_of p.affinity)) (required_expressions ps) _ _
      (subst (λ ts. FirstAsked (expressions_of ts) (terms_architecture (required_terms p.affinity)))
        (required_terms_lem p.affinity) (terms-FirstAsked (required_terms p.affinity)))
      (pods-FirstAsked ps)

FirstAsked-unique :
    (es : List NodeSelectorRequirement) (o p : Option String)
    → FirstAsked es o
    → FirstAsked es p
    → o ≡ p
FirstAsked-unique [] o p h k = h ∙ sym k
FirstAsked-unique (e ∷ es) o p (inl (a, same, asks)) (inl (b, same', asks')) =
    cc (same, same', asks.values, asks'.values)
FirstAsked-unique (e ∷ es) o p (inl (a, same, asks)) (inr (none_asked, rest)) =
    absurd (none_asked (a, asks))
FirstAsked-unique (e ∷ es) o p (inr (none_asked, rest)) (inl (b, same, asks)) =
    absurd (none_asked (b, asks))
FirstAsked-unique (e ∷ es) o p (inr (_, h)) (inr (_, k)) = FirstAsked-unique es o p h k

module _ (c : InstanceTypeConfig) (cap : InstanceCapacity) where
  candidate_architecture-Runs :
      (arch : String)
      → ((candidate_architecture c cap ≡ arch) → Runs c cap arch)
        × (Runs c cap arch → candidate_architecture c cap ≡ arch)
  unfolding candidate_architecture
  candidate_architecture-Runs arch = elim (Bool-cases (str_eq c.architecture "")) [
    | inl e ↦ rw e (
      (λ same. inl ((eq_iff c.architecture "").0 e, same)),
      elim [ inl h ↦ h.1 | inr h ↦ absurd (h.0 ((eq_iff c.architecture "").0 e)) ],
    )
    | inr e ↦ rw e (
      (λ same. inr ((λ empty. cc ((eq_iff c.architecture "").1 empty, e)), same)),
      elim [ inl h ↦ absurd (cc ((eq_iff c.architecture "").1 h.0, e)) | inr h ↦ h.1 ],
    )
  ]

  -- The text that stands for an architecture, or for none.
  abbrev text : Option String → String
  text o = elim o [ none ↦ "" | some arch ↦ arch ]

  Allows-from :
      (o : Option String) → (text o ≡ "") ⊎ (candidate_architecture c cap ≡ text o) → Allows o c cap
  Allows-from none h = tt
  Allows-from (some arch) (inl empty) = inl empty
  Allows-from (some arch) (inr same) = inr ((candidate_architecture-Runs arch).0 same)

  Allows-to :
      (o : Option String) → Allows o c cap → (text o ≡ "") ⊎ (candidate_architecture c cap ≡ text o)
  Allows-to none h = inl refl
  Allows-to (some arch) (inl empty) = inl empty
  Allows-to (some arch) (inr runs) = inr ((candidate_architecture-Runs arch).1 runs)

  module _ (pods : List Pod) where
    pub SuitsArchitecture-from :
        (required_architecture pods ≡ "")
          ⊎ (candidate_architecture c cap ≡ required_architecture pods)
        → SuitsArchitecture pods c cap
    unfolding required_architecture
    SuitsArchitecture-from h = (pods_architecture pods, pods-FirstAsked pods, Allows-from _ h)

    pub SuitsArchitecture-to :
        SuitsArchitecture pods c cap
        → (required_architecture pods ≡ "")
          ⊎ (candidate_architecture c cap ≡ required_architecture pods)
    unfolding required_architecture
    SuitsArchitecture-to (o, first, allows) = Allows-to (pods_architecture pods) (
        subst (λ x. Allows x c cap)
          (FirstAsked-unique (required_expressions pods) o _ first (pods-FirstAsked pods)) allows)
