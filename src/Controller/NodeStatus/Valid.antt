-- ===== src/Controller/NodeStatus/Valid.antt =====
-- The counters of a pool's status against its entries, and what each change does to them.
use cloud_burst_controller.Common.{
  ℕ, zero, suc, ◌+◌, ◌≤◌, ◌≡◌, refl, ap, pos, ◌+ℤ◌, ◌-ℤ◌, int32_of_range, Bool, true, Option, none,
  some, List, [], ◌∷◌, ◌++◌, All, Bool-cases, inl, inr, arith,
}
use cloud_burst_controller.Api.{
  NodeState, pending, running, cordoned, draining, terminating, BurstNodeStatus,
  BurstNodePoolStatus, BurstNodePool,
}
use cloud_burst_controller.Controller.NodeStatus.{
  Split, push_front, find_node, Found, found_in, find_pool_and_node, with_entry, increment,
  decrement,
}

-- An entry counts as pending, or else as active.
abbrev pub pending_weight : NodeState → ℕ
pending_weight pending = 1
pending_weight running = 0
pending_weight cordoned = 0
pending_weight draining = 0
pending_weight terminating = 0

abbrev pub active_weight : NodeState → ℕ
active_weight pending = 0
active_weight running = 1
active_weight cordoned = 1
active_weight draining = 1
active_weight terminating = 1

unfoldable pub weigh : (NodeState → ℕ) → List BurstNodeStatus → ℕ
weigh w [] = 0
weigh w (n ∷ ns) = w n.state + weigh w ns

-- A number of active nodes that are counted without an entry, and the others.
abbrev pub plus_slack : (slack n : ℕ) → ℕ
plus_slack zero n = n
plus_slack (suc k) n = suc (plus_slack k n)

pub plus_slack_lem : (slack n : ℕ) → plus_slack slack n ≡ slack + n
plus_slack_lem zero n = omega arith
plus_slack_lem (suc k) n = omega (arith, plus_slack_lem k n)

-- The counters of a status are the numbers of its entries, but for this number of active nodes without an
-- entry, and fit together into an int32.
pub record IsCountedBy (slack : ℕ) (s : BurstNodePoolStatus) : Type 0 where
  pub pending_counted : s.pending_nodes ≡ pos (weigh pending_weight s.nodes)
  pub active_counted : s.active_nodes ≡ pos (plus_slack slack (weigh active_weight s.nodes))
  pub in_range :
      weigh pending_weight s.nodes + plus_slack slack (weigh active_weight s.nodes) ≤ 2147483647

-- The counters are the numbers of the entries.
abbrev pub IsValid : BurstNodePoolStatus → Type 0
IsValid = IsCountedBy 0

-- No entry is left uncounted.
abbrev pub IsCounted : BurstNodePoolStatus → Type 0
IsCounted s = (slack : ℕ) × IsCountedBy slack s

pub weigh-append :
    (w : NodeState → ℕ) (xs ys : List BurstNodeStatus)
    → weigh w (xs ++ ys) ≡ weigh w xs + weigh w ys
unfolding weigh
weigh-append w [] ys = omega arith
weigh-append w (x ∷ xs) ys = omega (arith, weigh-append w xs ys)

pub weigh_split :
    (w : NodeState → ℕ) (s : Split)
    → weigh w (s.before ++ s.entry ∷ s.after) ≡ w s.entry.state + weigh w (s.before ++ s.after)
unfolding weigh
weigh_split w s =
    omega (arith, weigh-append w s.before (s.entry ∷ s.after), weigh-append w s.before s.after)

pub increment_pos : (n : ℕ) → n ≤ 2147483646 → increment (pos n) ≡ pos (n + 1)
unfolding increment ◌+ℤ◌
increment_pos n h = ground (arith, int32_of_range (pos n +ℤ pos 1))

pub decrement_pos : (n : ℕ) → n ≤ 2147483646 → decrement (pos (suc n)) ≡ pos n
unfolding decrement ◌-ℤ◌
decrement_pos n h = ground (arith, int32_of_range (pos (suc n) -ℤ pos 1))

-- Where an entry was found.
pub record IsFound (test : BurstNodeStatus → Bool) (f : Found) : Type 0 where
  pub nodes : f.pool.status.nodes ≡ f.split.before ++ f.split.entry ∷ f.split.after
  pub passes : test f.split.entry ≡ true

abbrev Splits : (BurstNodeStatus → Bool) → List BurstNodeStatus → Option Split → Type 0
Splits test ns none = Unit
Splits test ns (some s) = (ns ≡ s.before ++ s.entry ∷ s.after) × (test s.entry ≡ true)

push_front-Splits :
    (test : BurstNodeStatus → Bool) (n : BurstNodeStatus) (ns : List BurstNodeStatus)
    (o : Option Split)
    → Splits test ns o
    → Splits test (n ∷ ns) (push_front n o)
push_front-Splits test n ns none h = tt
push_front-Splits test n ns (some s) h = (ap (◌∷◌ n) h.0, h.1)

find_node-Splits :
    (test : BurstNodeStatus → Bool) (ns : List BurstNodeStatus) → Splits test ns (find_node test ns)
unfolding find_node
find_node-Splits test [] = tt
find_node-Splits test (n ∷ ns) = elim (Bool-cases (test n)) [
  | inl e ↦ rw (e, find_node) (refl, e)
  | inr e ↦ rw (e, find_node) (push_front-Splits test n ns _ (find_node-Splits test ns))
]

-- A search over pools of which `P` holds finds an entry of such a pool, or nothing.
abbrev pub Finds : (BurstNodePool → Type 0) → (BurstNodeStatus → Bool) → Option Found → Type 0
Finds P test none = Unit
Finds P test (some f) = P f.pool × IsFound test f

found_in-Finds :
    (P : BurstNodePool → Type 0) (test : BurstNodeStatus → Bool) (p : BurstNodePool)
    (o : Option Split) (rest : Option Found)
    → P p
    → Splits test p.status.nodes o
    → Finds P test rest
    → Finds P test (found_in p o rest)
found_in-Finds P test p none rest hp h k = k
found_in-Finds P test p (some s) rest hp h k = (hp, record { nodes = h.0; passes = h.1 })

pub find_pool_and_node-Finds :
    (P : BurstNodePool → Type 0) (test : BurstNodeStatus → Bool) (pools : List BurstNodePool)
    → All P pools
    → Finds P test (find_pool_and_node test pools)
unfolding find_pool_and_node
find_pool_and_node-Finds P test [] h = tt
find_pool_and_node-Finds P test (p ∷ ps) h =
    found_in-Finds P test p _ _ h.0 (find_node-Splits test p.status.nodes)
      (find_pool_and_node-Finds P test ps h.1)

-- The numbers of entries around the one that was found.
abbrev pub others : (NodeState → ℕ) → Found → ℕ
others w f = weigh w (f.split.before ++ f.split.after)

module _ (test : BurstNodeStatus → Bool) (f : Found) (found : IsFound test f) where
  pub weigh_found :
      (w : NodeState → ℕ) → weigh w f.pool.status.nodes ≡ w f.split.entry.state + others w f
  weigh_found w = rw found.nodes (weigh_split w f.split)

  module _ {slack : ℕ} (counted : IsCountedBy slack f.pool.status) where
    pub pending_found :
        f.pool.status.pending_nodes
        ≡ pos (pending_weight f.split.entry.state + others pending_weight f)
    pending_found = rw (counted.pending_counted, weigh_found pending_weight)

    pub active_found :
        f.pool.status.active_nodes
        ≡ pos (plus_slack slack (active_weight f.split.entry.state + others active_weight f))
    active_found = rw (counted.active_counted, weigh_found active_weight)

    pub range_found :
        pending_weight f.split.entry.state
          + others pending_weight f
          + (slack + (active_weight f.split.entry.state + others active_weight f))
        ≤ 2147483647
    range_found = omega (
      arith,
      counted.in_range,
      weigh_found pending_weight,
      weigh_found active_weight,
      plus_slack_lem slack (weigh active_weight f.pool.status.nodes),
    )

    -- Changing the found entry keeps the counters right while the entry stays as it counts.
    pub with_entry-IsCountedBy :
        (entry : BurstNodeStatus)
        → pending_weight entry.state ≡ pending_weight f.split.entry.state
        → active_weight entry.state ≡ active_weight f.split.entry.state
        → IsCountedBy slack (with_entry f entry).status
    unfolding with_entry
    with_entry-IsCountedBy entry same_pending same_active =
        let at_p = weigh_split pending_weight (record f.split { entry = entry }) in
        let at_a = weigh_split active_weight (record f.split { entry = entry }) in
        record {
          pending_counted = rw (at_p, same_pending) pending_found;
          active_counted = rw (at_a, same_active) active_found;
          in_range = omega (
            arith,
            at_p,
            at_a,
            same_pending,
            same_active,
            range_found,
            plus_slack_lem slack (weigh active_weight (with_entry f entry).status.nodes),
          );
        }
