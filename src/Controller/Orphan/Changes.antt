-- ===== src/Controller/Orphan/Changes.antt =====
-- Every change that `OrphanReconciler.Reconcile` makes to a stored pool.
use cloud_burst_controller.Common.{
  IsIn, ◌≡◌, refl, inl, inr, Option, none, some, List, [], ◌∷◌, String, Bool-cases,
}
use cloud_burst_controller.Kube.{Duration, Node}
use cloud_burst_controller.Api.{BurstNodePool}
use cloud_burst_controller.Cloud.{CloudNode}
use cloud_burst_controller.Errors.{ok, err}
use cloud_burst_controller.Effect.{list_pools, Program}
use cloud_burst_controller.Effect.Contract.{event, Trace, Happened, Ensures, Ensures-then}
use cloud_burst_controller.Controller.NodeStatus.{Found, has_name}
use cloud_burst_controller.Controller.NodeStatus.Valid.{IsFound, Finds}
use cloud_burst_controller.Controller.NodeStatus.Storing.{
  ListedPool, storing, Anything, listed_found,
}
use cloud_burst_controller.Controller.Orphan.{
  remove_entry, remove_found, remove_from_pool_status, has_node, has_instance, in_boot_timeout,
  check_instance, check_instances, check_node, check_nodes, boot_timeout, reconcile,
}

-- An entry that was found in a listed pool is removed.
pub record Change (tr : Trace) (stored : BurstNodePool) : Type 0 where
  pub name : String
  pub found : Found
  pub is_entry : IsFound (has_name name) found
  pub listed : Happened (ListedPool found.pool) tr
  pub removed : stored ≡ remove_entry found

abbrev Fine : Trace → Program Unit → Type 0
Fine = Ensures (storing Change) (λ tr u. Unit)

remove_found-Fine :
    (name : String) (pools : List BurstNodePool) (tr : Trace) (o : Option Found)
    → Finds (λ p. IsIn p pools × Unit) (has_name name) o
    → Fine (event list_pools (ok pools) ∷ tr) (remove_found o)
unfolding remove_found
remove_found-Fine name pools tr none h = tt
remove_found-Fine name pools tr (some f) h = (
  record {
    name = name;
    found = f;
    is_entry = h.1;
    listed = inl (pools, refl, h.0.0);
    removed = refl;
  },
  λ r _. tt,
)

remove_from_pool_status-Fine : (name : String) (tr : Trace) → Fine tr (remove_from_pool_status name)
unfolding remove_from_pool_status
remove_from_pool_status-Fine name tr = (
  tt,
  elim [
    | err e ↦ λ _. tt
    | ok pools ↦ λ _. remove_found-Fine name pools tr _ (listed_found (has_name name) pools)
  ],
)

module _ (timeout : Duration) (instances : List CloudNode) (nodes : List Node) where
  check_instance-Fine : (cn : CloudNode) (tr : Trace) → Fine tr (check_instance timeout nodes cn)
  unfolding check_instance
  check_instance-Fine cn tr = elim (Bool-cases (has_node nodes cn.name)) [
    | inl there ↦ rw there tt
    | inr absent ↦ rw absent (
      tt,
      λ t _. elim (Bool-cases (in_boot_timeout timeout cn t)) [
        | inl young ↦ rw young tt
        | inr old ↦ rw old (tt, λ r _. remove_from_pool_status-Fine cn.name _)
      ],
    )
  ]

  check_instances-Fine :
      (cns : List CloudNode) (tr : Trace) → Fine tr (check_instances timeout nodes cns)
  unfolding check_instances
  check_instances-Fine [] tr = tt
  check_instances-Fine (cn ∷ cns) tr =
      Ensures-then (storing Change) (λ tr' u. Unit) (λ tr' u. Unit) tr
        (check_instance timeout nodes cn) _ (check_instance-Fine cn tr)
        (λ tr' u h. check_instances-Fine cns tr')

  check_node-Fine : (node : Node) (tr : Trace) → Fine tr (check_node instances node)
  unfolding check_node
  check_node-Fine node tr = elim (Bool-cases (has_instance instances node.name)) [
    | inl there ↦ rw there tt
    | inr absent ↦ rw absent (tt, λ r _. remove_from_pool_status-Fine node.name _)
  ]

  check_nodes-Fine : (ns : List Node) (tr : Trace) → Fine tr (check_nodes instances ns)
  unfolding check_nodes
  check_nodes-Fine [] tr = tt
  check_nodes-Fine (n ∷ ns) tr =
      Ensures-then (storing Change) (λ tr' u. Unit) (λ tr' u. Unit) tr (check_node instances n) _
        (check_node-Fine n tr) (λ tr' u h. check_nodes-Fine ns tr')

-- Whatever the responses are, each pool that `Reconcile` stores is such a change, and it never panics.
pub orphan-Changes :
    (interval timeout : Duration)
    → Ensures (storing Change) Anything [] (reconcile interval timeout)
unfolding reconcile
orphan-Changes interval timeout = (
  tt,
  elim [
    | err e ↦ λ _. tt
    | ok instances ↦ λ _. (
      tt,
      elim [
        | err e ↦ λ _. tt
        | ok nodes ↦ λ _.
            let limit = boot_timeout interval timeout in
            Ensures-then (storing Change) (λ tr u. Unit) Anything _
              (check_instances limit nodes instances) _
              (check_instances-Fine limit instances nodes instances _)
              (λ tr u h.
                Ensures-then (storing Change) (λ tr' u'. Unit) Anything tr
                  (check_nodes instances nodes) _ (check_nodes-Fine limit instances nodes nodes tr)
                  (λ tr' u' h'. tt))
      ],
    )
  ],
)
