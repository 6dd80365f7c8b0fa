-- ===== src/Controller/NodeReady/Changes.antt =====
-- Every change that `NodeReadyReconciler.Reconcile` makes to a stored pool.
use cloud_burst_controller.Common.{
  IsIn, ◌≡◌, refl, inl, inr, Option, none, some, List, [], ◌∷◌, String, Bool-cases,
}
use cloud_burst_controller.Kube.{Time, Node}
use cloud_burst_controller.Api.{BurstNodePool}
use cloud_burst_controller.Errors.{ok, err}
use cloud_burst_controller.Effect.{list_pools, terminate_node, Program, Outcome}
use cloud_burst_controller.Effect.Contract.{event, Trace, Happened, Ensures}
use cloud_burst_controller.Controller.NodeStatus.{Found}
use cloud_burst_controller.Controller.NodeStatus.Valid.{IsFound, Finds}
use cloud_burst_controller.Controller.NodeStatus.Storing.{
  ListedPool, storing, Anything, listed_found,
}
use cloud_burst_controller.Controller.NodeReady.{
  is_node_ready, is_pending_entry, mark_running, become_ready, store_status, drop_pending,
  is_past_boot_timeout, is_burst_node, check_boot_timeout, handle_entry, reconcile,
}

-- What is stored for a pending entry that was found: it is left out only after the termination of its
-- instance was asked for.
pub data Booted (tr : Trace) (f : Found) (stored : BurstNodePool) : Type 0 where
  made_ready : (t : Time) → stored ≡ mark_running f t → Booted tr f stored
  given_up :
      Happened (λ e. e.request ≡ terminate_node f.split.entry.instance_id) tr
      → stored ≡ drop_pending f
      → Booted tr f stored

pub record Change (tr : Trace) (stored : BurstNodePool) : Type 0 where
  pub name : String
  pub found : Found
  pub is_entry : IsFound (is_pending_entry name) found
  pub listed : Happened (ListedPool found.pool) tr
  pub booted : Booted tr found stored

abbrev Ok : Trace → Program Outcome → Type 0
Ok = Ensures (storing Change) Anything

store_status-Ok : (tr : Trace) (pool : BurstNodePool) → Change tr pool → Ok tr (store_status pool)
unfolding store_status
store_status-Ok tr pool h = (h, elim [ err e ↦ λ _. tt | ok u ↦ λ _. tt ])

module _ (name : String) (f : Found) (found : IsFound (is_pending_entry name) f) where
  changed :
      {pool : BurstNodePool} (tr : Trace)
      → Happened (ListedPool f.pool) tr
      → Booted tr f pool
      → Change tr pool
  changed tr listed booted = record {
    name = name;
    found = f;
    is_entry = found;
    listed = listed;
    booted = booted;
  }

  become_ready-Ok :
      (node : Node) (tr : Trace) → Happened (ListedPool f.pool) tr → Ok tr (become_ready node f)
  unfolding become_ready
  become_ready-Ok node tr listed = (
    tt,
    λ t _. (tt, λ r _. store_status-Ok _ _ (changed _ (inr (inr listed)) (made_ready t refl))),
  )

  check_boot_timeout-Ok :
      (tr : Trace) → Happened (ListedPool f.pool) tr → Ok tr (check_boot_timeout f)
  unfolding check_boot_timeout
  check_boot_timeout-Ok tr listed = (
    tt,
    λ t _. elim (Bool-cases (is_past_boot_timeout f t)) [
      | inl late ↦
          rw late (
            tt,
            λ r _. store_status-Ok _ _ (changed _ (inr (inr listed)) (given_up (inl refl) refl)),
          )
      | inr early ↦ rw early tt
    ],
  )

handle_entry-Ok :
    (node : Node) (pools : List BurstNodePool) (tr : Trace) (o : Option Found)
    → Finds (λ p. IsIn p pools × Unit) (is_pending_entry node.name) o
    → Ok (event list_pools (ok pools) ∷ tr) (handle_entry node o)
unfolding handle_entry
handle_entry-Ok node pools tr none h = tt
handle_entry-Ok node pools tr (some f) h = elim (Bool-cases (is_node_ready node)) [
  | inl ready ↦ rw ready (become_ready-Ok node.name f h.1 node _ (inl (pools, refl, h.0.0)))
  | inr unready ↦ rw unready (check_boot_timeout-Ok node.name f h.1 _ (inl (pools, refl, h.0.0)))
]

-- Whatever the responses are, each pool that `Reconcile` stores is such a change, and it never panics.
pub node_ready-Changes : (name : String) → Ok [] (reconcile name)
unfolding reconcile
node_ready-Changes name = (
  tt,
  elim [
    | err e ↦ λ _. tt
    | ok node ↦ λ _. elim (Bool-cases (is_burst_node node)) [
      | inl burst ↦ rw burst (
        tt,
        elim [
          | err e ↦ λ _. tt
          | ok pools ↦
              λ _. handle_entry-Ok node pools _ _ (listed_found (is_pending_entry node.name) pools)
        ],
      )
      | inr foreign ↦ rw foreign tt
    ]
  ],
)
