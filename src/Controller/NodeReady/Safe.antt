-- ===== src/Controller/NodeReady/Safe.antt =====
-- What `NodeReadyReconciler.Reconcile` does to the pools, against every environment.
use cloud_burst_controller.Common.{
  IsIn, ℕ, suc, ◌+◌, ◌≤◌, ◌≡◌, refl, pos, ◌<ℤ◌, ltb_ℤ→lt, true, false, inl, inr, Option, none, some,
  List, [], ◌∷◌, All, All-self, String, arith, Bool-cases,
}
use cloud_burst_controller.Kube.{Time, Node}
use cloud_burst_controller.Api.{pending, running, BurstNodePool}
use cloud_burst_controller.Errors.{ok, err}
use cloud_burst_controller.Effect.{
  Request, Response, list_pools, update_pool_status, get_node, terminate_node, now, Program, since,
  Outcome,
}
use cloud_burst_controller.Effect.Contract.{Event, event, Trace, Happened, Contract, Ensures}
use cloud_burst_controller.Controller.NodeStatus.{Found, with_entry, without_entry}
use cloud_burst_controller.Controller.NodeStatus.Valid.{
  pending_weight, active_weight, weigh_split, plus_slack_lem, weigh, IsCountedBy, IsValid, IsFound,
  Finds, find_pool_and_node-Finds, others, increment_pos, decrement_pos, pending_found,
  active_found, range_found,
}
use cloud_burst_controller.Controller.NodeStatus.Storing.{ListedPool}
use cloud_burst_controller.Controller.NodeReady.{
  is_node_ready, is_pending_entry, mark_running, become_ready, store_status, boot_timeout,
  drop_pending, is_past_boot_timeout, is_burst_node, check_boot_timeout, handle_entry, reconcile,
}

-- The pools that are listed have valid statuses.
abbrev pub ListsValid : (q : Request) → Response q → Type 0
ListsValid list_pools (ok pools) = All (λ (p : BurstNodePool). IsValid p.status) pools
ListsValid _ _ = Unit

-- The clock was read when the entry was past the pool's boot timeout.
abbrev pub PastBootTimeout : Found → Event → Type 0
PastBootTimeout f e =
    (t : Time) × (e ≡ event now t) × (boot_timeout f.pool <ℤ since t f.split.entry.launched_at)

-- Why an instance may be terminated: it is that of a pending entry of a pool that was listed, its node
-- was fetched and is not ready, and its boot timeout is over.
pub record MayTerminate (name : String) (tr : Trace) (id : String) : Type 0 where
  pub found : Found
  pub node : Node
  pub is_entry : IsFound (is_pending_entry node.name) found
  pub has_id : found.split.entry.instance_id ≡ id
  pub fetched : Happened (λ e. e ≡ event (get_node name) (ok node)) tr
  pub not_ready : is_node_ready node ≡ false
  pub listed : Happened (ListedPool found.pool) tr
  pub timed_out : Happened (PastBootTimeout found) tr

abbrev pub Promise : String → Trace → Request → Type 0
Promise name tr (update_pool_status pool) = IsValid pool.status
Promise name tr (terminate_node id) = MayTerminate name tr id
Promise name tr _ = Unit

abbrev pub contract : String → Contract
contract name = record { assume = ListsValid; promise = Promise name }

abbrev pub Anything : Trace → Outcome → Type 0
Anything tr o = Unit

module _ (name : String) (f : Found) (found : IsFound (is_pending_entry name) f) where
  pub entry_pending : f.split.entry.state ≡ pending
  unfolding is_pending_entry
  entry_pending = ground (arith, found.passes)

  module _ {slack : ℕ} (counted : IsCountedBy slack f.pool.status) where
    pending_is : f.pool.status.pending_nodes ≡ pos (suc (others pending_weight f))
    pending_is = rw (pending_found _ f found counted, entry_pending) (ground arith)

    active_is : f.pool.status.active_nodes ≡ pos (slack + others active_weight f)
    active_is =
        rw
          (
            active_found _ f found counted,
            entry_pending,
            plus_slack_lem slack (active_weight pending + others active_weight f),
          )
          (ground arith)

    room : others pending_weight f + (slack + others active_weight f) ≤ 2147483646
    room = omega (arith, rw entry_pending at (range_found _ f found counted))

    pub mark_running-IsCountedBy : (t : Time) → IsCountedBy slack (mark_running f t).status
    unfolding mark_running with_entry
    mark_running-IsCountedBy t =
        let at_p = weigh_split pending_weight (record f.split {
          entry = record f.split.entry { state = running; ready_at = some t };
        }) in
        let at_a = weigh_split active_weight (record f.split {
          entry = record f.split.entry { state = running; ready_at = some t };
        }) in
        record {
          pending_counted =
              rw (at_p, pending_is) (ground (arith, decrement_pos (others pending_weight f), room));
          active_counted =
              rw
                (
                  at_a,
                  active_is,
                  plus_slack_lem slack (active_weight running + others active_weight f),
                )
                (ground (arith, increment_pos (slack + others active_weight f), room));
          in_range = omega (
            arith,
            at_p,
            at_a,
            room,
            plus_slack_lem slack (weigh active_weight (mark_running f t).status.nodes),
          );
        }

    pub drop_pending-IsCountedBy : IsCountedBy slack (drop_pending f).status
    unfolding drop_pending without_entry
    drop_pending-IsCountedBy = record {
      pending_counted =
          rw pending_is (ground (arith, decrement_pos (others pending_weight f), room));
      active_counted = rw (active_is, plus_slack_lem slack (others active_weight f)) refl;
      in_range = omega (arith, room, plus_slack_lem slack (others active_weight f));
    }

is_past_boot_timeout-lt :
    (f : Found) (t : Time)
    → is_past_boot_timeout f t ≡ true
    → boot_timeout f.pool <ℤ since t f.split.entry.launched_at
unfolding is_past_boot_timeout
is_past_boot_timeout-lt f t late =
    ltb_ℤ→lt (boot_timeout f.pool) (since t f.split.entry.launched_at) late

module _ (name : String) where
  abbrev Ok : Trace → Program Outcome → Type 0
  Ok = Ensures (contract name) Anything

  store_status-Ok :
      (tr : Trace) (pool : BurstNodePool) → IsValid pool.status → Ok tr (store_status pool)
  unfolding store_status
  store_status-Ok tr pool h = (h, elim [ err e ↦ λ _. tt | ok u ↦ λ _. tt ])

  module _ (node : Node) (f : Found) (found : IsFound (is_pending_entry node.name) f)
      (valid : IsValid f.pool.status) where
    become_ready-Ok : (tr : Trace) → Ok tr (become_ready node f)
    unfolding become_ready
    become_ready-Ok tr = (
      tt,
      λ t _. (tt, λ r _. store_status-Ok _ _ (mark_running-IsCountedBy node.name f found valid t)),
    )

    check_boot_timeout-Ok :
        (tr : Trace)
        → is_node_ready node ≡ false
        → Happened (λ e. e ≡ event (get_node name) (ok node)) tr
        → Happened (ListedPool f.pool) tr
        → Ok tr (check_boot_timeout f)
    unfolding check_boot_timeout
    check_boot_timeout-Ok tr unready fetched listed = (
      tt,
      λ t _. elim (Bool-cases (is_past_boot_timeout f t)) [
        | inl late ↦ rw late (
          record {
            found = f;
            node = node;
            is_entry = found;
            has_id = refl;
            fetched = inr fetched;
            not_ready = unready;
            listed = inr listed;
            timed_out = inl (t, refl, is_past_boot_timeout-lt f t late);
          },
          λ r _. store_status-Ok _ _ (drop_pending-IsCountedBy node.name f found valid),
        )
        | inr early ↦ rw early tt
      ],
    )

  handle_entry-Ok :
      (tr : Trace) (node : Node) (pools : List BurstNodePool) (o : Option Found)
      → Finds (λ p. IsIn p pools × IsValid p.status) (is_pending_entry node.name) o
      → Happened (λ e. e ≡ event (get_node name) (ok node)) tr
      → Ok (event list_pools (ok pools) ∷ tr) (handle_entry node o)
  unfolding handle_entry
  handle_entry-Ok tr node pools none h fetched = tt
  handle_entry-Ok tr node pools (some f) h fetched = elim (Bool-cases (is_node_ready node)) [
    | inl ready ↦ rw ready (become_ready-Ok node f h.1 h.0.1 _)
    | inr unready ↦
        rw unready (
          check_boot_timeout-Ok node f h.1 h.0.1 _ unready (inr fetched) (inl (pools, refl, h.0.0)))
  ]

-- As long as the listed pools have valid statuses, `Reconcile` never panics, stores only valid
-- statuses, and terminates an instance only if it is that of a pending entry of a listed pool, the
-- node of that entry's name was fetched and is not ready, and the clock was read past the pool's
-- boot timeout.
pub node_ready-Ensures : (name : String) → Ensures (contract name) Anything [] (reconcile name)
unfolding reconcile
node_ready-Ensures name = (
  tt,
  elim [
    | err e ↦ λ _. tt
    | ok node ↦ λ _. elim (Bool-cases (is_burst_node node)) [
      | inl burst ↦ rw burst (
        tt,
        elim [
          | err e ↦ λ _. tt
          | ok pools ↦ λ listed.
              handle_entry-Ok name _ node pools _
                (find_pool_and_node-Finds _ (is_pending_entry node.name) pools
                  (All-self (λ (p : BurstNodePool). IsValid p.status) pools listed))
                (inl refl)
        ],
      )
      | inr foreign ↦ rw foreign tt
    ]
  ],
)
