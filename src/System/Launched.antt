-- ===== src/System/Launched.antt =====
-- The instances that the cloud launched for the controller, and those of the stored pools.
pub mod Reached
use cloud_burst_controller.Common.{
  ◌≡◌, refl, inl, inr, suc, String, List, [], ◌∷◌, ◌++◌, All, All-map, All-get, All-middle,
  All-replace, IsIn, subst, sym, Bool-cases,
}
use cloud_burst_controller.Api.{BurstNodeStatus, BurstNodePool}
use cloud_burst_controller.Errors.{ok, err}
use cloud_burst_controller.Effect.{
  Request, Response, get_pool, list_pools, update_pool_status, launch_node, terminate_node, call,
}
use cloud_burst_controller.Effect.Contract.{Event, event, Trace, Happened, Ensures}
use cloud_burst_controller.Controller.NodeStatus.Storing.{Anything}
use cloud_burst_controller.Controller.NodeStatus.Valid.{IsValid}
use cloud_burst_controller.System.{
  Store, History, stores, same_pool, put_status, Answers, Leads, Config, Thread, thread, State,
  Step, spawn, advance, create, edit, restart, Reaches, here, next, initial, program_of,
}
use cloud_burst_controller.System.Sound.{SoundFor, Answers-Assume, Leads-SoundFor}
use cloud_burst_controller.System.Safety.{EmptyStatus-IsValid}
use cloud_burst_controller.System.LifeCycle.{ReadPool}
use cloud_burst_controller.System.Known.{Shows, Known, KnownEntry, Promise, contract}
use cloud_burst_controller.System.Known.Programs.{program_of-Knows}

-- Each entry is of an instance of this list.
abbrev pub Owned : List String → BurstNodePool → Type 0
Owned ids p = All (λ (n : BurstNodeStatus). IsIn n.instance_id ids) p.status.nodes

-- Each instance that the calls showed is of this list.
abbrev pub Seen : List String → Trace → Type 0
Seen ids tr = (id : String) → Known tr id → IsIn id ids

-- The instances that an entry or a termination names were launched for the controller.
pub record IsOwn (h : History) : Type 0 where
  pub stored : All (All (Owned h.launched)) (stores h)
  pub terminated : All (λ id. IsIn id h.launched) h.terminated

abbrev pub Launched : String → History → Type 0
Launched id h = IsIn id h.launched

-- The list may grow.
module _ (ids : List String) (new : String) where
  grow : (id : String) → IsIn id ids → IsIn id (new ∷ ids)
  grow id k = (suc k.0, k.1)

  Owned-grow : (p : BurstNodePool) → Owned ids p → Owned (new ∷ ids) p
  Owned-grow p h = All-map (λ (n : BurstNodeStatus) k. grow n.instance_id k) p.status.nodes h

launch-IsOwn :
    (h : History) (new : String) → IsOwn h → IsOwn (record h { launched = new ∷ h.launched })
launch-IsOwn h new own = record {
  stored =
      All-map (λ store k. All-map (λ p j. Owned-grow h.launched new p j) store k) (stores h)
        own.stored;
  terminated = All-map (λ id k. grow h.launched new id k) h.terminated own.terminated;
}

put_status-Owned :
    (ids : List String) (p : BurstNodePool) (store : Store)
    → Owned ids p
    → All (Owned ids) store
    → All (Owned ids) (put_status p store)
unfolding put_status
put_status-Owned ids p [] own owned = tt
put_status-Owned ids p (q ∷ qs) own owned = elim (Bool-cases (same_pool p q)) [
  | inl e ↦ rw e (own, put_status-Owned ids p qs own owned.1)
  | inr e ↦ rw e (owned.0, put_status-Owned ids p qs own owned.1)
]

pub store-IsOwn :
    (h : History) (store : Store)
    → All (Owned h.launched) store
    → IsOwn h
    → IsOwn (record h { current = store; earlier = stores h })
store-IsOwn h store owned own = record { stored = (owned, own.stored); terminated = own.terminated }

-- What a program knows is owned; so is what it stores and terminates.
module _ (h : History) (tr : Trace) (seen : Seen h.launched tr) (own : IsOwn h) where
  put-IsOwn :
      (p : BurstNodePool)
      → All (KnownEntry tr) p.status.nodes
      → IsOwn (record h { current = put_status p h.current; earlier = stores h })
  put-IsOwn p known =
      store-IsOwn h (put_status p h.current)
        (put_status-Owned h.launched p h.current
          (All-map (λ (n : BurstNodeStatus) k. seen n.instance_id k) p.status.nodes known)
          own.stored.0)
        own

  pub Leads-IsOwn :
      (q : Request) (r : Response q) (h' : History) → Promise tr q → Leads h q r h' → IsOwn h'
  Leads-IsOwn (update_pool_status p) (ok u) h' known e = subst IsOwn (sym e) (put-IsOwn p known)
  Leads-IsOwn (update_pool_status p) (err x) h' known (inl e) = subst IsOwn (sym e) own
  Leads-IsOwn (update_pool_status p) (err x) h' known (inr e) =
      subst IsOwn (sym e) (put-IsOwn p known)
  Leads-IsOwn (launch_node opts) (ok id) h' known e = subst IsOwn (sym e) (launch-IsOwn h id own)
  Leads-IsOwn (launch_node opts) (err x) h' known (inl e) = subst IsOwn (sym e) own
  Leads-IsOwn (launch_node opts) (err x) h' known (inr (id, e)) =
      subst IsOwn (sym e) (launch-IsOwn h id own)
  Leads-IsOwn (terminate_node id) r h' known e =
      subst IsOwn (sym e)
        (record { stored = own.stored; terminated = (seen id known, own.terminated) })
  Leads-IsOwn _ _ h' known e = subst IsOwn (sym e) own

  -- No instance is forgotten.
  pub Leads-grows :
      (q : Request) (r : Response q) (h' : History)
      → Leads h q r h'
      → (id : String) → IsIn id h.launched
      → IsIn id h'.launched
  Leads-grows (update_pool_status p) (ok u) h' e id k = subst (Launched id) (sym e) k
  Leads-grows (update_pool_status p) (err x) h' (inl e) id k = subst (Launched id) (sym e) k
  Leads-grows (update_pool_status p) (err x) h' (inr e) id k = subst (Launched id) (sym e) k
  Leads-grows (launch_node opts) (ok new) h' e id k =
      subst (Launched id) (sym e) (grow h.launched new id k)
  Leads-grows (launch_node opts) (err x) h' (inl e) id k = subst (Launched id) (sym e) k
  Leads-grows (launch_node opts) (err x) h' (inr (new, e)) id k =
      subst (Launched id) (sym e) (grow h.launched new id k)
  Leads-grows (terminate_node other) r h' e id k = subst (Launched id) (sym e) k
  Leads-grows _ _ h' e id k = subst (Launched id) (sym e) k

  -- A pool that the server answers with is one of those stored.
  read-Owned :
      (q : Request) (r : Response q) (p : BurstNodePool)
      → Answers h q r
      → ReadPool p (event q r)
      → Owned h.launched p
  read-Owned q r p answered (inl (pools, e, (i, there))) =
      let (j, at_j) = subst (λ (ev : Event). Answers h ev.request ev.response) e answered in
      All-get (Owned h.launched) pools i p
        (All-get (All (Owned h.launched)) (stores h) j pools own.stored at_j) there
  read-Owned q r p answered (inr (key, e)) =
      let (i, j, store, at_i, at_j, _, _) =
        subst (λ (ev : Event). Answers h ev.request ev.response) e answered in
      All-get (Owned h.launched) store j p
        (All-get (All (Owned h.launched)) (stores h) i store own.stored at_i) at_j

  shown-IsIn :
      (q : Request) (r : Response q) (h' : History)
      → Answers h q r
      → Leads h q r h'
      → (id : String) → Shows id (event q r)
      → IsIn id h'.launched
  shown-IsIn q r h' answered led id (inl (p, n, read, (i, there), same)) =
      Leads-grows q r h' led id (
        subst (λ x. IsIn x h.launched) same
          (All-get (λ (m : BurstNodeStatus). IsIn m.instance_id h.launched) p.status.nodes i n
            (read-Owned q r p answered read) there))
  shown-IsIn q r h' answered led id (inr (opts, e)) =
      let launched = subst (λ (ev : Event). Leads h ev.request ev.response h') e led in
      subst (Launched id) (sym launched) (0, refl)

  pub Seen-next :
      (q : Request) (r : Response q) (h' : History)
      → Answers h q r
      → Leads h q r h'
      → Seen h'.launched (event q r ∷ tr)
  Seen-next q r h' answered led id (inl shows) = shown-IsIn q r h' answered led id shows
  Seen-next q r h' answered led id (inr known) = Leads-grows q r h' led id (seen id known)
