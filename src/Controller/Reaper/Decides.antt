-- ===== src/Controller/Reaper/Decides.antt =====
-- What `ReaperReconciler.Reconcile` decides about a running entry.
use cloud_burst_controller.Common.{
  ◌≡◌, ◌-ℤ◌, int64, String, Bool, true, false, none, some, List, [], ◌∷◌, all,
}
use cloud_burst_controller.Kube.{Time, Duration, Pod}
use cloud_burst_controller.Errors.{ok, err}
use cloud_burst_controller.Effect.{
  Request, Response, get_node, list_pools, list_pods_on, update_pool_status, now, Program, Outcome,
  requeue, since,
}
use cloud_burst_controller.Effect.Contract.{Anywhere, requests, Succeeded, Trace, Contract, Ensures}
use cloud_burst_controller.Controller.NodeStatus.{Found, find_pool_and_node, has_name}
use cloud_burst_controller.Controller.NodeReady.{is_managed}
use cloud_burst_controller.Controller.Reaper.{
  is_ignored, cooldown_of, idle_since, in_cooldown, check_interval,
}

-- The managed node of this name, its entry `f` and these pods on it are found, the status can be stored,
-- and the clock does not move during the run.
abbrev pub Assume : String → Found → List Pod → Time → (q : Request) → Response q → Type 0
Assume name f pods t (get_node key) (ok node) = (node.name ≡ name) × (is_managed node ≡ true)
Assume name f pods t (get_node key) (err e) = ⊥
Assume name f pods t list_pools (ok pools) = find_pool_and_node (has_name name) pools ≡ some f
Assume name f pods t list_pools (err e) = ⊥
Assume name f pods t (list_pods_on key) (ok ps) = ps ≡ pods
Assume name f pods t (list_pods_on key) (err e) = ⊥
Assume name f pods t (update_pool_status pool) r = Succeeded r
Assume name f pods t now at_time = at_time ≡ t
Assume name f pods t _ r = Unit

abbrev pub contract : String → Found → List Pod → Time → Contract
contract name f pods t = record { assume = Assume name f pods t; promise = Anywhere }

module _ (drainer : Bool) (interval : Duration) (name : String) (f : Found) (pods : List Pod)
    (t : Time) where
  -- The calls up to the list of the pods, the latest first.
  abbrev pub reads : List Request
  reads = list_pods_on name ∷ list_pools ∷ get_node name ∷ []

  -- How a run ends, but for the teardown of a node that is idle past its cooldown.
  pub data Decided (tr : Trace) (o : Outcome) : Type 0 where
    -- a pod runs: the idle time is reset
    busy :
        all is_ignored pods ≡ false
        → o ≡ requeue (check_interval drainer interval)
        → requests tr ≡ update_pool_status (idle_since none f) ∷ reads
        → Decided tr o
    -- idle for the first time: the time is stored
    newly_idle :
        all is_ignored pods ≡ true
        → f.split.entry.last_pod_finished ≡ none
        → o ≡ requeue (check_interval drainer interval)
        → requests tr ≡ update_pool_status (idle_since (some t) f) ∷ now ∷ reads
        → Decided tr o
    -- idle for less than the cooldown: nothing is stored, and the rest of the cooldown is waited for
    cooling :
        (finished : Time)
        → all is_ignored pods ≡ true
        → f.split.entry.last_pod_finished ≡ some finished
        → in_cooldown f (since t finished) ≡ true
        → o ≡ requeue (int64 (cooldown_of f.pool -ℤ since t finished))
        → requests tr ≡ now ∷ now ∷ reads
        → Decided tr o

  abbrev Ok : Trace → Program Outcome → Type 0
  Ok = Ensures (contract name f pods t) Decided

  abbrev AfterReads : Trace → Type 0
  AfterReads tr = requests tr ≡ reads
