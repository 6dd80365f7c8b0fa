-- ===== src/System/Sound.antt =====
-- What holds of all stored pools, and what each reconciler keeps to for the others.
use cloud_burst_controller.Common.{
  inl, inr, ◌≤◌, IsInt32, [], ◌∷◌, length, All, All-get, subst, sym, Bool-cases,
}
use cloud_burst_controller.Api.{BurstNodePoolStatus, BurstNodePool}
use cloud_burst_controller.Errors.{ok, err}
use cloud_burst_controller.Effect.{
  Request, Response, list_pods, get_pool, list_pools, update_pool_status, launch_node,
  terminate_node,
}
use cloud_burst_controller.Effect.Contract.{Trace, Contract}
use cloud_burst_controller.Controller.NodeStatus.Valid.{IsValid}
use cloud_burst_controller.System.{Store, History, stores, same_pool, put_status, Answers, Leads}

-- For a condition on the statuses:
module _ (Good : BurstNodePoolStatus → Type 0) where
  -- it holds of the status, and the maximum fits its field.
  abbrev pub IsSoundFor : BurstNodePool → Type 0
  IsSoundFor p = Good p.status × IsInt32 p.spec.scaling.max_nodes

  abbrev pub SoundFor : History → Type 0
  SoundFor h = All (All IsSoundFor) (stores h)

  abbrev pub Assume : (q : Request) → Response q → Type 0
  Assume list_pools (ok pools) = All IsSoundFor pools
  Assume (get_pool key) (ok pool) = IsSoundFor pool
  Assume list_pods (ok pods) = length pods ≤ 2147483647
  Assume _ _ = Unit

  abbrev pub Promise : Trace → Request → Type 0
  Promise tr (update_pool_status pool) = Good pool.status
  Promise tr _ = Unit

  -- What all reconcilers rely on and keep to.
  abbrev pub shared : Contract
  shared = record { assume = Assume; promise = Promise }

  -- A response of the server meets the assumption.
  pub Answers-Assume :
      (h : History) (q : Request) (r : Response q) → SoundFor h → Answers h q r → Assume q r
  Answers-Assume h list_pools (ok pools) sound (i, e) =
      All-get (All IsSoundFor) (stores h) i pools sound e
  Answers-Assume h (get_pool key) (ok pool) sound (i, j, store, e, f, _, _) =
      All-get IsSoundFor store j pool (All-get (All IsSoundFor) (stores h) i store sound e) f
  Answers-Assume h list_pods (ok pods) sound few = few
  Answers-Assume h _ _ sound a = tt

  put_status-IsSoundFor :
      (p : BurstNodePool) (store : Store)
      → Good p.status
      → All IsSoundFor store
      → All IsSoundFor (put_status p store)
  unfolding put_status
  put_status-IsSoundFor p [] good sound = tt
  put_status-IsSoundFor p (q ∷ qs) good sound = elim (Bool-cases (same_pool p q)) [
    | inl e ↦ rw e ((good, sound.0.1), put_status-IsSoundFor p qs good sound.1)
    | inr e ↦ rw e (sound.0, put_status-IsSoundFor p qs good sound.1)
  ]

  -- A kept promise leaves the stored pools sound.
  pub Leads-SoundFor :
      (tr : Trace) (h : History) (q : Request) (r : Response q) (h' : History)
      → Promise tr q
      → Leads h q r h'
      → SoundFor h
      → SoundFor h'
  Leads-SoundFor tr h (update_pool_status p) (ok u) h' good e sound =
      subst SoundFor (sym e) (put_status-IsSoundFor p h.current good sound.0, sound)
  Leads-SoundFor tr h (update_pool_status p) (err x) h' good (inl e) sound =
      subst SoundFor (sym e) sound
  Leads-SoundFor tr h (update_pool_status p) (err x) h' good (inr e) sound =
      subst SoundFor (sym e) (put_status-IsSoundFor p h.current good sound.0, sound)
  Leads-SoundFor tr h (launch_node opts) (ok id) h' good e sound = subst SoundFor (sym e) sound
  Leads-SoundFor tr h (launch_node opts) (err x) h' good (inl e) sound =
      subst SoundFor (sym e) sound
  Leads-SoundFor tr h (launch_node opts) (err x) h' good (inr (id, e)) sound =
      subst SoundFor (sym e) sound
  Leads-SoundFor tr h (terminate_node id) r h' good e sound = subst SoundFor (sym e) sound
  Leads-SoundFor tr h _ _ h' good e sound = subst SoundFor (sym e) sound

-- A valid status, and a maximum that fits its field.
abbrev pub IsSound : BurstNodePool → Type 0
IsSound = IsSoundFor IsValid
