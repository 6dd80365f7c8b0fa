-- ===== src/Controller/Provisioner/Working.antt =====
-- The services that the provisioner calls while they work, and the launches then.
use cloud_burst_controller.Common.{
  ℕ, zero, suc, ◌+◌, ◌≡◌, refl, subst, String, Bool, true, false, some, List, [], ◌∷◌, length,
  length-append, lookup, arith,
}
use cloud_burst_controller.Common.Sorting.{Sorter}
use cloud_burst_controller.Kube.{Pod}
use cloud_burst_controller.Api.{InstanceTypeConfig, AwsConfig, BurstNodePool}
use cloud_burst_controller.Errors.{Error, wrapped, Result, ok, err}
use cloud_burst_controller.Talos.{Yaml, patch_and_encode}
use cloud_burst_controller.Effect.{
  fail, Request, Response, get_pod, list_pods, get_pool, list_pools, update_pool_status, get_secret,
  launch_node, Outcome, done,
}
use cloud_burst_controller.Effect.Contract.{
  Anywhere, event, requests, Succeeded, Trace, Contract, Ensures, Ensures-then,
}
use cloud_burst_controller.Controller.Matching.{name_less, match_pod_to_pool}
use cloud_burst_controller.Controller.Provisioner.{
  config_key_of, node_name_for, add_pending_node, add_launched, launch_configured, launch_node_for,
  launch_nodes,
}
use cloud_burst_controller.Controller.Provisioner.Launch.{launch_with_fallback}
use cloud_burst_controller.Controller.Provisioner.Promise.{launches}

-- A status update succeeds, or fails, as `stores` says.
abbrev pub AsSaid : Bool → Result Unit → Type 0
AsSaid true r = Succeeded r
AsSaid false (ok u) = ⊥
AsSaid false (err e) = Unit

-- The services work: the pod, the pools and their pods, and the secret are found, and every launch
-- succeeds. Whether the pod can be annotated does not matter.
abbrev pub Works :
    Bool
    → Sorter name_less
    → Pod
    → (pool fresh : BurstNodePool) → List Pod
    → List ℕ
    → (q : Request) → Response q
    → Type 0
Works stores sorter pod pool fresh pods config_data (get_pod key) (ok p) = p ≡ pod
Works stores sorter pod pool fresh pods config_data (get_pod key) (err e) = ⊥
Works stores sorter pod pool fresh pods config_data list_pools (ok pools) =
    match_pod_to_pool sorter pod pools ≡ some pool
Works stores sorter pod pool fresh pods config_data list_pools (err e) = ⊥
Works stores sorter pod pool fresh pods config_data (get_pool key) (ok p) = p ≡ fresh
Works stores sorter pod pool fresh pods config_data (get_pool key) (err e) = ⊥
Works stores sorter pod pool fresh pods config_data list_pods (ok ps) = ps ≡ pods
Works stores sorter pod pool fresh pods config_data list_pods (err e) = ⊥
Works stores sorter pod pool fresh pods config_data (get_secret key) (ok secret) =
    lookup (config_key_of fresh) secret.contents ≡ some config_data
Works stores sorter pod pool fresh pods config_data (get_secret key) (err e) = ⊥
Works stores sorter pod pool fresh pods config_data (launch_node opts) r = Succeeded r
Works stores sorter pod pool fresh pods config_data (update_pool_status p) r = AsSaid stores r
Works stores sorter pod pool fresh pods config_data _ r = Unit

-- After a stored status there is nothing to do; else the run ends with the error of the update.
abbrev pub EndsAs : Bool → Trace → Outcome → Type 0
EndsAs true tr o = o ≡ done
EndsAs false tr o =
    (e : Error) × (p : BurstNodePool) × (earlier : List Request) × (o
      ≡ fail (wrapped "updating pool status" e))
    × (requests tr ≡ update_pool_status p ∷ earlier)

pub failed_lem :
    (b : Bool) (e : Error) (p : BurstNodePool) (tr : Trace)
    → AsSaid b (err e)
    → EndsAs b (event (update_pool_status p) (err e) ∷ tr) (fail (wrapped "updating pool status" e))
failed_lem true e p tr h = absurd h
failed_lem false e p tr h = (e, p, requests tr, refl, refl)

pub stored_lem : (b : Bool) (u : Unit) (tr : Trace) → AsSaid b (ok u) → EndsAs b tr done
stored_lem true u tr h = refl
stored_lem false u tr h = absurd h

-- As many launches as this, of a pool with an AWS configuration.
pub record After (aws : AwsConfig) (n : ℕ) (tr : Trace) (p : BurstNodePool) : Type 0 where
  pub launched : length (launches tr) ≡ n
  pub has_aws : p.spec.aws ≡ some aws

-- How a run ends, after as many launches as this.
pub record Provisioned (stores : Bool) (n : ℕ) (tr : Trace) (o : Outcome) : Type 0 where
  pub ended : EndsAs stores tr o
  pub launched : length (launches tr) ≡ n

module _ (stores : Bool) (sorter : Sorter name_less) (pod : Pod) (pool fresh : BurstNodePool)
    (pods : List Pod) (config_data : List ℕ) where
  abbrev pub contract : Contract
  contract = record {
    assume = Works stores sorter pod pool fresh pods config_data;
    promise = Anywhere;
  }

  module _ (yaml : Yaml)
      (patches : (name : String) → Succeeded (patch_and_encode yaml config_data name))
      (c : InstanceTypeConfig) (cs : List InstanceTypeConfig) (aws : AwsConfig) where
    launch_configured-Ok :
        (n : ℕ) (tr : Trace) (p : BurstNodePool) (name : String) (config : Result (List ℕ))
        → Succeeded config
        → After aws n tr p
        → Ensures contract
            (After aws (n + 1))
            tr
            (launch_configured yaml config_data (c ∷ cs) p name config)
    unfolding launch_configured add_launched launch_with_fallback add_pending_node
    launch_configured-Ok n tr p name (err e) failed h = absurd failed
    launch_configured-Ok n tr p name (ok user_data) good h = rw h.has_aws (
      tt,
      elim [
        | err e ↦ λ failed. absurd failed
        | ok id ↦ λ _. (
          tt,
          λ t _. record {
            launched = omega (arith, length-append (launches tr) (id ∷ []), h.launched);
            has_aws = refl;
          },
        )
      ],
    )

    suc_right : (n left : ℕ) → n + suc left ≡ n + 1 + left
    suc_right n left = omega arith

    launch_nodes-Ok :
        (left n : ℕ) (tr : Trace) (p : BurstNodePool)
        → After aws n tr p
        → Ensures contract (After aws (n + left)) tr (launch_nodes yaml config_data (c ∷ cs) left p)
    unfolding launch_nodes launch_node_for
    launch_nodes-Ok zero n tr p h = record {
      launched = omega (arith, h.launched);
      has_aws = h.has_aws;
    }
    launch_nodes-Ok (suc left) n tr p h = (
      tt,
      λ bytes _.
          let name = node_name_for p bytes in
          Ensures-then contract (After aws (n + 1)) (After aws (n + suc left)) _
            (launch_configured yaml config_data (c ∷ cs) p name
              (patch_and_encode yaml config_data name))
            _
            (launch_configured-Ok n _ p name (patch_and_encode yaml config_data name) (patches name)
              (record { launched = h.launched; has_aws = h.has_aws }))
            (λ tr' p' h'. rw (suc_right n left) (launch_nodes-Ok left (n + 1) tr' p' h')),
    )

    pub launch_all :
        (n : ℕ) (tr : Trace) (p : BurstNodePool)
        → After aws 0 tr p
        → Ensures contract (After aws n) tr (launch_nodes yaml config_data (c ∷ cs) n p)
    launch_all n tr p h =
        let from_zero : 0 + n ≡ n = omega arith in
        subst (λ m. Ensures contract (After aws m) tr (launch_nodes yaml config_data (c ∷ cs) n p))
          from_zero (launch_nodes-Ok n 0 tr p h)
