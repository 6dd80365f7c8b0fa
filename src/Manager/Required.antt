-- ===== src/Manager/Required.antt =====
-- The setup that `main` of cmd/main.go has to make before it starts the manager, and that it does.
use cloud_burst_controller.Common.{
  ◌≡◌, refl, subst, sym, ◌⊎◌, inl, inr, pos, ltb_ℤ, true, List, [], ◌∷◌, ◌++◌, All, if◌then◌else◌,
}
use cloud_burst_controller.Effect.{seconds}
use cloud_burst_controller.Controller.Orphan
use cloud_burst_controller.Manager.Options.{Flags, manager_options}
use cloud_burst_controller.Api.Scheme.{burst_types}
use cloud_burst_controller.Metrics.{collectors}
use cloud_burst_controller.Controller.Watch.{
  provisioner_filter, node_ready_filter, reaper_filter, node_name_index,
}
use cloud_burst_controller.Manager.{
  provisioner, node_ready, reaper, orphan, reconcilers, SetupCall, register_collectors,
  add_client_types, add_burst_types, get_config, new_manager, new_cloud_provider, new_clientset,
  index_pods, watch_pods, watch_nodes, add_runner, add_check, start_manager, setup_calls,
  failure_code, init_calls, set_up_all,
}

-- The setup that every start needs, in its order: the types before the manager, the manager and its
-- services before the four reconcilers, each with its period, the index of the pods before the reaper,
-- and the start of the manager at the end.
abbrev pub required_calls : Flags → List SetupCall
required_calls flags =
    register_collectors collectors
    ∷ add_client_types
    ∷ add_burst_types burst_types
    ∷ new_manager (manager_options flags)
    ∷ new_cloud_provider
    ∷ new_clientset
    ∷ watch_pods "provisioner" provisioner_filter (provisioner flags.debounce_period)
    ∷ watch_nodes "nodeready" node_ready_filter node_ready
    ∷ index_pods "spec.nodeName" node_name_index
    ∷ watch_nodes "reaper" reaper_filter (reaper true flags.reaper_check_interval)
    ∷ add_runner (orphan flags.orphan_check_interval (pos 0)) (
        if ltb_ℤ (pos 0) flags.orphan_check_interval
        then flags.orphan_check_interval
        else seconds 300)
    ∷ add_check "healthz"
    ∷ add_check "readyz"
    ∷ start_manager
    ∷ []

-- The elements of the first list are among those of the second, in the same order.
abbrev pub Sublist : List SetupCall → List SetupCall → Type 0
Sublist [] ds = Unit
Sublist (c ∷ cs) [] = ⊥
Sublist (c ∷ cs) (d ∷ ds) = ((c ≡ d) × Sublist cs ds) ⊎ Sublist (c ∷ cs) ds

abbrev pub IsStart : SetupCall → Type 0
IsStart start_manager = Unit
IsStart _ = ⊥

-- One of the registrations of the `init` functions.
abbrev pub IsRegistration : SetupCall → Type 0
IsRegistration (register_collectors cs) = Unit
IsRegistration add_client_types = Unit
IsRegistration (add_burst_types types) = Unit
IsRegistration _ = ⊥

pub failure_code-cases :
    (c : SetupCall)
    → (IsRegistration c × (failure_code c ≡ 2)) ⊎ ((¬ IsRegistration c) × (failure_code c ≡ 1))
unfolding failure_code
failure_code-cases (register_collectors cs) = inl (tt, refl)
failure_code-cases add_client_types = inl (tt, refl)
failure_code-cases (add_burst_types types) = inl (tt, refl)
failure_code-cases _ = inr ((λ h. h), refl)

-- Only the last call starts the manager.
abbrev pub StartsLast : List SetupCall → Type 0
StartsLast [] = Unit
StartsLast (c ∷ []) = Unit
StartsLast (c ∷ d ∷ ds) = (¬ IsStart c) × StartsLast (d ∷ ds)

StartsLast-append :
    (earlier : List SetupCall) (last : SetupCall)
    → All (λ c. ¬ IsStart c) earlier
    → StartsLast (earlier ++ last ∷ [])
StartsLast-append [] last h = tt
StartsLast-append (c ∷ []) last h = (h.0, tt)
StartsLast-append (c ∷ d ∷ ds) last h = (h.0, StartsLast-append (d ∷ ds) last h.1)

pub setup_calls-Sublist : (flags : Flags) → Sublist (required_calls flags) (setup_calls flags)
unfolding setup_calls reconcilers Orphan.check_interval manager_options
setup_calls-Sublist flags = inl (
  refl,
  inl (
    refl,
    inl (
      refl,
      inr (
          inl (
            refl,
            inl (
              refl,
              inl (
                refl,
                inl (
                  refl,
                  inl (
                    refl,
                    inl (refl, inl (refl, inl (refl, inl (refl, inl (refl, inl (refl, tt)))))),
                  ),
                ),
              ),
            ),
          )),
    ),
  ),
)

-- The setup without its last call.
abbrev pub before_start : Flags → List SetupCall
before_start flags =
    init_calls
    ++ get_config
      ∷ new_manager (manager_options flags)
      ∷ new_cloud_provider
      ∷ new_clientset
      ∷ set_up_all (reconcilers flags) (add_check "healthz" ∷ add_check "readyz" ∷ [])

pub setup_calls_last :
    (flags : Flags) → setup_calls flags ≡ before_start flags ++ start_manager ∷ []
unfolding setup_calls reconcilers
setup_calls_last flags = refl

pub not_started_before : (flags : Flags) → All (λ c. ¬ IsStart c) (before_start flags)
unfolding reconcilers
not_started_before flags = (
  (λ h. h),
  (
    (λ h. h),
    (
      (λ h. h),
      (
        (λ h. h),
        (
          (λ h. h),
          (
            (λ h. h),
            (
              (λ h. h),
              (
                (λ h. h),
                ((λ h. h), ((λ h. h), ((λ h. h), ((λ h. h), ((λ h. h), ((λ h. h), tt)))))),
              ),
            ),
          ),
        ),
      ),
    ),
  ),
)

pub setup_calls-StartsLast : (flags : Flags) → StartsLast (setup_calls flags)
setup_calls-StartsLast flags =
    subst StartsLast (sym (setup_calls_last flags))
      (StartsLast-append (before_start flags) start_manager (not_started_before flags))
