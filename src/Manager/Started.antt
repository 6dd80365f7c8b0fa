-- ===== src/Manager/Started.antt =====
-- What `main` of cmd/main.go starts, and how it is set up: the ends of its setup, the servers and the
-- reconcilers.
use cloud_burst_controller.Common.{
  ◌≡◌, refl, ◌⊎◌, inl, inr, pos, ltb_ℤ, String, true, false, List, [], ◌∷◌, ◌++◌, Bool-cases, All,
  arith, if◌then◌else◌,
}
use cloud_burst_controller.Common.Sorting.{Sorter}
use cloud_burst_controller.Talos.{Yaml}
use cloud_burst_controller.Effect.{seconds}
use cloud_burst_controller.Controller.Matching.{name_less}
use cloud_burst_controller.Controller.Selector.{type_less}
use cloud_burst_controller.Controller.Provisioner
use cloud_burst_controller.Controller.Reaper
use cloud_burst_controller.Controller.Orphan
use cloud_burst_controller.Manager.Options.{
  Flags, TlsConfig, TlsOption, apply_option, tls_options, webhook_options, metrics_options,
}
use cloud_burst_controller.Manager.Required.{required_calls, Sublist, IsStart, IsRegistration}
use cloud_burst_controller.Manager.{
  provisioner, node_ready, reaper, orphan, Reconciler, reconcilers, SetupCall, start_manager,
  Libraries, Exit, failure_code,
}

-- From this state of the libraries, each of the calls succeeds.
abbrev pub AllSucceed : (libraries : Libraries) → libraries.State → List SetupCall → Type 0
AllSucceed libraries s [] = Unit
AllSucceed libraries s (c ∷ cs) =
    ((libraries.respond s c).0 ≡ true) × AllSucceed libraries (libraries.respond s c).1 cs

-- From this state, each of the calls succeeds, and then this one fails.
abbrev pub FailsAfter :
    (libraries : Libraries) → libraries.State → List SetupCall → SetupCall → Type 0
FailsAfter libraries s [] failed = (libraries.respond s failed).0 ≡ false
FailsAfter libraries s (c ∷ cs) failed =
    ((libraries.respond s c).0 ≡ true) × FailsAfter libraries (libraries.respond s c).1 cs failed

-- The whole setup was made and succeeded, and nothing after the start of the manager.
pub record Complete (libraries : Libraries) (s : libraries.State) (flags : Flags) (x : Exit)
    : Type 0 where
  pub code : x.code ≡ 0
  pub good : AllSucceed libraries s x.calls
  pub made : Sublist (required_calls flags) x.calls
  pub earlier : List SetupCall
  pub start_last : x.calls ≡ earlier ++ start_manager ∷ []
  pub not_started : All (λ c. ¬ IsStart c) earlier

-- The last call that was made failed; what was made is the beginning of the setup.
pub record Stopped (libraries : Libraries) (s : libraries.State) (flags : Flags) (x : Exit)
    : Type 0 where
  pub before : List SetupCall
  pub failed : SetupCall
  pub rest : List SetupCall
  pub code : (IsRegistration failed × (x.code ≡ 2)) ⊎ ((¬ IsRegistration failed) × (x.code ≡ 1))
  pub calls : x.calls ≡ before ++ failed ∷ []
  pub bad : FailsAfter libraries s before failed
  pub begun : Sublist (required_calls flags) (before ++ failed ∷ rest)
  pub not_started : All (λ c. ¬ IsStart c) before

-- The calls of a run are all, or end with one that failed.
record FailsIn (libraries : Libraries) (s : libraries.State) (cs : List SetupCall) (x : Exit)
    : Type 0 where
  before : List SetupCall
  failed : SetupCall
  rest : List SetupCall
  code : x.code ≡ failure_code failed
  calls : x.calls ≡ before ++ failed ∷ []
  bad : FailsAfter libraries s before failed
  all : cs ≡ before ++ failed ∷ rest
  not_started : All (λ c. ¬ IsStart c) before

-- What the options make of a config.
abbrev pub apply_options : List TlsOption → TlsConfig → TlsConfig
apply_options [] c = c
apply_options (o ∷ os) c = apply_options os (apply_option o c)

abbrev pub protocols : Flags → TlsConfig → List String
protocols flags c = if flags.enable_http2 then c.next_protos else "http/1.1" ∷ []

-- Unless HTTP/2 is enabled, both servers are left with HTTP/1.1 alone; if it is, their protocols stay. The
-- metrics are served with authentication exactly when they are served securely.
pub servers-protocols :
    (flags : Flags) (c : TlsConfig)
    → ((apply_options (webhook_options flags).tls_opts c).next_protos ≡ protocols flags c)
      × ((apply_options (metrics_options flags).tls_opts c).next_protos ≡ protocols flags c)
      × ((metrics_options flags).authorized ≡ (metrics_options flags).secure_serving)
unfolding webhook_options metrics_options tls_options apply_option
servers-protocols flags c = elim (Bool-cases flags.enable_http2) [
  | inl on ↦ rw on (refl, refl, refl)
  | inr off ↦ rw off (refl, refl, refl)
]

-- The periods with which a reconciler works: positive, and five minutes for the boot timeout of an
-- instance without a node.
abbrev pub WorksWith : Yaml → Sorter name_less → Sorter type_less → Reconciler → Type 0
WorksWith yaml sort_pools sort_types (provisioner period) =
    ltb_ℤ (pos 0) (Provisioner.debounce_period yaml sort_pools sort_types period) ≡ true
WorksWith yaml sort_pools sort_types node_ready = Unit
WorksWith yaml sort_pools sort_types (reaper drainer interval) =
    (drainer ≡ true) × (ltb_ℤ (pos 0) (Reaper.check_interval drainer interval) ≡ true)
WorksWith yaml sort_pools sort_types (orphan interval timeout) =
    (ltb_ℤ (pos 0) (Orphan.check_interval interval timeout) ≡ true)
    × (Orphan.boot_timeout interval timeout ≡ seconds 300)

-- Whatever the flags are, the reconcilers that `main` sets up work with positive periods, the reaper with
-- a drainer, and the orphan check with a boot timeout of five minutes, which no flag changes.
pub reconcilers-WorksWith :
    (yaml : Yaml) (sort_pools : Sorter name_less) (sort_types : Sorter type_less) (flags : Flags)
    → All (WorksWith yaml sort_pools sort_types) (reconcilers flags)
unfolding reconcilers Provisioner.debounce_period Reaper.check_interval Orphan.check_interval
    Orphan.boot_timeout
reconcilers-WorksWith yaml sort_pools sort_types flags =
    (ground arith, (tt, ((refl, ground arith), ((ground arith, refl), tt))))
