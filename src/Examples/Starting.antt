-- ===== src/Examples/Starting.antt =====
-- The start of the controllers with the default flags, where the client of the API server fails.
use cloud_burst_controller.Common.{◌≡◌, Bool, true, false, [], ◌∷◌, All}
use cloud_burst_controller.Manager.Options.{
  TlsConfig, default_flags, webhook_options, metrics_options,
}
use cloud_burst_controller.Manager.{reconcilers, SetupCall, new_clientset, Libraries}
use cloud_burst_controller.Manager.Started.{
  apply_options, protocols, servers-protocols, WorksWith, reconcilers-WorksWith,
}
use cloud_burst_controller.Examples.{plain_yaml, pool_sorter, type_sorter}

abbrev works : SetupCall → Bool
works new_clientset = false
works call = true

abbrev no_clientset : Libraries
no_clientset = record { State = Unit; respond = λ s call. (works call, s) }

abbrev both_protocols : TlsConfig
both_protocols = record { next_protos = "h2" ∷ "http/1.1" ∷ [] }

servers-protocols_example :
    ((apply_options (webhook_options default_flags).tls_opts both_protocols).next_protos
      ≡ protocols default_flags both_protocols)
    × ((apply_options (metrics_options default_flags).tls_opts both_protocols).next_protos
        ≡ protocols default_flags both_protocols)
    × ((metrics_options default_flags).authorized ≡ (metrics_options default_flags).secure_serving)
servers-protocols_example = servers-protocols default_flags both_protocols

reconcilers-WorksWith_example :
    All (WorksWith plain_yaml pool_sorter type_sorter) (reconcilers default_flags)
reconcilers-WorksWith_example =
    reconcilers-WorksWith plain_yaml pool_sorter type_sorter default_flags
