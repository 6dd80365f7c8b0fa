-- ===== src/Manager/Options.antt =====
-- cmd/main.go: the flags, and the options of the servers and of the manager.
use cloud_burst_controller.Common.{
  String, Bool, true, false, not, List, [], ◌∷◌, str_eq, if◌then◌else◌,
}
use cloud_burst_controller.Kube.{Duration}
use cloud_burst_controller.Effect.{seconds}

-- The flags, without those of the logger.
pub record Flags : Type 0 where
  pub metrics_address : String
  pub probe_address : String
  pub leader_elect : Bool
  pub metrics_secure : Bool
  pub webhook_cert_path : String
  pub webhook_cert_name : String
  pub webhook_cert_key : String
  pub metrics_cert_path : String
  pub metrics_cert_name : String
  pub metrics_cert_key : String
  pub enable_http2 : Bool
  pub debounce_period : Duration
  pub orphan_check_interval : Duration
  pub reaper_check_interval : Duration

abbrev pub default_flags : Flags
default_flags = record {
  metrics_address = "0";
  probe_address = ":8081";
  leader_elect = false;
  metrics_secure = true;
  webhook_cert_path = "";
  webhook_cert_name = "tls.crt";
  webhook_cert_key = "tls.key";
  metrics_cert_path = "";
  metrics_cert_name = "tls.crt";
  metrics_cert_key = "tls.key";
  enable_http2 = false;
  debounce_period = seconds 30;
  orphan_check_interval = seconds 300;
  reaper_check_interval = seconds 60;
}

-- A `tls.Config`, as far as the options change it.
pub record TlsConfig : Type 0 where
  pub next_protos : List String

pub data TlsOption : Type 0 where
  disable_http2 : TlsOption

unfoldable pub apply_option : TlsOption → TlsConfig → TlsConfig
apply_option disable_http2 c = record c { next_protos = "http/1.1" ∷ [] }

unfoldable pub tls_options : Flags → List TlsOption
tls_options flags = if not flags.enable_http2 then disable_http2 ∷ [] else []

-- The directory is empty if it is not set, and so are then the names.
pub record Certificate : Type 0 where
  pub cert_dir : String
  pub cert_name : String
  pub key_name : String

abbrev pub certificate_at : (path name key : String) → Certificate
certificate_at path name key =
    if str_eq path ""
    then record { cert_dir = ""; cert_name = ""; key_name = "" }
    else record { cert_dir = path; cert_name = name; key_name = key }

pub record WebhookOptions : Type 0 where
  pub tls_opts : List TlsOption
  pub certificate : Certificate

-- `authorized` says that the filter for authentication and authorization is set.
pub record MetricsOptions : Type 0 where
  pub bind_address : String
  pub secure_serving : Bool
  pub tls_opts : List TlsOption
  pub authorized : Bool
  pub certificate : Certificate

unfoldable pub webhook_options : Flags → WebhookOptions
unfolding tls_options
webhook_options flags = record {
  tls_opts = tls_options flags;
  certificate =
      certificate_at flags.webhook_cert_path flags.webhook_cert_name flags.webhook_cert_key;
}

unfoldable pub metrics_options : Flags → MetricsOptions
unfolding tls_options
metrics_options flags = record {
  bind_address = flags.metrics_address;
  secure_serving = flags.metrics_secure;
  tls_opts = tls_options flags;
  authorized = flags.metrics_secure;
  certificate =
      certificate_at flags.metrics_cert_path flags.metrics_cert_name flags.metrics_cert_key;
}

pub record ManagerOptions : Type 0 where
  pub metrics : MetricsOptions
  pub webhook : WebhookOptions
  pub probe_address : String
  pub leader_election : Bool
  pub leader_election_id : String

unfoldable pub manager_options : Flags → ManagerOptions
unfolding webhook_options metrics_options
manager_options flags = record {
  metrics = metrics_options flags;
  webhook = webhook_options flags;
  probe_address = flags.probe_address;
  leader_election = flags.leader_elect;
  leader_election_id = "a71057c3.homelab.dev";
}
