-- ===== src/Talos.antt =====
-- internal/talos/config.go: the machine config, patched with the node's name. The YAML package is a
-- parameter; base64 is the encoding of Go's standard library.
pub mod Base64
pub mod Patched
pub mod UserData
use cloud_burst_controller.Common.{
  ℕ, ◌≡◌, String, Option, none, some, List, [], ◌∷◌, lookup, insert, str_eq, if◌then◌else◌,
}
use cloud_burst_controller.Errors.{Error, message, wrapped, Result, ok, err}
use Base64.{encode_to_string}

-- A value of `map[string]any`: a map with text keys, or anything else.
mutual
  pub data Value : Type 0 where
    mapping : Fields → Value
    other : String → Value

  pub data Fields : Type 0 where
    end : Fields
    field : String → Value → Fields → Fields

unfoldable pub get_field : String → Fields → Option Value
get_field k end = none
get_field k (field j v m) = if str_eq j k then some v else get_field k m

unfoldable pub set_field : String → Value → Fields → Fields
set_field k v end = field k v end
set_field k v (field j w m) = if str_eq j k then field k v m else field j w (set_field k v m)

-- `v.(map[string]any)`
abbrev pub as_mapping : Option Value → Option Fields
as_mapping none = none
as_mapping (some (mapping m)) = some m
as_mapping (some (other text)) = none

-- The package gopkg.in/yaml.v3.
pub record Yaml : Type 0 where
  pub unmarshal : List ℕ → Result Fields
  pub marshal : Fields → Result (List ℕ)

-- `machine["network"]`, or a new map.
unfoldable pub network_of : Fields → Fields
network_of machine = elim (as_mapping (get_field "network" machine)) [ none ↦ end | some n ↦ n ]

-- The config with machine.network.hostname set; none if `machine` is not a map.
unfoldable pub set_hostname : String → Fields → Option Fields
unfolding network_of
set_hostname hostname config = elim (as_mapping (get_field "machine" config)) [
  | none ↦ none
  | some machine ↦
      let network = set_field "hostname" (other hostname) (network_of machine) in
      some (set_field "machine" (mapping (set_field "network" (mapping network) machine)) config)
]

-- `fmt.Errorf(text + ": %w", err)` around a failure.
abbrev pub in_context : {A : Type 0} → String → Result A → Result A
in_context text (ok a) = ok a
in_context text (err e) = err (wrapped text e)

module _ (yaml : Yaml) where
  open yaml use {unmarshal, marshal}

  unfoldable pub patch_config : String → Fields → Result (List ℕ)
  patch_config hostname config = elim (set_hostname hostname config) [
    | none ↦ err (message "machine config missing 'machine' key")
    | some patched ↦ in_context "marshaling patched config" (marshal patched)
  ]

  unfoldable pub patch_hostname : List ℕ → String → Result (List ℕ)
  unfolding patch_config
  patch_hostname config_yaml hostname = elim (unmarshal config_yaml) [
    | err e ↦ err (wrapped "unmarshaling machine config" e)
    | ok config ↦ patch_config hostname config
  ]

  unfoldable pub patch_and_encode : List ℕ → String → Result (List ℕ)
  patch_and_encode config_yaml hostname = elim (patch_hostname config_yaml hostname) [
    | err e ↦ err e
    | ok patched ↦ ok (encode_to_string patched)
  ]
