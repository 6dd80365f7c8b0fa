-- ===== src/Talos/Patched.antt =====
-- What `PatchHostname` changes in a config, and what it leaves.
use cloud_burst_controller.Common.{
  ◌≡◌, ◌≢◌, refl, sym, ap, ◌∙◌, subst, String, Option, none, some, List, [], ◌∷◌, eq_iff, arith,
}
use cloud_burst_controller.Talos.{
  Value, mapping, other, Fields, end, field, get_field, set_field, as_mapping, network_of,
  set_hostname,
}

-- The value at the end of a path of keys.
abbrev pub value_at : List String → Option Value → Option Value
value_at [] v = v
value_at (k ∷ ks) none = none
value_at (k ∷ ks) (some (mapping m)) = value_at ks (get_field k m)
value_at (k ∷ ks) (some (other text)) = none

get_field-same : (k : String) (v : Value) (m : Fields) → get_field k (set_field k v m) ≡ some v
unfolding get_field set_field
get_field-same k v end = ground (arith, eq_iff k k)
get_field-same k v (field i w m) = ground (arith, eq_iff k k, eq_iff i k, get_field-same k v m)

get_field-other :
    (k j : String) (v : Value) (m : Fields) → k ≢ j → get_field j (set_field k v m) ≡ get_field j m
unfolding get_field set_field
get_field-other k j v end apart = ground (arith, eq_iff k j)
get_field-other k j v (field i w m) apart =
    ground (arith, eq_iff k j, eq_iff i k, eq_iff i j, get_field-other k j v m apart)

-- The config is refused only if its `machine` is not a map; else the hostname is at its place, and
-- every other key of the config, of `machine` and of `network` has the value that it had.
pub IsPatched : String → Fields → Option Fields → Type 0
IsPatched hostname config none = as_mapping (get_field "machine" config) ≡ none
IsPatched hostname config (some patched) =
    (value_at ("machine" ∷ "network" ∷ "hostname" ∷ []) (some (mapping patched))
      ≡ some (other hostname))
    × ((k : String) → "machine" ≢ k → get_field k patched ≡ get_field k config)
    × ((k : String)
        → "network" ≢ k
        → value_at ("machine" ∷ k ∷ []) (some (mapping patched))
          ≡ value_at ("machine" ∷ k ∷ []) (some (mapping config)))
    × ((k : String)
        → "hostname" ≢ k
        → value_at ("machine" ∷ "network" ∷ k ∷ []) (some (mapping patched))
          ≡ value_at ("machine" ∷ "network" ∷ k ∷ []) (some (mapping config)))

-- A `network` that is not a map has no keys, as the new map.
network_of-value_at :
    (k : String) (v : Option Value)
    → get_field k (elim (as_mapping v) [ none ↦ end | some n ↦ n ]) ≡ value_at (k ∷ []) v
unfolding get_field
network_of-value_at k none = refl
network_of-value_at k (some (mapping m)) = refl
network_of-value_at k (some (other text)) = refl

module _ (hostname : String) (config machine : Fields)
    (found : get_field "machine" config ≡ some (mapping machine)) where
  abbrev network : Fields
  network = set_field "hostname" (other hostname) (network_of machine)

  abbrev inner : Fields
  inner = set_field "network" (mapping network) machine

  abbrev patched_config : Fields
  patched_config = set_field "machine" (mapping inner) config

  set_hostname-some : set_hostname hostname config ≡ some patched_config
  unfolding set_hostname
  set_hostname-some =
      ap
        (λ v. elim (as_mapping v) [
          | none ↦ none
          | some m ↦ some (
              set_field "machine"
                (mapping (
                  set_field "network"
                    (mapping (set_field "hostname" (other hostname) (network_of m))) m))
                config)
        ])
        found

  machine_at :
      (ks : List String)
      → value_at ("machine" ∷ ks) (some (mapping patched_config))
        ≡ value_at ks (some (mapping inner))
  machine_at ks = ap (value_at ks) (get_field-same "machine" (mapping inner) config)

  network_at :
      (ks : List String)
      → value_at ("machine" ∷ "network" ∷ ks) (some (mapping patched_config))
        ≡ value_at ks (some (mapping network))
  network_at ks =
      machine_at ("network" ∷ ks)
      ∙ ap (value_at ks) (get_field-same "network" (mapping network) machine)

  machine_before :
      (ks : List String)
      → value_at ("machine" ∷ ks) (some (mapping config)) ≡ value_at ks (some (mapping machine))
  machine_before ks = ap (value_at ks) found

  patched_config-IsPatched : IsPatched hostname config (some patched_config)
  unfolding IsPatched network_of
  patched_config-IsPatched = (
    network_at ("hostname" ∷ []) ∙ get_field-same "hostname" (other hostname) (network_of machine),
    λ k apart. get_field-other "machine" k (mapping inner) config apart,
    λ k apart.
        machine_at (k ∷ [])
        ∙ get_field-other "network" k (mapping network) machine apart
        ∙ sym (machine_before (k ∷ [])),
    λ k apart.
        network_at (k ∷ [])
        ∙ get_field-other "hostname" k (other hostname) (network_of machine) apart
        ∙ network_of-value_at k (get_field "network" machine)
        ∙ sym (machine_before ("network" ∷ k ∷ [])),
  )

module _ (hostname : String) (config : Fields) where
  set_hostname-none :
      as_mapping (get_field "machine" config) ≡ none → set_hostname hostname config ≡ none
  unfolding set_hostname
  set_hostname-none missing = rw (set_hostname, missing) refl

  machine_cases :
      (v : Option Value)
      → get_field "machine" config ≡ v
      → IsPatched hostname config (set_hostname hostname config)
  unfolding IsPatched
  machine_cases none e =
      subst (IsPatched hostname config) (sym (set_hostname-none (ap as_mapping e)))
        (ap as_mapping e)
  machine_cases (some (other text)) e =
      subst (IsPatched hostname config) (sym (set_hostname-none (ap as_mapping e)))
        (ap as_mapping e)
  machine_cases (some (mapping machine)) e =
      subst (IsPatched hostname config) (sym (set_hostname-some hostname config machine e))
        (patched_config-IsPatched hostname config machine e)

-- `PatchHostname` refuses a config only if its `machine` is not a map. Else machine.network.hostname
-- is the hostname, and every other key of the config, of `machine` and of `network` keeps its value.
pub set_hostname-IsPatched :
    (hostname : String) (config : Fields) → IsPatched hostname config (set_hostname hostname config)
set_hostname-IsPatched hostname config =
    machine_cases hostname config (get_field "machine" config) refl
