-- ===== src/Talos/UserData.antt =====
-- The user data of an instance, and what the instance reads from it.
use cloud_burst_controller.Common.{
  ℕ, ◌+◌, ◌-◌, ◌*◌, ◌/◌, ◌%◌, ◌<◌, ◌≡◌, refl, sym, ap, subst, ◌∙◌, inl, inr, false, String, Option,
  none, some, Option-cases, List, [], ◌∷◌, ◌++◌, All, ltb, ◌==◌, if◌then◌else◌, arith,
}
use cloud_burst_controller.Errors.{message, Result, ok, err}
use cloud_burst_controller.Talos.{
  Fields, Yaml, set_hostname, in_context, patch_config, patch_hostname, patch_and_encode,
}
use cloud_burst_controller.Talos.Base64.{digit, encode_to_string}
use cloud_burst_controller.Talos.Patched.{IsPatched, set_hostname-IsPatched}

-- The value of a base64 digit.
unfoldable pub digit_value : ℕ → ℕ
digit_value c =
    if c == 43
    then 62
    else (if c == 47
        then 63
        else (if ltb c 58 then c + 4 else (if ltb c 91 then c - 65 else c - 71)))

abbrev pub append_to : List ℕ → Option (List ℕ) → Option (List ℕ)
append_to bytes none = none
append_to [] (some rest) = some rest
append_to (b ∷ bs) (some rest) = some ((b ∷ bs) ++ rest)

-- Base64 read back, as RFC 4648 defines it: four digits at a time, with padding in the last four.
unfoldable pub decode_string : List ℕ → Option (List ℕ)
unfolding digit_value
decode_string [] = some []
decode_string (a ∷ []) = none
decode_string (a ∷ b ∷ []) = none
decode_string (a ∷ b ∷ c ∷ []) = none
decode_string (a ∷ b ∷ c ∷ d ∷ rest) =
    let more = decode_string rest in
    let first = digit_value a * 4 + digit_value b / 16 in
    let second = digit_value b % 16 * 16 + digit_value c / 4 in
    let third = digit_value c % 4 * 64 + digit_value d in
    if c == 61
    then some (first ∷ [])
    else (if d == 61
        then some (first ∷ second ∷ [])
        else append_to (first ∷ second ∷ third ∷ []) more)

digit_lem : (n : ℕ) → n < 64 → (digit_value (digit n) ≡ n) × ((digit n == 61) ≡ false)
unfolding digit digit_value
digit_lem n h = ground arith

abbrev IsByte : ℕ → Type 0
IsByte b = b < 256

-- The three cases at the end of a text and before it, with the digits' values put in.
decode_three :
    (a b c : ℕ) (rest : List ℕ) (out : List ℕ)
    → IsByte a
    → IsByte b
    → IsByte c
    → decode_string rest ≡ some out
    → decode_string (
        digit (a / 4)
        ∷ digit (a % 4 * 16 + b / 16)
        ∷ digit (b % 16 * 4 + c / 64)
        ∷ digit (c % 64)
        ∷ rest)
      ≡ some (a ∷ b ∷ c ∷ out)
unfolding decode_string
decode_three a b c rest out ha hb hc e =
    let (va, _) = digit_lem (a / 4) (omega arith) in
    let (vb, _) = digit_lem (a % 4 * 16 + b / 16) (omega arith) in
    let (vc, nc) = digit_lem (b % 16 * 4 + c / 64) (omega arith) in
    let (vd, nd) = digit_lem (c % 64) (omega arith) in ground (arith, va, vb, vc, vd, nc, nd, e)

decode_two :
    (a b : ℕ)
    → IsByte a
    → IsByte b
    → decode_string (digit (a / 4) ∷ digit (a % 4 * 16 + b / 16) ∷ digit (b % 16 * 4) ∷ 61 ∷ [])
      ≡ some (a ∷ b ∷ [])
unfolding decode_string
decode_two a b ha hb =
    let (va, _) = digit_lem (a / 4) (omega arith) in
    let (vb, _) = digit_lem (a % 4 * 16 + b / 16) (omega arith) in
    let (vc, nc) = digit_lem (b % 16 * 4) (omega arith) in ground (arith, va, vb, vc, nc)

decode_one :
    (a : ℕ)
    → IsByte a
    → decode_string (digit (a / 4) ∷ digit (a % 4 * 16) ∷ 61 ∷ 61 ∷ []) ≡ some (a ∷ [])
unfolding decode_string
decode_one a ha =
    let (va, _) = digit_lem (a / 4) (omega arith) in
    let (vb, _) = digit_lem (a % 4 * 16) (omega arith) in ground (arith, va, vb)

decode_string-encode_to_string :
    (bytes : List ℕ) → All IsByte bytes → decode_string (encode_to_string bytes) ≡ some bytes
unfolding encode_to_string
decode_string-encode_to_string [] h = unfold decode_string in refl
decode_string-encode_to_string (a ∷ []) h = decode_one a h.0
decode_string-encode_to_string (a ∷ b ∷ []) h = decode_two a b h.0 h.1.0
decode_string-encode_to_string (a ∷ b ∷ c ∷ rest) h =
    decode_three a b c (encode_to_string rest) rest h.0 h.1.0 h.1.1.0
      (decode_string-encode_to_string rest h.1.1.1)

-- What the instance reads from its user data.
pub record Reads (yaml : Yaml) (hostname : String) (config : Fields) (user_data : List ℕ)
    : Type 0 where
  pub bytes : List ℕ
  pub patched : Fields
  pub decoded : decode_string user_data ≡ some bytes
  pub parsed : yaml.unmarshal bytes ≡ ok patched
  pub is_patched : IsPatched hostname config (some patched)

encode_result : Result (List ℕ) → Result (List ℕ)
encode_result (err e) = err e
encode_result (ok bytes) = ok (encode_to_string bytes)

marshalled :
    (r : Result (List ℕ))
    → Path
        (Result (List ℕ))
        (elim (in_context "marshaling patched config" r) [
          | err e ↦ err e
          | ok patched ↦ ok (encode_to_string patched)
        ])
        (encode_result (in_context "marshaling patched config" r))
unfolding encode_result
marshalled (ok bytes) = refl
marshalled (err e) = refl

encode_config : Yaml → Option Fields → Result (List ℕ)
unfolding encode_result
encode_config yaml none = err (message "machine config missing 'machine' key")
encode_config yaml (some m) =
    encode_result (in_context "marshaling patched config" (yaml.marshal m))

encode_result-ok :
    (r : Result (List ℕ)) (user_data : List ℕ)
    → encode_result (in_context "marshaling patched config" r) ≡ ok user_data
    → (bytes : List ℕ) × (r ≡ ok bytes) × (user_data ≡ encode_to_string bytes)
unfolding encode_result
encode_result-ok (ok bytes) user_data h = (bytes, refl, cc h)
encode_result-ok (err e) user_data h = absurd (cc h)

encode_config-ok :
    (yaml : Yaml) (o : Option Fields) (user_data : List ℕ)
    → encode_config yaml o ≡ ok user_data
    → (m : Fields) × (bytes : List ℕ) × (o ≡ some m)
      × (yaml.marshal m ≡ ok bytes)
      × (user_data ≡ encode_to_string bytes)
unfolding encode_config
encode_config-ok yaml none user_data h = absurd (cc h)
encode_config-ok yaml (some m) user_data h =
    let (bytes, printed, encoded) = encode_result-ok (yaml.marshal m) user_data h in
    (m, bytes, refl, printed, encoded)

module _ (yaml : Yaml) (hostname : String) (config_yaml : List ℕ) (config : Fields)
    (read : yaml.unmarshal config_yaml ≡ ok config)
    (read_back : (m : Fields) (bytes : List ℕ)
      → set_hostname hostname config ≡ some m
      → yaml.marshal m ≡ ok bytes
      → (yaml.unmarshal bytes ≡ ok m) × All IsByte bytes) where
  whole :
      patch_and_encode yaml config_yaml hostname ≡ encode_config yaml (set_hostname hostname config)
  unfolding patch_and_encode patch_hostname patch_config encode_config encode_result
  whole = elim (Option-cases (set_hostname hostname config)) [
    | inl e ↦ rw (patch_and_encode, patch_hostname, read) (rw (patch_config, encode_config, e) refl)
    | inr (m, e) ↦
        rw (patch_and_encode, patch_hostname, read)
          (rw (patch_config, encode_config, e) (marshalled (yaml.marshal m)))
  ]

  -- The user data that `PatchAndEncode` returns for a config, decoded and parsed again, is the config with
  -- the hostname set and every other key of it, of `machine` and of `network` as it was; if the YAML
  -- package reads back what it printed for that config, as bytes.
  pub patch_and_encode-Reads :
      (user_data : List ℕ)
      → patch_and_encode yaml config_yaml hostname ≡ ok user_data
      → Reads yaml hostname config user_data
  patch_and_encode-Reads user_data h =
      let (patched, bytes, set, printed, encoded) =
        encode_config-ok yaml (set_hostname hostname config) user_data (sym whole ∙ h) in
      let (parsed, in_range) = read_back patched bytes set printed in
      record {
        bytes = bytes;
        patched = patched;
        decoded = ap decode_string encoded ∙ decode_string-encode_to_string bytes in_range;
        parsed = parsed;
        is_patched = subst (IsPatched hostname config) set (set_hostname-IsPatched hostname config);
      }
