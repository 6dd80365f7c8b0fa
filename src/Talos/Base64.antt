-- ===== src/Talos/Base64.antt =====
-- `base64.StdEncoding.EncodeToString` of Go's standard library, on bytes.
use cloud_burst_controller.Common.{
  ℕ, ◌+◌, ◌-◌, ◌*◌, ◌/◌, ◌%◌, List, [], ◌∷◌, ltb, ◌==◌, if◌then◌else◌,
}

-- The alphabet: A-Z, a-z, 0-9, + and /.
unfoldable pub digit : ℕ → ℕ
digit n =
    if ltb n 26
    then n + 65
    else (if ltb n 52 then n + 71 else (if ltb n 62 then n - 4 else (if n == 62 then 43 else 47)))

-- Three bytes are four digits of six bits; one or two bytes at the end are padded with `=`.
unfoldable pub encode_to_string : List ℕ → List ℕ
unfolding digit
encode_to_string [] = []
encode_to_string (a ∷ []) = digit (a / 4) ∷ digit (a % 4 * 16) ∷ 61 ∷ 61 ∷ []
encode_to_string (a ∷ b ∷ []) =
    digit (a / 4) ∷ digit (a % 4 * 16 + b / 16) ∷ digit (b % 16 * 4) ∷ 61 ∷ []
encode_to_string (a ∷ b ∷ c ∷ rest) =
    digit (a / 4)
    ∷ digit (a % 4 * 16 + b / 16)
    ∷ digit (b % 16 * 4 + c / 64)
    ∷ digit (c % 64)
    ∷ encode_to_string rest
