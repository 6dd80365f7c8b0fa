-- ===== src/Common/Prefix.antt =====
-- `strings.HasPrefix` of Go's standard library.
use mathlib.Core.Bool.{Bool}
use text.Mathlib.Text.{starts_with}
use Prim.Native.String.{String}

unfoldable pub has_prefix : String → String → Bool
has_prefix s p = starts_with s p
