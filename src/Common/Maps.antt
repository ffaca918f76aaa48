-- ===== src/Common/Maps.antt =====
-- A Go `map[string]string` that is only read: a missing key gives the empty text.
use Prim.Native.String.{String}
use mathlib.Core.List.{List, [], ◌∷◌}
use text.Mathlib.Text.{◌==◌}
use bindings.Common.Tests.{if◌then◌else◌}

abbrev pub GoMap : Type 0
GoMap = List (String × String)

unfoldable pub get : GoMap → String → String
get [] k = ""
get ((j, v) ∷ m) k = if j == k then v else get m k

-- configKeys, and `slices.Collect(maps.Keys(m))`; the order is of no account
abbrev pub config_keys : GoMap → List String
config_keys [] = []
config_keys ((j, v) ∷ m) = j ∷ config_keys m
