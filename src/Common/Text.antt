-- ===== src/Common/Text.antt =====
-- The functions of Go's `strings` package that the providers call, over code points.
use Prim.Native.Nat.{ℕ}
use Prim.Native.Char.{code}
use Prim.Native.String.{String, [], ◌∷◌, ◌++◌}
use mathlib.Core.Bool.{Bool, true, false, ◌&&◌, ◌||◌}
use mathlib.Core.Option.{Option, none, some}
use mathlib.Core.List.{List}
use text.Mathlib.Text.{◌==◌}
use bindings.Common.Tests.{◌=?◌, if◌then◌else◌}

-- The verb %q; every text that the providers print by it is printed without its escapes here.
abbrev pub in_quotes : String → String
in_quotes s = "\"" ++ s ++ "\""

-- strings.HasPrefix
unfoldable pub has_prefix : String → String → Bool
has_prefix s [] = true
has_prefix [] (c ∷ p) = false
has_prefix (d ∷ s) (c ∷ p) = code d =? code c && has_prefix s p

-- strings.ReplaceAll(s, old, old ++ old), for `old` of one character
unfoldable pub double_all : ℕ → String → String
double_all q [] = []
double_all q (c ∷ s) = if code c =? q then c ∷ c ∷ double_all q s else c ∷ double_all q s

-- strings.Contains
unfoldable pub contains : String → String → Bool
contains [] p = has_prefix [] p
contains (c ∷ s) p = has_prefix (c ∷ s) p || contains s p

-- strings.TrimSuffix(s, suffix), for a suffix of one character
unfoldable pub trim_last : ℕ → String → String
trim_last q [] = []
trim_last q (c ∷ []) = if code c =? q then [] else c ∷ []
trim_last q (c ∷ d ∷ s) = c ∷ trim_last q (d ∷ s)

-- s[len(p):]
abbrev drop_length : String → String → String
drop_length s [] = s
drop_length [] (c ∷ p) = []
drop_length (d ∷ s) (c ∷ p) = drop_length s p

-- strings.TrimPrefix
unfoldable pub trim_prefix : String → String → String
trim_prefix s p = if has_prefix s p then drop_length s p else s

abbrev found_here : Option String → String → String → Option String
found_here (some later) s marker = some later
found_here none s marker = if has_prefix s marker then some (drop_length s marker) else none

-- s[strings.LastIndex(s, marker)+len(marker):], if the marker is there
unfoldable pub after_last : String → String → Option String
after_last [] marker = found_here none [] marker
after_last (c ∷ s) marker = found_here (after_last s marker) (c ∷ s) marker

-- Whether a text is one of a list.
abbrev pub elem : String → List String → Bool
elem s List.[] = false
elem s (List.◌∷◌ t ts) = s == t || elem s ts
