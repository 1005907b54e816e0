-- ===== src/Common/Text.antt =====
-- Prefixes and the separator `__` of texts.
use Prim.Native.Char.{code}
use Prim.Native.String.{String}
use mathlib.Core.Bool.{Bool, true, false, ◌&&◌}
use mathlib.Core.Option.{Option, none, some}
use mini_dsh.Common.Tests.{if◌then◌else◌, eqb}

-- `s.slice(prefix.length)`, if the text starts with the prefix.
unfoldable pub strip_prefix : String → String → Option String
strip_prefix String.[] s = some s
strip_prefix (String.◌∷◌ c prefix) String.[] = none
strip_prefix (String.◌∷◌ c prefix) (String.◌∷◌ d s) =
    let rest = strip_prefix prefix s in if eqb (code c) (code d) then rest else none

unfoldable pub starts_dunder : String → Bool
starts_dunder (String.◌∷◌ c (String.◌∷◌ d s)) = eqb (code c) b'_' && eqb (code d) b'_'
starts_dunder _ = false

-- What stands before the first `__`.
unfoldable pub before_dunder : String → Option String
unfolding starts_dunder
before_dunder String.[] = none
before_dunder (String.◌∷◌ c s) = elim (starts_dunder (String.◌∷◌ c s)) [
  | true ↦ some ""
  | false ↦ elim (before_dunder s) [ none ↦ none | some server ↦ some (String.◌∷◌ c server) ]
]
