-- ===== src/Prelude/Dict.antt =====
-- Go's `map[string]T` as an association list, and its laws. A `nil` map is `none` where the code
-- tells it from an empty one.
use Prim.Native.String.{String}
use mathlib.Core.Path.{◌≡◌}
use mathlib.Core.Option.{Option, none, some}
use mathlib.Core.List.{List, [], ◌∷◌}
use native.Mathlib.Omega.{arith}
use text.Mathlib.Text.{◌==◌}
use text.Mathlib.TextEquality.{eq_iff}
use cryostat_operator.Prelude.Tests.{if◌then◌else◌}

abbrev pub Dict {ℓ} : Type ℓ → Type ℓ
Dict V = List (String × V)

module _ {ℓ} {V : Type ℓ} where
  unfoldable pub lookup : String → Dict V → Option V
  lookup key [] = none
  lookup key ((own, value) ∷ others) = if key == own then some value else lookup key others

  unfoldable pub insert : String → V → Dict V → Dict V
  insert key new [] = (key, new) ∷ []
  insert key new ((own, old) ∷ others) =
      if key == own then (own, new) ∷ others else (own, old) ∷ insert key new others

  -- The value of `asked` after `dict[key] = new`.
  pub lookup-insert :
      (key asked : String) (new : V) (dict : Dict V)
      → lookup asked (insert key new dict) ≡ (if asked == key then some new else lookup asked dict)
  unfolding lookup insert
  lookup-insert key asked new [] = ground (arith, eq_iff asked key, eq_iff key asked)
  lookup-insert key asked new ((own, old) ∷ others) =
      let same = lookup-insert key asked new others in
      ground (arith, same, eq_iff asked own, eq_iff key own, eq_iff asked key, eq_iff key asked)

  -- `for k, v := range src { dest[k] = v }`: the keys of a map are distinct, so the order in which
  -- the loop visits them does not matter.
  unfoldable pub copy : Dict V → Dict V → Dict V
  copy [] dest = dest
  copy ((k, v) ∷ src) dest = copy src (insert k v dest)
