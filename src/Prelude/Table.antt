-- ===== src/Prelude/Table.antt =====
-- Maps with text keys, as association lists with one entry for each key.
use Prim.Native.String.{String}
use mathlib.Core.Path.{◌≡◌}
use mathlib.Core.Bool.{Bool, false, ◌||◌}
use mathlib.Core.Option.{Option, none, some}
use mathlib.Core.List.{List, [], ◌∷◌}
use native.Mathlib.Omega.{arith}
use text.Mathlib.Text.{◌==◌ as str_eq}
use text.Mathlib.TextEquality.{eq_iff}
use kn9t.Prelude.Tests.{if◌then◌else◌}

abbrev pub Table {ℓ} : Type ℓ → Type ℓ
Table V = List (String × V)

module _ {ℓ} {V : Type ℓ} where
  unfoldable pub find : Table V → String → Option V
  find [] k = none
  find ((j, v) ∷ t) k = let rest = find t k in if str_eq j k then some v else rest

  unfoldable pub remove : Table V → String → Table V
  remove [] k = []
  remove ((j, v) ∷ t) k = let rest = remove t k in if str_eq j k then rest else (j, v) ∷ rest

  -- An entry that is there is replaced.
  unfoldable pub put : Table V → String → V → Table V
  unfolding remove
  put t k v = (k, v) ∷ remove t k

  unfoldable pub any_value : (V → Bool) → Table V → Bool
  any_value p [] = false
  any_value p ((k, v) ∷ t) = p v || any_value p t

module _ {ℓ} {V : Type ℓ} where
  pub find-remove :
      (t : Table V) (k j : String) → find (remove t k) j ≡ (if str_eq k j then none else find t j)
  unfolding find remove
  find-remove [] k j = ground arith
  find-remove ((i, v) ∷ t) k j =
      ground (arith, find-remove t k j, eq_iff i k, eq_iff i j, eq_iff k j)

  pub find-put :
      (t : Table V) (k j : String) (v : V)
      → find (put t k v) j ≡ (if str_eq k j then some v else find t j)
  unfolding put find
  find-put t k j v = ground (arith, find-remove t k j)
