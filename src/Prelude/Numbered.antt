-- ===== src/Prelude/Numbered.antt =====
-- Maps with numbers for keys, as association lists with one entry for each key.
use Prim.Native.Nat.{ℕ}
use mathlib.Core.Path.{◌≡◌}
use mathlib.Core.Option.{Option, none, some}
use mathlib.Core.List.{List, [], ◌∷◌}
use native.Mathlib.Omega.{arith}
use kn9t.Prelude.Tests.{◌==◌, if◌then◌else◌}

abbrev pub Numbered {ℓ} : Type ℓ → Type ℓ
Numbered V = List (ℕ × V)

module _ {ℓ} {V : Type ℓ} where
  unfoldable pub find : Numbered V → ℕ → Option V
  find [] k = none
  find ((j, v) ∷ t) k = let rest = find t k in if j == k then some v else rest

  unfoldable pub remove : Numbered V → ℕ → Numbered V
  remove [] k = []
  remove ((j, v) ∷ t) k = let rest = remove t k in if j == k then rest else (j, v) ∷ rest

  -- An entry that is there is replaced.
  unfoldable pub put : Numbered V → ℕ → V → Numbered V
  unfolding remove
  put t k v = (k, v) ∷ remove t k

module _ {ℓ} {V : Type ℓ} where
  pub find-remove :
      (t : Numbered V) (k j : ℕ) → find (remove t k) j ≡ (if k == j then none else find t j)
  unfolding find remove
  find-remove [] k j = ground arith
  find-remove ((i, v) ∷ t) k j = ground (arith, find-remove t k j)

  pub find-put :
      (t : Numbered V) (k j : ℕ) (v : V)
      → find (put t k v) j ≡ (if k == j then some v else find t j)
  unfolding put find
  find-put t k j v = ground (arith, find-remove t k j)
