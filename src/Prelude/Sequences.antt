-- ===== src/Prelude/Sequences.antt =====
-- Predicates on lists: all members, and strictly rising sequence numbers.
use Prim.Native.Nat.{ℕ, zero, suc, ◌<◌}
use native.Mathlib.Omega.{arith}
use mathlib.Core.List.{List, [], ◌∷◌, ◌++◌}

abbrev pub All {ℓ κ} : {A : Type ℓ} → (A → Type κ) → List A → Type κ
All P [] = Unit
All P (x ∷ xs) = P x × All P xs

pub All-append {ℓ κ} :
    {A : Type ℓ} (P : A → Type κ) (xs ys : List A) → All P xs → All P ys → All P (xs ++ ys)
All-append P [] ys hx hy = hy
All-append P (x ∷ xs) ys hx hy = (hx.0, All-append P xs ys hx.1 hy)

pub All-imp {ℓ κ κ'} :
    {A : Type ℓ} (P : A → Type κ) (Q : A → Type κ')
    → ((x : A) → P x → Q x)
    → (xs : List A) → All P xs
    → All Q xs
All-imp P Q f [] h = tt
All-imp P Q f (x ∷ xs) h = (f x h.0, All-imp P Q f xs h.1)

-- The numbers `n`, `n + 1`, … , `n + k - 1`.
abbrev pub upto : ℕ → ℕ → List ℕ
upto n zero = []
upto n (suc k) = n ∷ upto (suc n) k

abbrev pub IsRising : List ℕ → Type 0
IsRising [] = Unit
IsRising (s ∷ ss) = All (λ t. s < t) ss × IsRising ss

pub above-upto : (m n k : ℕ) → m < n → All (λ t. m < t) (upto n k)
above-upto m n zero h = tt
above-upto m n (suc k) h = (h, above-upto m (suc n) k (omega arith))

pub upto-IsRising : (n k : ℕ) → IsRising (upto n k)
upto-IsRising n zero = tt
upto-IsRising n (suc k) = (above-upto n (suc n) k (omega arith), upto-IsRising (suc n) k)
