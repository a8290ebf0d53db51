-- ===== src/Prelude/Maybe.antt =====
-- `Option` as a monad: `?` on an absent value, and a panic where the model says so.
use mathlib.Core.Option.{Option, none, some}

infixl 5 ◌>>=◌
abbrev pub ◌>>=◌ {ℓ κ} : {A : Type ℓ} {B : Type κ} → Option A → (A → Option B) → Option B
none >>= f = none
some a >>= f = f a
