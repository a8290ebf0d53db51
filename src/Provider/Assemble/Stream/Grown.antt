-- ===== src/Provider/Assemble/Stream/Grown.antt =====
-- Items with a text that grows by the deltas of their index.
use Prim.Native.String.{◌++◌ as append}
use kn9t.Prelude.{
  any-append, append_assoc, append-nil, map-append, ℕ, ◌≡◌, refl, sym, ap, ◌∙◌, String, true, false,
  ◌||◌, List, [], ◌∷◌, ◌++◌, map, ◌==◌, if◌then◌else◌, arith,
}
use kn9t.Provider.Assemble.Stream.{has}

has-snoc : (seen : List ℕ) (k i : ℕ) → has (seen ++ k ∷ []) i ≡ (has seen i || k == i)
unfolding has
has-snoc seen k i = ground (arith, any-append (λ j. j == i) seen (k ∷ []))

-- Items with a text that grows, of which the first of an index gets it.
module _ {A : Type 0} (key : A → ℕ) (add : A → String → A)
    (key-add : (a : A) (t : String) → key (add a t) ≡ key a)
    (add-add : (a : A) (t u : String) → add (add a t) u ≡ add a (append t u)) where
  unfoldable pub push_first : ℕ → String → List A → List A
  push_first i delta [] = []
  push_first i delta (a ∷ xs) = if key a == i then add a delta ∷ xs else a ∷ push_first i delta xs

  unfoldable pub grown : (seen : List ℕ) → (ℕ → String) → List A → List A
  grown seen f [] = []
  grown seen f (a ∷ xs) =
      (if has seen (key a) then a else add a (f (key a))) ∷ grown (seen ++ key a ∷ []) f xs

  keys-push_first :
      (i : ℕ) (delta : String) (xs : List A) → map key (push_first i delta xs) ≡ map key xs
  unfolding push_first
  keys-push_first i delta [] = refl
  keys-push_first i delta (a ∷ xs) = ground (arith, keys-push_first i delta xs, key-add a delta)

  unfoldable pub more : ℕ → String → (ℕ → String) → ℕ → String
  more i delta f j = if i == j then append delta (f j) else f j

  grown-seen :
      (seen : List ℕ) (i : ℕ) (delta : String) (f : ℕ → String) (xs : List A)
      → has seen i ≡ true
      → grown seen (more i delta f) xs ≡ grown seen f xs
  unfolding grown more
  grown-seen seen i delta f [] h = refl
  grown-seen seen i delta f (a ∷ xs) h =
      ground (arith, h, has-snoc seen (key a) i, grown-seen (seen ++ key a ∷ []) i delta f xs)

  grown-push_first :
      (seen : List ℕ) (i : ℕ) (delta : String) (f : ℕ → String) (xs : List A)
      → has seen i ≡ false
      → grown seen (more i delta f) xs ≡ grown seen f (push_first i delta xs)
  unfolding grown more push_first
  grown-push_first seen i delta f [] h = refl
  grown-push_first seen i delta f (a ∷ xs) h = ground (
    arith,
    h,
    key-add a delta,
    add-add a delta (f i),
    has-snoc seen (key a) i,
    grown-seen (seen ++ key a ∷ []) i delta f xs,
    grown-push_first (seen ++ key a ∷ []) i delta f xs,
  )

  grown-snoc :
      (seen : List ℕ) (f : ℕ → String) (xs : List A) (n : A)
      → grown seen f (xs ++ n ∷ [])
        ≡ grown seen f xs
          ++ (if has (seen ++ map key xs) (key n) then n else add n (f (key n))) ∷ []
  unfolding grown
  grown-snoc seen f [] n = ground (arith, append-nil seen)
  grown-snoc seen f (a ∷ xs) n =
      ground
        (arith, grown-snoc (seen ++ key a ∷ []) f xs n, append_assoc seen (key a ∷ []) (map key xs))

  push_first-absent :
      (i : ℕ) (delta : String) (xs : List A)
      → has (map key xs) i ≡ false
      → push_first i delta xs ≡ xs
  unfolding push_first has
  push_first-absent i delta [] h = refl
  push_first-absent i delta (a ∷ xs) h = ground (arith, h, push_first-absent i delta xs)

  pub grown-none :
      ((a : A) → add a "" ≡ a) → (seen : List ℕ) (xs : List A) → grown seen (λ i. "") xs ≡ xs
  unfolding grown
  grown-none add-nil seen [] = refl
  grown-none add-nil seen (a ∷ xs) =
      ground (arith, add-nil a, grown-none add-nil (seen ++ key a ∷ []) xs)

  pub grown-absent :
      (i : ℕ) (delta : String) (f : ℕ → String) (xs : List A)
      → has (map key xs) i ≡ false
      → grown [] f xs ≡ grown [] (more i delta f) xs
  unfolding has
  grown-absent i delta f xs h =
      sym (grown-push_first [] i delta f xs refl ∙ ap (grown [] f) (push_first-absent i delta xs h))

  -- What is collected when the stream goes on: what is there, grown, and what is new.
  abbrev pub then_new : List A → (ℕ → String) → (List ℕ → List A) → List A
  then_new xs f new = grown [] f xs ++ new (map key xs)

  pub then_new-push_first :
      (i : ℕ) (delta : String) (xs : List A) (f : ℕ → String) (new : List ℕ → List A)
      → then_new (push_first i delta xs) f new ≡ then_new xs (more i delta f) new
  unfolding has
  then_new-push_first i delta xs f new =
      ap (λ ks. grown [] f (push_first i delta xs) ++ new ks) (keys-push_first i delta xs)
      ∙ ap (λ ys. ys ++ new (map key xs)) (sym (grown-push_first [] i delta f xs refl))

  pub then_new-snoc :
      (xs : List A) (n : A) (f : ℕ → String) (new : List ℕ → List A)
      → then_new (xs ++ n ∷ []) f new
        ≡ grown [] f xs
          ++ (if has (map key xs) (key n) then n else add n (f (key n)))
            ∷ new (map key xs ++ key n ∷ [])
  then_new-snoc xs n f new =
      ap (λ ks. grown [] f (xs ++ n ∷ []) ++ new ks) (map-append key xs (n ∷ []))
      ∙ ap (λ ys. ys ++ new (map key xs ++ key n ∷ [])) (grown-snoc [] f xs n)
      ∙ append_assoc (grown [] f xs) _ _
