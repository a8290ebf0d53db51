-- ===== src/Core/Wildcard/Glob.antt =====
-- What a wildcard pattern (crates/kn9t-core/src/toolspec.rs) means, and that `wildcard_match` finds just that.
use Prim.Native.Char.{Char, code}
use Prim.Native.String.{◌++◌ as append}
use text.Mathlib.TextLemmas.{nil-append, cons-append, append-nil}
use text.Mathlib.TextEquality.{eq_iff}
use kn9t.Prelude.{
  ◌≡◌, refl, sym, ap, ◌∙◌, ◌↔◌, inl, inr, subst, String, true, false, Option-cases, Bool-cases,
  List, [], ◌∷◌, ◌==◌, str_eq, arith,
}
use kn9t.Core.Wildcard.{after_prefix, split, contains_star, match_parts, wildcard_match}
use kn9t.Core.Wildcard.Parts.{
  after_prefix-some, after_prefix-append, IsLater, later_parts-IsLater, IsLater-later_parts,
}

-- A star stands for any text, another character for itself.
pub data Glob : (pattern value : String) → Type 0 where
  done : Glob "" ""
  same :
      (c : Char) (pattern value : String)
      → (code c == 42) ≡ false
      → Glob pattern value
      → Glob (String.◌∷◌ c pattern) (String.◌∷◌ c value)
  star :
      (c : Char) (pattern skipped value : String)
      → (code c == 42) ≡ true
      → Glob pattern value
      → Glob (String.◌∷◌ c pattern) (append skipped value)

abbrev pub IsSplit : String × List String → String → Type 0
IsSplit (part, parts) value = (tail : String) × (value ≡ append part tail) × IsLater parts tail

pub Glob-IsSplit : (pattern value : String) → Glob pattern value → IsSplit (split pattern) value
unfolding split
Glob-IsSplit pattern value done = ("", sym (nil-append ""), refl)
Glob-IsSplit pattern value (same c p v plain g) =
    let (tail, e, l) = Glob-IsSplit p v g in
    rw plain (tail, ap (String.◌∷◌ c) e ∙ sym (cons-append c _ tail), l)
Glob-IsSplit pattern value (star c p skipped v starred g) =
    let (tail, e, l) = Glob-IsSplit p v g in
    rw starred (append skipped v, sym (nil-append _), (skipped, tail, ap (append skipped) e, l))

pub IsSplit-Glob : (pattern value : String) → IsSplit (split pattern) value → Glob pattern value
unfolding split
IsSplit-Glob String.[] value (tail, e, l) = subst (Glob "") (sym (e ∙ nil-append tail ∙ l)) done
IsSplit-Glob (String.◌∷◌ c pattern) value h = elim (Bool-cases (code c == 42)) [
  | inl starred ↦
      let (part, parts) = split pattern in
      let (tail, e, (skipped, tail', e', l)) : IsSplit ("", part ∷ parts) value = rw starred at h in
      let inner = IsSplit-Glob pattern (append part tail') (tail', refl, l) in
      subst (Glob (String.◌∷◌ c pattern)) (sym (e ∙ nil-append tail ∙ e'))
        (star c pattern skipped (append part tail') starred inner)
  | inr plain ↦
      let (part, parts) = split pattern in
      let (tail, e, l) : IsSplit (String.◌∷◌ c part, parts) value = rw plain at h in
      let inner = IsSplit-Glob pattern (append part tail) (tail, refl, l) in
      subst (Glob (String.◌∷◌ c pattern)) (sym (e ∙ cons-append c part tail))
        (same c pattern (append part tail) plain inner)
]

split_starred :
    (pattern : String)
    → contains_star pattern ≡ true
    → (next : String) × (parts : List String) × ((split pattern).1 ≡ next ∷ parts)
unfolding split contains_star
split_starred String.[] h = cc
split_starred (String.◌∷◌ c pattern) h = elim (Bool-cases (code c == 42)) [
  | inl starred ↦ ((split pattern).0, (split pattern).1, rw starred refl)
  | inr plain ↦
      let (next, parts, e) = split_starred pattern (ground (arith, plain, h)) in
      (next, parts, rw plain e)
]

split_plain : (pattern : String) → contains_star pattern ≡ false → split pattern ≡ (pattern, [])
unfolding split contains_star
split_plain String.[] h = refl
split_plain (String.◌∷◌ c pattern) h =
    let (plain, later) : ((code c == 42) ≡ false) × (contains_star pattern ≡ false) =
      ground (arith, h) in
    rw (plain, split_plain pattern later) refl

match_parts-IsSplit :
    (part next : String) (parts : List String) (value : String)
    → (match_parts (part, next ∷ parts) value ≡ true) ↔ IsSplit (part, next ∷ parts) value
unfolding match_parts
match_parts-IsSplit part next parts value = (
  λ h. elim (Option-cases (after_prefix part value)) [
    | inl missing ↦ absurd (ground (arith, h, missing))
    | inr (tail, found) ↦ (
      tail,
      after_prefix-some part value tail found,
      later_parts-IsLater next parts tail (ground (arith, h, found)),
    )
  ],
  λ (tail, e, l).
      let found = ap (after_prefix part) e ∙ after_prefix-append part tail in
      let matched = IsLater-later_parts next parts tail l in ground (arith, found, matched),
)

starred_lem :
    (pattern value : String)
    → contains_star pattern ≡ true
    → (match_parts (split pattern) value ≡ true) ↔ Glob pattern value
starred_lem pattern value h =
    let (next, parts, e) = split_starred pattern h in
    let e' : split pattern ≡ ((split pattern).0, next ∷ parts) =
      ap (λ t. ((split pattern).0, t)) e in
    let (to, from) = match_parts-IsSplit (split pattern).0 next parts value in
    (
      λ m.
          IsSplit-Glob pattern value (
            subst (λ t. IsSplit t value) (sym e')
              (to (sym (ap (λ t. match_parts t value) e') ∙ m))),
      λ g.
          ap (λ t. match_parts t value) e'
          ∙ from (subst (λ t. IsSplit t value) e' (Glob-IsSplit pattern value g)),
    )

plain_lem :
    (pattern value : String)
    → contains_star pattern ≡ false
    → (str_eq pattern value ≡ true) ↔ Glob pattern value
plain_lem pattern value h =
    let e = split_plain pattern h in
    (
      λ m.
          let split_at : IsSplit (pattern, []) value =
            ("", sym ((eq_iff pattern value).0 m) ∙ sym (append-nil pattern), refl) in
          IsSplit-Glob pattern value (subst (λ t. IsSplit t value) (sym e) split_at),
      λ g.
          let (tail, whole, gone) : IsSplit (pattern, []) value =
            subst (λ t. IsSplit t value) e (Glob-IsSplit pattern value g) in
          (eq_iff pattern value).1 (sym (whole ∙ ap (append pattern) gone ∙ append-nil pattern)),
    )

star_alone : (value : String) → Glob "*" value
unfolding split
star_alone value = IsSplit-Glob "*" value (
  value,
  sym (nil-append value),
  (value, "", sym (ap (append value) (nil-append "") ∙ append-nil value), refl),
)

-- A pattern is found to match a value exactly if it does, each star of it standing for some
-- text and each other character for itself: no match is lost by taking the first hit of each part.
pub wildcard_match-Glob :
    (pattern value : String) → (wildcard_match pattern value ≡ true) ↔ Glob pattern value
unfolding wildcard_match
wildcard_match-Glob pattern value = elim (Bool-cases (str_eq pattern "*")) [
  | inl only ↦
      let whole =
        subst (λ p. Glob p value) (sym ((eq_iff pattern "*").0 only)) (star_alone value) in
      rw only (λ _. whole, λ _. refl)
  | inr other ↦ elim (Bool-cases (contains_star pattern)) [
    | inl starred ↦ rw (other, starred) (starred_lem pattern value starred)
    | inr plain ↦ rw (other, plain) (plain_lem pattern value plain)
  ]
]
