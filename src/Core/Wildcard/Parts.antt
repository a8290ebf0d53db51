-- ===== src/Core/Wildcard/Parts.antt =====
-- What the loop of `wildcard_match` (crates/kn9t-core/src/toolspec.rs) finds: the parts of the pattern, in their
-- order and apart from one another. To take the first hit of each part loses no match.
use Prim.Native.Char.{Char, code}
use Prim.Native.String.{◌++◌ as append}
use text.Mathlib.TextLemmas.{
  nil-append, cons-append, append-nil, append_assoc, append_cancel_left, append-eq-nil_iff,
  tail-eq_of_cons-eq,
}
use text.Mathlib.TextEquality.{codes_equal, eq_iff}
use mathlib.Core.Path.{ap₂}
use kn9t.Prelude.{
  ◌≡◌, refl, sym, ap, ◌∙◌, inl, inr, String, true, none, some, Option-cases, Bool-cases, List, [],
  ◌∷◌, ◌==◌, str_eq, eq_refl, arith,
}
use kn9t.Core.Wildcard.{after_prefix, find_after, ends_with, later_parts}

same_char : (c d : Char) → (code c == code d) ≡ true → c ≡ d
same_char c d h = codes_equal c d (ground arith)

pub after_prefix-some :
    (part s rest : String) → after_prefix part s ≡ some rest → s ≡ append part rest
unfolding after_prefix
after_prefix-some String.[] s rest h = let e : s ≡ rest = cc in e ∙ sym (nil-append rest)
after_prefix-some (String.◌∷◌ p ps) String.[] rest h = cc
after_prefix-some (String.◌∷◌ p ps) (String.◌∷◌ c s) rest h =
    let (same, found) : ((code p == code c) ≡ true) × (after_prefix ps s ≡ some rest) =
      ground (arith, h) in
    ap₂ String.◌∷◌ (sym (same_char p c same)) (after_prefix-some ps s rest found)
    ∙ sym (cons-append p ps rest)

pub after_prefix-append : (part rest : String) → after_prefix part (append part rest) ≡ some rest
unfolding after_prefix
after_prefix-append String.[] rest = ap some (nil-append rest)
after_prefix-append (String.◌∷◌ p ps) rest =
    rw cons-append (ground (arith, after_prefix-append ps rest))

one_on :
    (p : Char) (ps tail : String)
    → append (String.◌∷◌ p ps) tail ≡ append (String.◌∷◌ p "") (append ps tail)
one_on p ps tail =
    cons-append p ps tail
    ∙ sym (cons-append p "" _ ∙ ap (String.◌∷◌ p) (nil-append (append ps tail)))

-- A later hit lies in what stands behind an earlier one.
hit_within :
    (part skipped tail rest : String)
    → append part rest ≡ append skipped (append part tail)
    → (front : String) × (rest ≡ append front tail)
hit_within String.[] skipped tail rest e =
    (skipped, sym (nil-append rest) ∙ e ∙ ap (append skipped) (nil-append tail))
hit_within (String.◌∷◌ p ps) String.[] tail rest e =
    ("", append_cancel_left (String.◌∷◌ p ps) rest tail (e ∙ nil-append _) ∙ sym (nil-append tail))
hit_within (String.◌∷◌ p ps) (String.◌∷◌ c skipped) tail rest e =
    let inner =
      tail-eq_of_cons-eq
        (sym (cons-append p ps rest) ∙ e ∙ cons-append c skipped (append (String.◌∷◌ p ps) tail)) in
    hit_within ps (append skipped (String.◌∷◌ p "")) tail rest
      (inner ∙ ap (append skipped) (one_on p ps tail) ∙ sym (append_assoc skipped _ _))

pub find_after-some :
    (part s rest : String)
    → find_after part s ≡ some rest
    → (skipped : String) × (s ≡ append skipped (append part rest))
unfolding find_after
find_after-some part String.[] rest h =
    ("", after_prefix-some part "" rest h ∙ sym (nil-append (append part rest)))
find_after-some part (String.◌∷◌ c s) rest h =
    elim (Option-cases (after_prefix part (String.◌∷◌ c s))) [
      | inr (rest', here) ↦
          let e : rest' ≡ rest = ground (arith, here, h) in
          (
            "",
            after_prefix-some part (String.◌∷◌ c s) rest (here ∙ ap some e)
                ∙ sym (nil-append (append part rest)),
          )
      | inl not_here ↦
          let found : find_after part s ≡ some rest = ground (arith, not_here, h) in
          let (skipped, e) = find_after-some part s rest found in
          (
            String.◌∷◌ c skipped,
            ap (String.◌∷◌ c) e ∙ sym (cons-append c skipped (append part rest)),
          )
    ]

later_hit :
    (part : String) (c : Char) (s skipped tail : String)
    → String.◌∷◌ c s ≡ append skipped (append part tail)
    → after_prefix part (String.◌∷◌ c s) ≡ none
    → (skipped' : String) × (s ≡ append skipped' (append part tail))
later_hit part c s String.[] tail e not_here =
    let here =
      ap (after_prefix part) (e ∙ nil-append (append part tail)) ∙ after_prefix-append part tail in
    cc
later_hit part c s (String.◌∷◌ d skipped) tail e not_here =
    (skipped, tail-eq_of_cons-eq (e ∙ cons-append d skipped (append part tail)))

-- If the part stands somewhere, it is found, and no later than there.
pub find_after-first :
    (part s skipped tail : String)
    → s ≡ append skipped (append part tail)
    → (rest : String) × (front : String) × (find_after part s ≡ some rest)
      × (rest ≡ append front tail)
unfolding find_after
find_after-first part String.[] skipped tail e =
    let (gone, empty) = (append-eq-nil_iff).0 (sym e) in
    let (e1, e2) = (append-eq-nil_iff).0 empty in
    (tail, "", rw (e1, e2) (unfold after_prefix in refl), sym (nil-append tail))
find_after-first part (String.◌∷◌ c s) skipped tail e =
    elim (Option-cases (after_prefix part (String.◌∷◌ c s))) [
      | inr (rest, here) ↦
          let (front, within) =
            hit_within part skipped tail rest
              (sym (after_prefix-some part (String.◌∷◌ c s) rest here) ∙ e) in
          (rest, front, ground (arith, here), within)
      | inl not_here ↦
          let (skipped', e') = later_hit part c s skipped tail e not_here in
          let (rest, front, found, within) = find_after-first part s skipped' tail e' in
          (rest, front, ground (arith, not_here, found), within)
    ]

pub ends_with-part :
    (part s : String) → ends_with part s ≡ true → (skipped : String) × (s ≡ append skipped part)
unfolding ends_with
ends_with-part part String.[] h = ("", sym ((eq_iff part "").0 h) ∙ sym (nil-append part))
ends_with-part part (String.◌∷◌ c s) h = elim (Bool-cases (str_eq part (String.◌∷◌ c s))) [
  | inl same ↦ ("", sym ((eq_iff part (String.◌∷◌ c s)).0 same) ∙ sym (nil-append part))
  | inr other ↦
      let (skipped, e) = ends_with-part part s (ground (arith, other, h)) in
      (String.◌∷◌ c skipped, ap (String.◌∷◌ c) e ∙ sym (cons-append c skipped part))
]

pub ends_with-append : (skipped part : String) → ends_with part (append skipped part) ≡ true
unfolding ends_with
ends_with-append String.[] String.[] = refl
ends_with-append String.[] (String.◌∷◌ c part) =
    rw nil-append (ground (arith, eq_refl (String.◌∷◌ c part)))
ends_with-append (String.◌∷◌ c skipped) part =
    rw cons-append (ground (arith, ends_with-append skipped part))

empty_front : (part rest : String) → str_eq part "" ≡ true → append part rest ≡ rest
empty_front part rest empty = ap (λ p. append p rest) ((eq_iff part "").0 empty) ∙ nil-append rest

-- The parts, in their order and apart from one another, the last one at the end.
abbrev pub IsLater : List String → String → Type 0
IsLater [] rest = rest ≡ ""
IsLater (part ∷ parts) rest =
    (skipped : String) × (tail : String) × (rest ≡ append skipped (append part tail))
    × IsLater parts tail

pub IsLater-front :
    (part : String) (parts : List String) (front tail : String)
    → IsLater (part ∷ parts) tail
    → IsLater (part ∷ parts) (append front tail)
IsLater-front part parts front tail (skipped, tail', e, l) =
    (append front skipped, tail', ap (append front) e ∙ sym (append_assoc front skipped _), l)

pub later_parts-IsLater :
    (part : String) (parts : List String) (rest : String)
    → later_parts (part ∷ parts) rest ≡ true
    → IsLater (part ∷ parts) rest
unfolding later_parts
later_parts-IsLater part [] rest h = elim (Bool-cases (str_eq part "")) [
  | inl empty ↦ (
    rest,
    "",
    sym (ap (append rest) (append-nil part ∙ (eq_iff part "").0 empty) ∙ append-nil rest),
    refl,
  )
  | inr full ↦
      let (skipped, e) = ends_with-part part rest (ground (arith, full, h)) in
      (skipped, "", e ∙ sym (ap (append skipped) (append-nil part)), refl)
]
later_parts-IsLater part (next ∷ parts) rest h = elim (Bool-cases (str_eq part "")) [
  | inl empty ↦
      let skipped = later_parts-IsLater next parts rest (ground (arith, empty, h)) in
      ("", rest, sym (nil-append _ ∙ empty_front part rest empty), skipped)
  | inr full ↦ elim (Option-cases (find_after part rest)) [
    | inl missing ↦ absurd (ground (arith, full, h, missing))
    | inr (rest', found) ↦
        let (skipped, e) = find_after-some part rest rest' found in
        (skipped, rest', e, later_parts-IsLater next parts rest' (ground (arith, full, h, found)))
  ]
]

pub IsLater-later_parts :
    (part : String) (parts : List String) (rest : String)
    → IsLater (part ∷ parts) rest
    → later_parts (part ∷ parts) rest ≡ true
unfolding later_parts
IsLater-later_parts part [] rest (skipped, tail, e, gone) =
    let at_end : rest ≡ append skipped part =
      e ∙ ap (append skipped) (ap (append part) gone ∙ append-nil part) in
    let found = ap (ends_with part) at_end ∙ ends_with-append skipped part in ground (arith, found)
IsLater-later_parts part (next ∷ parts) rest (skipped, tail, e, l) =
    elim (Bool-cases (str_eq part "")) [
      | inl empty ↦
          let whole : rest ≡ append skipped tail =
            e ∙ ap (append skipped) (empty_front part tail empty) in
          let l' = IsLater-front next parts skipped tail l in
          let matched = IsLater-later_parts next parts (append skipped tail) l' in
          ground (arith, empty, ap (later_parts (next ∷ parts)) whole, matched)
      | inr full ↦
          let (rest', front, found, within) = find_after-first part rest skipped tail e in
          let l' = IsLater-front next parts front tail l in
          let matched = IsLater-later_parts next parts (append front tail) l' in
          ground (arith, full, found, ap (later_parts (next ∷ parts)) within, matched)
    ]
