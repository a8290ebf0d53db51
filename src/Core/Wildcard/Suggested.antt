-- ===== src/Core/Wildcard/Suggested.antt =====
-- The pattern that is suggested for a command (crates/kn9t-core/src/toolspec.rs).
use Prim.Native.Char.{Char, code}
use Prim.Native.String.{◌++◌ as append}
use text.Mathlib.TextLemmas.{append_assoc, append-nil, nil-append, cons-append}
use kn9t.Prelude.{
  ◌≡◌, ◌≢◌, refl, sym, ap, ◌∙◌, ◌↔◌, inl, inr, subst, String, Bool, true, false, ◌&&◌, not, Option,
  [], ◌∷◌, ◌==◌, str_eq, eq_iff, Bool-cases, if◌then◌else◌, arith,
}
use kn9t.Prelude.Whitespace.{is_whitespace, trim_start}
use kn9t.Core.Wildcard.{split, wildcard_match, take_word, first_word, value_to_pattern}
use kn9t.Core.Wildcard.Glob.{Glob, IsSplit, Glob-IsSplit, IsSplit-Glob, wildcard_match-Glob}

-- A word has neither white space nor a star.
abbrev pub is_word : String → Bool
is_word String.[] = true
is_word (String.◌∷◌ c s) = not (is_whitespace (code c)) && (not (code c == 42) && is_word s)

take_word-append :
    (word rest : String) → is_word word ≡ true → take_word (append word (append " " rest)) ≡ word
unfolding take_word is_whitespace
take_word-append String.[] rest h = rw nil-append (rw cons-append refl)
take_word-append (String.◌∷◌ c word) rest h =
    rw cons-append (ground (arith, h, take_word-append word rest))

trim_start-word :
    (c : Char) (word rest : String)
    → is_word (String.◌∷◌ c word) ≡ true
    → trim_start (append (String.◌∷◌ c word) rest) ≡ append (String.◌∷◌ c word) rest
unfolding trim_start
trim_start-word c word rest h = rw cons-append (ground (arith, h))

split-word :
    (word : String) → is_word word ≡ true → split (append word " *") ≡ (append word " ", "" ∷ [])
unfolding split
split-word String.[] h = refl
split-word (String.◌∷◌ c word) h =
    let (plain, later) : ((code c == 42) ≡ false) × (is_word word ≡ true) = ground (arith, h) in
    rw cons-append
      (rw (plain, split-word word later) (ap (λ w. (w, "" ∷ [])) (sym (cons-append c word " "))))

Glob-command :
    (word value : String)
    → is_word word ≡ true
    → Glob (append word " *") value ↔ ((args : String) × (value ≡ append word (append " " args)))
Glob-command word value h =
    let e = split-word word h in
    (
      λ g.
          let (tail, whole, l) : IsSplit (append word " ", "" ∷ []) value =
            subst (λ t. IsSplit t value) e (Glob-IsSplit (append word " *") value g) in
          (tail, whole ∙ append_assoc word " " tail),
      λ (args, whole).
          let split_at : IsSplit (append word " ", "" ∷ []) value = (
            args,
            whole ∙ sym (append_assoc word " " args),
            (args, "", sym (ap (append args) (nil-append "") ∙ append-nil args), refl),
          ) in
          IsSplit-Glob (append word " *") value (subst (λ t. IsSplit t value) (sym e) split_at),
    )

module _ (extension parent : String → Option String) where
  pattern_of :
      (word args : String)
      → word ≢ ""
      → is_word word ≡ true
      → value_to_pattern extension parent (append word (append " " args)) false ≡ append word " *"
  unfolding value_to_pattern first_word
  pattern_of String.[] args some_word h = absurd (some_word refl)
  pattern_of (String.◌∷◌ c rest) args some_word h =
      let word = String.◌∷◌ c rest in
      let found =
        ap take_word (trim_start-word c rest (append " " args) h) ∙ take_word-append word args h in
      ap (λ w. if str_eq w "" then "*" else append w " *") found
      ∙ elim (Bool-cases (str_eq word "")) [
        | inl empty ↦ absurd (some_word ((eq_iff word "").0 empty))
        | inr full ↦ rw full refl
      ]

  -- The pattern that is suggested for a command with arguments, whose first word has no star, matches
  -- exactly the commands that are that word, a space, and any arguments: the command itself and its
  -- like, and not the word alone.
  pub value_to_pattern-commands :
      (word args value : String)
      → word ≢ ""
      → is_word word ≡ true
      → (wildcard_match
            (value_to_pattern extension parent (append word (append " " args)) false)
            value
          ≡ true)
        ↔ ((args' : String) × (value ≡ append word (append " " args')))
  value_to_pattern-commands word args value some_word h =
      let e = pattern_of word args some_word h in
      let (to, from) = wildcard_match-Glob (append word " *") value in
      let (to', from') = Glob-command word value h in
      (
        λ m. to' (to (sym (ap (λ p. wildcard_match p value) e) ∙ m)),
        λ whole. ap (λ p. wildcard_match p value) e ∙ from (from' whole),
      )
