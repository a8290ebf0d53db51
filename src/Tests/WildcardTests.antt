-- ===== src/Tests/WildcardTests.antt =====
-- Patterns of commands and paths.
use Prim.Native.String.{◌++◌ as append}
use text.Mathlib.TextLemmas.{cons≢nil}
use kn9t.Prelude.{◌≡◌, refl, true, false, ◌↔◌, String, none}
use kn9t.Prelude.Whitespace.{is_whitespace}
use kn9t.Core.Wildcard.{wildcard_match, first_word, value_to_pattern}
use kn9t.Core.Wildcard.Glob.{Glob, wildcard_match-Glob}
use kn9t.Core.Wildcard.Suggested.{value_to_pattern-commands}

wildcard_match-Glob_example :
    (wildcard_match "git * --*" "git diff --cached" ≡ true) ↔ Glob "git * --*" "git diff --cached"
wildcard_match-Glob_example = wildcard_match-Glob "git * --*" "git diff --cached"

two_stars : wildcard_match "git * --*" "git diff --cached" ≡ true
unfolding wildcard_match
two_stars = refl

-- A first hit that is too early for a naive search of the last part.
overlapping : wildcard_match "a*ba" "aba" ≡ true
unfolding wildcard_match
overlapping = refl

no_overlap : wildcard_match "ab*ba" "aba" ≡ false
unfolding wildcard_match
no_overlap = refl

-- The pattern that is made for a command of one word.
one_word : wildcard_match "ls *" "ls" ≡ false
unfolding wildcard_match
one_word = refl

value_to_pattern-commands_example :
    (wildcard_match (value_to_pattern (λ s. none) (λ s. none) "git status --short" false) "git diff"
      ≡ true)
    ↔ ((args' : String) × ("git diff" ≡ append "git" (append " " args')))
unfolding is_whitespace
value_to_pattern-commands_example =
    value_to_pattern-commands (λ s. none) (λ s. none) "git" "status --short" "git diff" cons≢nil
      refl

suggested : value_to_pattern (λ s. none) (λ s. none) "ls" false ≡ "ls *"
unfolding value_to_pattern first_word
suggested = refl
