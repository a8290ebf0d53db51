-- ===== src/Core/Wildcard.antt =====
-- `wildcard_match` of crates/kn9t-core/src/toolspec.rs, the patterns of a tool's policy. The position `pos` is
-- what of the value stands behind it; it is behind a part that was found, and so between two characters.
pub mod Parts
pub mod Glob
pub mod Suggested
use Prim.Native.Char.{code}
use Prim.Native.String.{◌++◌ as append}
use kn9t.Prelude.Whitespace.{is_whitespace, trim_start}
use kn9t.Prelude.{
  String, Bool, true, false, ◌||◌, Option, none, some, List, [], ◌∷◌, ◌==◌, str_eq, if◌then◌else◌,
}

-- `str::starts_with`, with what stands behind the prefix.
unfoldable pub after_prefix : (part s : String) → Option String
after_prefix String.[] s = some s
after_prefix (String.◌∷◌ p ps) String.[] = none
after_prefix (String.◌∷◌ p ps) (String.◌∷◌ c s) =
    let rest = after_prefix ps s in if code p == code c then rest else none

-- `str::find`, with what stands behind the first hit.
unfoldable pub find_after : (part s : String) → Option String
unfolding after_prefix
find_after part String.[] = after_prefix part ""
find_after part (String.◌∷◌ c s) =
    let further = find_after part s in
    elim (after_prefix part (String.◌∷◌ c s)) [ some rest ↦ some rest | none ↦ further ]

unfoldable pub ends_with : (part s : String) → Bool
ends_with part String.[] = str_eq part ""
ends_with part (String.◌∷◌ c s) = str_eq part (String.◌∷◌ c s) || ends_with part s

unfoldable pub contains_star : String → Bool
contains_star String.[] = false
contains_star (String.◌∷◌ c s) = (code c == 42) || contains_star s

-- `split('*')`: the first part and the others.
unfoldable pub split : String → String × List String
split String.[] = ("", [])
split (String.◌∷◌ c s) =
    let (part, parts) = split s in
    if code c == 42 then ("", part ∷ parts) else (String.◌∷◌ c part, parts)

-- The rounds of the loop after the first.
unfoldable pub later_parts : List String → (rest : String) → Bool
unfolding ends_with find_after
later_parts [] rest = true
later_parts (part ∷ []) rest = str_eq part "" || ends_with part rest
later_parts (part ∷ next ∷ parts) rest =
    let skipped = later_parts (next ∷ parts) rest in
    let behind : Bool = elim (find_after part rest) [
      | none ↦ false
      | some rest' ↦ later_parts (next ∷ parts) rest'
    ] in
    if str_eq part "" then skipped else behind

unfoldable pub match_parts : String × List String → (value : String) → Bool
unfolding later_parts after_prefix
match_parts (part, parts) value = elim (after_prefix part value) [
  | none ↦ false
  | some rest ↦ later_parts parts rest
]

unfoldable pub wildcard_match : (pattern value : String) → Bool
unfolding contains_star split match_parts
wildcard_match pattern value =
    if str_eq pattern "*"
    then true
    else if contains_star pattern
    then match_parts (split pattern) value
    else str_eq pattern value

-- `ToolSpec::matches_patterns`
unfoldable pub matches_patterns : (value : String) → List String → Bool
unfolding wildcard_match
matches_patterns value [] = false
matches_patterns value (pattern ∷ patterns) =
    wildcard_match pattern value || matches_patterns value patterns

-- `split_whitespace().next()`, "" if there is no word.
unfoldable pub take_word : String → String
unfolding is_whitespace
take_word String.[] = ""
take_word (String.◌∷◌ c s) =
    let rest = take_word s in if is_whitespace (code c) then "" else String.◌∷◌ c rest

unfoldable pub first_word : String → String
unfolding trim_start take_word
first_word s = take_word (trim_start s)

-- The paths of the standard library are read by `extension` and `parent`.
module _ (extension parent : String → Option String) where
  unfoldable pub path_pattern : String → String
  path_pattern value = elim (extension value) [
    | some ext ↦ append "*." ext
    | none ↦ elim (parent value) [
      | none ↦ "*"
      | some dir ↦ if str_eq dir "" then "*" else append dir "/*"
    ]
  ]

  unfoldable pub value_to_pattern : (value : String) → (is_path : Bool) → String
  unfolding path_pattern first_word
  value_to_pattern value true = path_pattern value
  value_to_pattern value false =
      let word = first_word value in if str_eq word "" then "*" else append word " *"
