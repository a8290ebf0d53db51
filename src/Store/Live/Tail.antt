-- ===== src/Store/Live/Tail.antt =====
-- What the cap on a call's progress (crates/kn9t-store/src/live.rs) keeps: the tail.
use Prim.Native.String.len
use Prim.Native.Char.{Char, len_utf8, len_utf8_def}
use Prim.Native.String.{len, ◌++◌ as append}
use text.Mathlib.TextLemmas.{nil-append, cons-append, append_assoc}
use text.Mathlib.TextPositions.{len_utf8-pos, len-append}
use kn9t.Prelude.{
  Bool-cases, inl, inr, ◌⊎◌, ltb→lt, lt→ltb, if◌then◌else◌, ltb, not, ◌&&◌, String, dec_lt, ℕ, zero,
  suc, ◌+◌, ◌-◌, ◌≤◌, ◌<◌, ◌≡◌, refl, sym, ap, ◌∙◌, Bool, true, false, some, arith,
}
use kn9t.Store.Live.{is_char_boundary, slice_from, next_boundary, capped, max_progress_bytes}

len_utf8_le : (c : Char) → len_utf8 c ≤ 4
len_utf8_le c = rw (len_utf8_def c) (ground arith)

len_utf8_ge : (c : Char) → 0 < len_utf8 c
len_utf8_ge c = let (k, e) = len_utf8-pos c in omega (arith, e)

len-cons : (c : Char) (s : String) → len (String.◌∷◌ c s) ≡ len_utf8 c + len s
len-cons c s = len.cons c s

-- Behind a first character both positions count from after it.
boundary-cons :
    (c : Char) (s : String) (i : ℕ)
    → len_utf8 c ≤ i
    → is_char_boundary (String.◌∷◌ c s) i ≡ is_char_boundary s (i - len_utf8 c)
unfolding is_char_boundary
boundary-cons c s zero h = absurd (omega (arith, len_utf8_ge c))
boundary-cons c s (suc i) h = ground arith

boundary_within :
    (c : Char) (s : String) (i : ℕ)
    → is_char_boundary (String.◌∷◌ c s) (suc i) ≡ true
    → (len_utf8 c ≤ suc i) × (is_char_boundary s (suc i - len_utf8 c) ≡ true)
unfolding is_char_boundary
boundary_within c s i h = ground arith

-- What begins at a boundary is a suffix.
pub slice_from-boundary :
    (s : String) (i : ℕ)
    → is_char_boundary s i ≡ true
    → (front : String) × (rest : String) × (slice_from s i ≡ some rest)
      × (s ≡ append front rest)
      × (len front ≡ i)
unfolding slice_from
slice_from-boundary s zero h = ("", s, refl, sym (nil-append s), refl)
slice_from-boundary String.[] (suc i) h = absurd (nothing i h)
  where
    nothing : (i : ℕ) → is_char_boundary String.[] (suc i) ≡ true → ⊥
    nothing i h = unfold is_char_boundary in cc
slice_from-boundary (String.◌∷◌ c s) (suc i) h =
    let (fits, inner) = boundary_within c s i h in
    let (front, rest, found, e, l) = slice_from-boundary s (suc i - len_utf8 c) inner in
    (
      String.◌∷◌ c front,
      rest,
      ground (arith, found),
      ap (String.◌∷◌ c) e ∙ sym (cons-append c front rest),
      omega (arith, len-cons c front, l, fits),
    )

-- From any position on, a boundary comes within three bytes.
boundary_near :
    (s : String) (i : ℕ) → i ≤ len s → (k : ℕ) × (k ≤ 3) × (is_char_boundary s (i + k) ≡ true)
boundary_near s zero h = (0, omega arith, unfold is_char_boundary in refl)
boundary_near String.[] (suc i) h = absurd (omega (arith, len.nil))
boundary_near (String.◌∷◌ c s) (suc i) h = elim (dec_lt (suc i) (len_utf8 c)) [
  | yes inside ↦
      let k = len_utf8 c - suc i in
      let at : suc i + k ≡ len_utf8 c = omega arith in
      let none_left : len_utf8 c - len_utf8 c ≡ 0 = omega arith in
      (
        k,
        omega (arith, len_utf8_le c),
        rw (at, boundary-cons c s (len_utf8 c) (omega arith), none_left)
            (unfold is_char_boundary in refl),
      )
  | no outside ↦
      let (k, small, there) = boundary_near s (suc i - len_utf8 c) (omega (arith, len-cons c s)) in
      let at : suc i + k - len_utf8 c ≡ suc i - len_utf8 c + k = omega arith in
      (k, small, boundary-cons c s (suc i + k) (omega arith) ∙ rw at there)
]

boundary_end : (s : String) → is_char_boundary s (len s) ≡ true
boundary_end String.[] = rw len.nil (unfold is_char_boundary in refl)
boundary_end (String.◌∷◌ c s) =
    let rest : len_utf8 c + len s - len_utf8 c ≡ len s = omega arith in
    rw (len-cons, boundary-cons c s (len_utf8 c + len s) (omega arith), rest) (boundary_end s)

-- The loop stops at the first boundary.
module _ (s : String) where
  abbrev IsReached : ℕ → ℕ → ℕ → Type 0
  IsReached i k r = (i ≤ r) × (r ≤ i + k) × (is_char_boundary s r ≡ true)

  cut_moves :
      (i k : ℕ) (b : Bool) (further : ℕ)
      → b ≡ is_char_boundary s i
      → i ≤ len s
      → (b ≡ false → i < len s → IsReached i k further)
      → IsReached i k (if ltb i (len s) && not b then further else i)
  cut_moves i k true further e h later = elim (Bool-cases (ltb i (len s))) [
    | inl p ↦ rw p (omega arith, omega arith, sym e)
    | inr p ↦ rw p (omega arith, omega arith, sym e)
  ]
  cut_moves i k false further e h later = elim (Bool-cases (ltb i (len s))) [
    | inl p ↦ rw p (later refl (ltb→lt i (len s) p))
    | inr p ↦
        let at : i ≡ len s = ground arith in rw p (omega arith, omega arith, rw at (boundary_end s))
  ]

next_boundary_lem :
    (fuel k : ℕ) (s : String) (i : ℕ)
    → k ≤ fuel
    → i ≤ len s
    → is_char_boundary s (i + k) ≡ true
    → IsReached s i k (next_boundary fuel s i)
unfolding next_boundary
next_boundary_lem zero k s i h l e =
    let same : i + k ≡ i = omega arith in (omega arith, omega arith, rw same at e)
next_boundary_lem (suc fuel) zero s i h l e =
    let same : i + 0 ≡ i = omega arith in
    cut_moves s i 0 (is_char_boundary s i) (next_boundary fuel s (i + 1)) refl l
      (λ off _. absurd (ground (arith, off, rw same at e)))
next_boundary_lem (suc fuel) (suc k) s i h l e =
    let step : i + 1 + k ≡ i + suc k = omega arith in
    cut_moves s i (suc k) (is_char_boundary s i) (next_boundary fuel s (i + 1)) refl l (λ _ more.
      let (low, high, there) =
        next_boundary_lem fuel k s (i + 1) (omega arith) (omega arith) (rw step e) in
      (omega arith, omega arith, there))

-- What is stored of the text `all`: all of it, or its end, of at least the limit but for the bytes of
-- a cut character.
pub record IsTailOf (all progress : String) (truncated : Bool) : Type 0 where
  pub fits : len progress ≤ max_progress_bytes
  pub kept :
      (progress ≡ all) × (truncated ≡ false)
      ⊎ ((front : String) × (all ≡ append front progress)
          × (0 < len front)
          × (truncated ≡ true)
          × (max_progress_bytes ≤ len progress + 3))

capped_cut :
    (progress : String) (truncated : Bool)
    → max_progress_bytes < len progress
    → (front : String) × (rest : String) × (capped progress truncated ≡ some (rest, true))
      × (progress ≡ append front rest)
      × (len rest ≤ max_progress_bytes)
      × (0 < len front)
      × (max_progress_bytes ≤ len rest + 3)
unfolding capped
capped_cut progress truncated h =
    let i = len progress - max_progress_bytes in
    let (k, small, there) = boundary_near progress i (omega arith) in
    let (low, high, at) = next_boundary_lem 3 k progress i small (omega arith) there in
    let cut = next_boundary 3 progress i in
    let (front, rest, found, e, l) = slice_from-boundary progress cut at in
    let total = ap len e ∙ len-append front rest in
    (
      front,
      rest,
      rw (lt→ltb max_progress_bytes (len progress) h, found),
      e,
      omega (arith, total, l, low),
      omega (arith, l, low),
      omega (arith, total, l, high, small),
    )

IsTailOf-cut :
    (all p note front rest : String) (t : Bool)
    → IsTailOf all p t
    → append p note ≡ append front rest
    → len rest ≤ max_progress_bytes
    → 0 < len front
    → max_progress_bytes ≤ len rest + 3
    → IsTailOf (append all note) rest true
IsTailOf-cut all p note front rest t old e fits some_cut long = record {
  fits = fits;
  kept = elim old.kept [
    | inl (whole, _) ↦ inr (front, ap (λ x. append x note) (sym whole) ∙ e, some_cut, refl, long)
    | inr (before, split, cut, _, _) ↦ inr (
      append before front,
      ap (λ x. append x note) split
          ∙ append_assoc before p note
          ∙ ap (append before) e
          ∙ sym (append_assoc before front rest),
      omega (arith, len-append before front),
      refl,
      long,
    )
  ];
}

IsTailOf-whole :
    (all p note : String) (t : Bool)
    → IsTailOf all p t
    → len (append p note) ≤ max_progress_bytes
    → IsTailOf (append all note) (append p note) t
IsTailOf-whole all p note t old fits = record {
  fits = fits;
  kept = elim old.kept [
    | inl (whole, unflagged) ↦ inl (ap (λ x. append x note) whole, unflagged)
    | inr (before, split, cut, flagged, long) ↦ inr (
      before,
      ap (λ x. append x note) split ∙ append_assoc before p note,
      cut,
      flagged,
      omega (arith, long, len-append p note),
    )
  ];
}

-- One more note: the stored text is again the tail of all that was written.
pub capped-IsTailOf :
    (all p note : String) (t : Bool)
    → IsTailOf all p t
    → (p' : String) × (t' : Bool) × (capped (append p note) t ≡ some (p', t'))
      × IsTailOf (append all note) p' t'
capped-IsTailOf all p note t old = elim (dec_lt max_progress_bytes (len (append p note))) [
  | yes over ↦
      let (front, rest, found, e, fits, some_cut, long) = capped_cut (append p note) t over in
      (rest, true, found, IsTailOf-cut all p note front rest t old e fits some_cut long)
  | no under ↦ (
    append p note,
    t,
    (unfold capped in ground arith),
    IsTailOf-whole all p note t old (omega arith),
  )
]

pub capped_total :
    (progress : String) (truncated : Bool)
    → (p' : String) × (t' : Bool) × (capped progress truncated ≡ some (p', t'))
capped_total progress truncated = elim (dec_lt max_progress_bytes (len progress)) [
  | yes over ↦
      let (front, rest, found, e, fits, some_cut, long) = capped_cut progress truncated over in
      (rest, true, found)
  | no under ↦ (progress, truncated, (unfold capped in ground arith))
]
