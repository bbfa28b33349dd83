-- ===== src/Rapid/Delimited/Merging.antt =====
-- The merging loop, read byte by byte: which state it is in between two bytes of the input.
use mathlib.Core.List.{foldl}
use abb_librws.Base.{
  ℕ, suc, ◌+◌, ◌-◌, ◌%◌, ◌<◌, ◌≡◌, refl, Bool, false, Text, codes, split, ◌==◌, ◌||◌, [], ◌∷◌, ◌++◌,
  arith, All,
}
use abb_librws.Rapid.Delimited.{uint_range, Merge, count_brackets, merge_piece}
use abb_librws.Rapid.Delimited.Count.{
  occurrences, occurrences-append, count_char_in_string-eq-occurrences,
}

-- The loop over the rest of the input.
abbrev pub run : Merge → Text → Merge
run m t = foldl merge_piece m (split b',' t)

abbrev pub IsCommaless : Text → Type 0
IsCommaless = All (λ c. (c == b',') ≡ false)

-- Neither a comma nor a bracket.
abbrev pub is_delimiter : ℕ → Bool
is_delimiter c = c == b',' || (c == b'[' || c == b']')

abbrev pub IsPlain : Text → Type 0
IsPlain = All (λ c. is_delimiter c ≡ false)

pub IsPlain-IsCommaless : (p : Text) → IsPlain p → IsCommaless p
IsPlain-IsCommaless [] h = tt
IsPlain-IsCommaless (c ∷ p) h = (ground arith, IsPlain-IsCommaless p h.1)

split_of_comma : (s t : Text) → IsCommaless s → split b',' (s ++ b',' ∷ t) ≡ s ∷ split b',' t
unfolding split
split_of_comma [] t h = refl
split_of_comma (c ∷ s) t h = rw (h.0, split_of_comma s t h.1)

split_of_commaless : (c : ℕ) (s : Text) → IsCommaless (c ∷ s) → split b',' (c ∷ s) ≡ (c ∷ s) ∷ []
unfolding split
split_of_commaless c [] h = rw h.0
split_of_commaless c (d ∷ s) h = rw (h.0, split_of_commaless d s h.1)

-- A piece ends at a comma, and at the end of the input.
pub run_comma :
    (m : Merge) (s t : Text) → IsCommaless s → run m (s ++ b',' ∷ t) ≡ run (merge_piece m s) t
run_comma m s t h = rw (split_of_comma s t h)

pub run_end : (m : Merge) (s : Text) → IsCommaless s → run m s ≡ merge_piece m s
unfolding merge_piece split
run_end m [] h = refl
run_end m (c ∷ s) h = rw (split_of_commaless c s h)

count_brackets_lem :
    (n : ℕ) (s : Text)
    → count_brackets n s
      ≡ ((n + occurrences b'[' s) % uint_range + (uint_range - occurrences b']' s % uint_range))
        % uint_range
unfolding count_brackets
count_brackets_lem n s =
    rw (count_char_in_string-eq-occurrences s b'[', count_char_in_string-eq-occurrences s b']')
      (omega arith)

-- Counting over two texts in turn.
pub count_brackets-append :
    (n : ℕ) (s t : Text) → count_brackets n (s ++ t) ≡ count_brackets (count_brackets n s) t
count_brackets-append n s t = omega (
  arith,
  count_brackets_lem n (s ++ t),
  count_brackets_lem (count_brackets n s) t,
  count_brackets_lem n s,
  occurrences-append b'[' s t,
  occurrences-append b']' s t,
)

pub count_brackets_nil : (n : ℕ) → n < uint_range → count_brackets n [] ≡ n
unfolding occurrences
count_brackets_nil n h = omega (arith, count_brackets_lem n [])

pub count_brackets_open : (n : ℕ) → suc n < uint_range → count_brackets n (codes "[") ≡ suc n
unfolding occurrences
count_brackets_open n h = omega (arith, count_brackets_lem n (codes "["))

pub count_brackets_close : (n : ℕ) → suc n < uint_range → count_brackets (suc n) (codes "]") ≡ n
unfolding occurrences
count_brackets_close n h = omega (arith, count_brackets_lem (suc n) (codes "]"))

occurrences_of_plain : (p : Text) → IsPlain p → (occurrences b'[' p ≡ 0) × (occurrences b']' p ≡ 0)
unfolding occurrences
occurrences_of_plain [] h = (refl, refl)
occurrences_of_plain (c ∷ p) h = ground (arith, occurrences_of_plain p h.1)

pub count_brackets_plain : (n : ℕ) (p : Text) → n < uint_range → IsPlain p → count_brackets n p ≡ n
count_brackets_plain n p b h = omega (arith, count_brackets_lem n p, occurrences_of_plain p h)
