-- ===== src/Rapid/Delimited/Brackets.antt =====
-- The brackets round a record's text, as `strip_brackets` takes them away.
use abb_librws.Base.{
  ℕ, ◌≡◌, ◌≢◌, Text, codes, find_first, find_last, erase, ◌∷◌, ◌++◌, none, some, arith,
}
use abb_librws.Rapid.Atoms.Quotes.{find_last-append_one, erase-append_one}
use abb_librws.Rapid.Delimited.{strip_brackets, extract_delimited_substrings}

erase_zero : (c : ℕ) (t : Text) → erase (c ∷ t) (some 0) ≡ some t
erase_zero c t = ground arith

-- The outer pair goes, whatever stands between.
pub strip_brackets_outer :
    (inner : Text) → strip_brackets (codes "[" ++ (inner ++ codes "]")) ≡ some inner
unfolding strip_brackets find_first find_last
strip_brackets_outer inner =
    rw (find_last-append_one b']' inner, strip_brackets, erase_zero b'[' (inner ++ codes "]"))
      (erase-append_one b']' inner)

erase_one : (b c : ℕ) (t : Text) → erase (b ∷ c ∷ t) (some 1) ≡ some (b ∷ t)
erase_one b c t = ground arith

-- A blank before the pair stays.
pub strip_brackets_spaced :
    (inner : Text) → strip_brackets (32 ∷ codes "[" ++ (inner ++ codes "]")) ≡ some (32 ∷ inner)
unfolding strip_brackets find_first find_last
strip_brackets_spaced inner =
    rw (find_last-append_one b']' inner, strip_brackets, erase_one 32 b'[' (inner ++ codes "]"))
      (erase-append_one b']' (32 ∷ inner))

-- A text that opens with its only ']' and has a '[' makes the second `erase` throw.
pub extract_throws :
    (t : Text)
    → find_last b']' t ≡ none
    → find_first b'[' t ≢ none
    → extract_delimited_substrings (b']' ∷ t) ≡ none
unfolding extract_delimited_substrings strip_brackets find_first find_last
extract_throws t closed opened = ground arith
