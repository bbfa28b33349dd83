-- ===== src/Rapid/Delimited.antt =====
-- RAPIDRecord::countCharInString and RAPIDRecord::extractDelimitedSubstrings of src/rws_rapid.cpp.
use abb_librws.Base.{
  ℕ, zero, suc, ◌+◌, ◌-◌, ◌%◌, ◌^◌, Bool, true, false, Text, is_empty, find_first, find_last,
  before, remove_at, erase, split, length, codes, ◌==◌, [], ◌∷◌, ◌++◌, List, Option, none, some,
  if◌then◌else◌, ◌≡◌, refl,
}
use mathlib.Core.List.{foldl}
pub mod Count
pub mod Brackets
pub mod Merging
pub mod Reading

-- The range of `unsigned int`. The signed `counter` is held by its bit pattern: `counter += n` and
-- `counter -= n` of an unsigned `n` are computed modulo this range.
abbrev pub uint_range : ℕ
uint_range = 2 ^ 32

-- The do-while loop of countCharInString, with fuel for its rounds.
unfoldable pub count_loop : ℕ → Text → ℕ → ℕ → ℕ
unfolding find_first
count_loop zero input character count = count
count_loop (suc fuel) input character count = elim (find_first character input) [
  | none ↦ count
  | some position ↦ count_loop fuel (remove_at position input) character ((count + 1) % uint_range)
]

-- The fuel is one round for each byte, and one for the round that finds none.
unfoldable pub count_char_in_string : Text → ℕ → ℕ
count_char_in_string input character = count_loop (suc (length input)) input character 0

-- The text without its first '[' and its last ']', if it has both; `none` is `std::out_of_range`.
unfoldable pub strip_brackets : Text → Option Text
unfolding find_first find_last
strip_brackets input =
    let position_1 = find_first b'[' input in
    let position_2 = find_last b']' input in
    elim position_1 [
      | none ↦ some input
      | some i ↦ elim position_2 [
        | none ↦ some input
        | some j ↦ elim (erase input (some i)) [
          | none ↦ none
          | some temp ↦ erase temp (before (some j))
        ]
      ]
    ]

-- The variables of the merging loop: `values`, `temp_2` and `counter`.
pub record Merge : Type 0 where
  pub values : List Text
  pub pending : Text
  pub counter : ℕ

abbrev pub merge_start : Merge
merge_start = record { values = []; pending = []; counter = 0 }

-- `counter += …('['); counter -= …(']');` for one piece.
unfoldable pub count_brackets : ℕ → Text → ℕ
count_brackets counter piece =
    ((counter + count_char_in_string piece b'[') % uint_range
      + (uint_range - count_char_in_string piece b']'))
    % uint_range

-- One round of the loop, for the piece `temp_1`.
unfoldable pub merge_piece : Merge → Text → Merge
merge_piece m [] = m
merge_piece m (c ∷ s) =
    let piece = c ∷ s in
    let counter = count_brackets m.counter piece in
    if counter == 0
    then (if is_empty m.pending
        then record { values = m.values ++ piece ∷ []; pending = m.pending; counter = counter }
        else record {
          values = m.values ++ (m.pending ++ piece) ∷ [];
          pending = [];
          counter = counter;
        })
    else record {
      values = m.values;
      pending = m.pending ++ (piece ++ codes ",");
      counter = counter;
    }

-- RAPIDRecord::extractDelimitedSubstrings; `none` is `std::out_of_range`.
unfoldable pub extract_delimited_substrings : Text → Option (List Text)
extract_delimited_substrings input = elim (strip_brackets input) [
  | none ↦ none
  | some temp_0 ↦ some (foldl merge_piece merge_start (split b',' temp_0)).values
]

sample :
    extract_delimited_substrings (codes "[[1,2],,[\"a\",[x]],7]")
    ≡ some (codes "[1,2]" ∷ codes "[\"a\",[x]]" ∷ codes "7" ∷ [])
unfolding extract_delimited_substrings strip_brackets split merge_piece count_brackets
    count_char_in_string count_loop
sample = refl
