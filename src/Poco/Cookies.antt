-- ===== src/Poco/Cookies.antt =====
-- The parts of src/rws_poco_client.cpp that take strings apart: a cookie, and a substring of a header.
pub mod Extraction
pub mod Quots
use mathlib.Core.Option
use abb_librws.Base.{
  ℕ, zero, suc, ◌+◌, ◌-◌, Bool, true, false, Text, codes, find_first, leb, take, drop, length, ◌==◌,
  ◌&&◌, if◌then◌else◌, [], ◌∷◌, ◌++◌, Option, none, some,
}

-- `substr(position, count)` from a position in the text; a count past the end is cut there. The
-- difference of two positions that would be negative wraps round to such a count.
abbrev pub substr_between : ℕ → ℕ → Text → Text
substr_between from to t = if leb from to then take (to - from) (drop from t) else drop from t

-- extractAndStoreCookie: the name and the value that are stored, if the delimiters are found.
unfoldable pub extract_cookie : Text → Option (Text × Text)
unfolding find_first
extract_cookie cookie_string = elim (find_first b'=' cookie_string) [
  | none ↦ none
  | some position_1 ↦ elim (find_first b';' cookie_string) [
    | none ↦ none
    | some position_2 ↦
        some
          (take position_1 cookie_string, substr_between (position_1 + 1) position_2 cookie_string)
  ]
]

-- Does the text begin with this one?
unfoldable pub starts_with : Text → Text → Bool
starts_with [] t = true
starts_with (c ∷ s) [] = false
starts_with (c ∷ s) (d ∷ t) = c == d && starts_with s t

-- `find(text)`
unfoldable pub find : Text → Text → Option ℕ
find s [] = if starts_with s [] then some 0 else none
find s (c ∷ t) =
    let rest = Option.map suc (find s t) in if starts_with s (c ∷ t) then some 0 else rest

abbrev pub quot : Text
quot = codes "&quot;"

-- The do-while loop at the end of findSubstringContent, with fuel for its rounds.
unfoldable pub remove_quots : ℕ → Text → Text
remove_quots zero result = result
remove_quots (suc fuel) result = elim (find quot result) [
  | none ↦ result
  | some quot_position ↦
      remove_quots fuel (take quot_position result ++ drop (quot_position + length quot) result)
]

-- `find_first_of(set, position)`, as the distance from the position
unfoldable pub find_any : Text → Text → Option ℕ
find_any set [] = none
find_any set (c ∷ t) = elim (find_first c set) [
  | none ↦ Option.map suc (find_any set t)
  | some i ↦ some 0
]

-- The first half of findSubstringContent.
unfoldable pub content_between : Text → Text → Text → Text
content_between whole_string substring_start substring_end =
    elim (find substring_start whole_string) [
      | none ↦ []
      | some start_position ↦
          let rest = drop (start_position + length substring_start) whole_string in
          elim (find_any substring_end rest) [ none ↦ [] | some n ↦ take n rest ]
    ]

-- findSubstringContent; each round of the last loop removes six bytes, so the length is fuel enough.
unfoldable pub find_substring_content : Text → Text → Text → Text
find_substring_content whole_string substring_start substring_end =
    let result = content_between whole_string substring_start substring_end in
    remove_quots (length result) result
