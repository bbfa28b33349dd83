-- ===== src/Rapid/Atoms.antt =====
-- The atomic RAPID types of src/rws_rapid.cpp. An operation that may throw `std::out_of_range` returns
-- an `Option`.
pub mod Quotes
pub mod Words
use abb_librws.Base.{
  Bool, Text, codes, text_eq, find_first, find_last, last_index, pos_eq, erase, read_word, ◌++◌,
  ◌==◌, Option, none, some, if◌then◌else◌,
}

abbrev pub quote : Text
quote = codes "\""

abbrev pub rapid_true : Text
rapid_true = codes "TRUE"

abbrev pub rapid_false : Text
rapid_false = codes "FALSE"

-- RAPIDAtomic<RAPID_BOOL>::constructString
unfoldable pub construct_bool : Bool → Text
construct_bool value = if value then rapid_true else rapid_false

-- RAPIDAtomic<RAPID_BOOL>::parseString
unfoldable pub parse_bool : Text → Bool
unfolding text_eq
parse_bool value_string = text_eq value_string rapid_true

-- RAPIDAtomic<RAPID_STRING>::constructString
unfoldable pub construct_string : Text → Text
construct_string value = quote ++ value ++ quote

-- The first half of RAPIDAtomic<RAPID_STRING>::parseString, which removes the quotes: one at position
-- 0, then one at the last position of what is left.
unfoldable pub drop_first_quote : Text → Option Text
unfolding find_first
drop_first_quote temp =
    let position = find_first b'"' temp in
    if pos_eq position (some 0) then erase temp position else some temp

unfoldable pub drop_last_quote : Text → Option Text
unfolding find_last
drop_last_quote temp =
    let position = find_last b'"' temp in
    if pos_eq position (last_index temp) then erase temp position else some temp

unfoldable pub strip_quotes : Text → Option Text
strip_quotes value_string = elim (drop_first_quote value_string) [
  | none ↦ none
  | some temp ↦ drop_last_quote temp
]

-- What a `parseString` leaves behind: the object, and whether it returned or threw `std::out_of_range`.
pub data Parsed {ℓ} (A : Type ℓ) : Type ℓ where
  returned : A → Parsed A
  threw : A → Parsed A

-- RAPIDAtomic<RAPID_STRING>::parseString, over the value that the object held before.
unfoldable pub parse_string : Text → Text → Parsed Text
parse_string value value_string = elim (strip_quotes value_string) [
  | none ↦ threw value
  | some temp ↦ returned (read_word value temp)
]

-- The floating-point types: `float` and `double` with what the program uses of them, which is the
-- output and the input of a stream in its default format and the comparison with `(float) 9E9`. An
-- input that fails may leave any value, so the value before is an argument.
pub record Floats (Num Dnum : Type 0) : Type 0 where
  pub print_num : Num → Text
  pub read_num : Text → Num → Num
  pub is_unlimited_num : Num → Bool
  pub print_dnum : Dnum → Text
  pub read_dnum : Text → Dnum → Dnum
  pub is_unlimited_dnum : Dnum → Bool

abbrev pub unlimited : Text
unlimited = codes "9000000000"

module _ {Num Dnum : Type 0} (fl : Floats Num Dnum) where
  -- RAPIDAtomic<RAPID_NUM>::constructString
  unfoldable pub construct_num : Num → Text
  construct_num value = if fl.is_unlimited_num value then unlimited else fl.print_num value

  -- RAPIDAtomic<RAPID_DNUM>::constructString
  unfoldable pub construct_dnum : Dnum → Text
  construct_dnum value = if fl.is_unlimited_dnum value then unlimited else fl.print_dnum value
