-- ===== src/Tests/Data.antt =====
-- RAPID data: a record in a record, and texts that do not come back.
use abb_librws.Base.{
  ℕ, ◌+◌, ◌-◌, ◌≡◌, ◌≢◌, refl, ◌↔◌, ◌⊎◌, ◌%◌, true, Text, codes, find_first, find_last, ◌==◌, [],
  ◌∷◌, some, none, arith,
}
use abb_librws.Rapid.Atoms.{
  Floats, returned, threw, construct_num, construct_bool, construct_string, parse_string, quote,
}
use abb_librws.Rapid.Atoms.Words.{IsUnspaced, string_round_trip_iff, parse_string-eq-threw_iff}
use abb_librws.Rapid.Delimited.{uint_range, count_char_in_string, extract_delimited_substrings}
use abb_librws.Rapid.Delimited.Count.{occurrences, count_char_in_string-eq-occurrences}
use abb_librws.Rapid.Delimited.Brackets.{extract_throws}
use abb_librws.Rapid.Symbols.{
  bool, num, string, struct, Components, nil, cons, construct, parse, assign,
}
use abb_librws.Rapid.Symbols.Texts.{texts, extract-construct, AllClean}
use abb_librws.Rapid.Symbols.RoundTrip.{AllExact, parse-construct, assign_copies}

-- Numbers of one digit; 9 stands for 9E9.
abbrev pub first_digit : Text → ℕ → ℕ
first_digit [] old = old
first_digit (c ∷ t) old = c - 48

abbrev pub digits : Floats ℕ ℕ
digits = record {
  print_num = λ n. (48 + n) ∷ [];
  read_num = first_digit;
  is_unlimited_num = λ n. n == 9;
  print_dnum = λ n. (48 + n) ∷ [];
  read_dnum = first_digit;
  is_unlimited_dnum = λ n. n == 9;
}

abbrev inner : ℕ → ℕ → Components ℕ ℕ
inner a b = cons (num a) (cons (num b) nil)

abbrev sample : ℕ → ℕ → Components ℕ ℕ
sample a b =
    cons (struct (codes "pos") (inner a b)) (cons (bool true) (cons (string (codes "x")) nil))

sample_text :
    construct digits (struct (codes "s") (sample 1 9)) ≡ codes "[[1,9000000000],TRUE,\"x\"]"
unfolding construct construct_num construct_bool construct_string
sample_text = refl

sample_clean : AllClean digits (sample 1 9)
unfolding construct_num
sample_clean = (
  (
    ((λ e. cc), (refl, tt)),
    (
      (
        (λ e. cc),
        (refl, (refl, (refl, (refl, (refl, (refl, (refl, (refl, (refl, (refl, tt)))))))))),
      ),
      tt,
    ),
  ),
  (tt, ((refl, tt), tt)),
)

sample_exact : AllExact digits (sample 1 9)
unfolding construct_num
sample_exact = (((λ old. refl), ((λ old. refl), tt)), (tt, (((λ e. cc), (refl, tt)), tt)))

parse-construct_example :
    parse digits
      (struct (codes "s") (sample 3 4))
      (construct digits (struct (codes "s") (sample 1 9)))
    ≡ returned (struct (codes "s") (sample 1 9))
parse-construct_example =
    parse-construct digits (struct (codes "s") (sample 3 4)) (struct (codes "s") (sample 1 9))
      (refl, ((refl, (tt, (tt, tt))), (tt, (tt, tt)))) sample_clean sample_exact (omega arith)

assign_copies_example :
    assign digits (codes "s") (sample 3 4) (codes "s") (sample 1 9) ≡ returned (sample 1 9)
assign_copies_example =
    assign_copies digits (codes "s") (sample 3 4) (sample 1 9)
      ((refl, (tt, (tt, tt))), (tt, (tt, tt))) sample_clean sample_exact (omega arith)

substrings_of_sample :
    extract_delimited_substrings (construct digits (struct (codes "s") (sample 1 9)))
    ≡ some (texts digits (sample 1 9))
substrings_of_sample = extract-construct digits (codes "s") (sample 1 9) sample_clean (omega arith)

string_round_trip_iff_example :
    ((old : Text) → parse_string old (construct_string (codes "ab")) ≡ returned (codes "ab"))
    ↔ ((codes "ab" ≢ []) × IsUnspaced (codes "ab"))
string_round_trip_iff_example = string_round_trip_iff (codes "ab")

parse_string-eq-threw_iff_example :
    (parse_string (codes "old") quote ≡ threw (codes "old")) ↔ ((quote ≡ []) ⊎ (quote ≡ quote))
parse_string-eq-threw_iff_example = parse_string-eq-threw_iff (codes "old") quote

counts_occurrences :
    count_char_in_string (codes "[[1") b'[' ≡ occurrences b'[' (codes "[[1") % uint_range
counts_occurrences = count_char_in_string-eq-occurrences (codes "[[1") b'['

malformed_throws : extract_delimited_substrings (codes "]1[") ≡ none
unfolding find_first find_last
malformed_throws = extract_throws (codes "1[") refl (λ e. cc)
