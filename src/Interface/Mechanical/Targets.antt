-- ===== src/Interface/Mechanical/Targets.antt =====
-- How a target's text is taken apart: groups of numbers, with a blank before each group but the first.
use abb_librws.Base.{
  ◌≡◌, refl, sym, ap, ◌∙◌, false, Text, codes, List, [], ◌∷◌, ◌++◌, append_assoc, append-nil, arith,
  some, All,
}
use abb_librws.Rapid.Atoms.{Floats, construct_num}
use abb_librws.Rapid.Records.{nums}
use abb_librws.Rapid.Symbols.{Symbol, struct, construct, construct_all}
use abb_librws.Rapid.Symbols.Texts.{
  IsWord, AllClean, texts, depth_all, extract-construct, Lands-construct,
}
use abb_librws.Rapid.Delimited.{strip_brackets, extract_delimited_substrings}
use abb_librws.Rapid.Delimited.Brackets.{strip_brackets_outer, strip_brackets_spaced}
use abb_librws.Rapid.Delimited.Merging.{run}
use abb_librws.Rapid.Delimited.Reading.{
  Lands, top, top-At, Lands-append, Lands-plain, run_value_end, run_value_comma,
}

-- Texts in the place of numbers, which print as they are
abbrev words : Floats Text Text
words = record {
  print_num = λ t. t;
  read_num = λ t old. t;
  is_unlimited_num = λ t. false;
  print_dnum = λ t. t;
  read_dnum = λ t old. t;
  is_unlimited_dnum = λ t. false;
}

abbrev pub AllWords : List Text → Type 0
AllWords = All IsWord

-- The text of a group
abbrev group : List Text → Symbol Text Text
group ts = struct [] (nums ts)

abbrev pub group_text : List Text → Text
group_text ts = construct words (group ts)

nums-AllClean : (ts : List Text) → AllWords ts → AllClean words (nums ts)
unfolding construct_num
nums-AllClean [] h = tt
nums-AllClean (t ∷ ts) h = (h.0, nums-AllClean ts h.1)

depth-nums : (ts : List Text) → depth_all (nums {Num = Text} {Dnum = Text} ts) ≡ 0
depth-nums [] = refl
depth-nums (t ∷ ts) = omega (arith, depth-nums ts)

texts-nums : (ts : List Text) → texts words (nums ts) ≡ ts
unfolding texts construct construct_num
texts-nums [] = refl
texts-nums (t ∷ ts) = ap (λ r. t ∷ r) (texts-nums ts)

pub extract-group_text :
    (ts : List Text) → AllWords ts → extract_delimited_substrings (group_text ts) ≡ some ts
extract-group_text ts h =
    extract-construct words [] (nums ts) (nums-AllClean ts h) (omega (arith, depth-nums ts))
    ∙ ap some (texts-nums ts)

spaced-IsWord : (t : Text) → IsWord t → IsWord (32 ∷ t)
spaced-IsWord t h = (λ e. cc, (refl, h.1))

same_strip :
    (s t : Text)
    → strip_brackets s ≡ strip_brackets t
    → extract_delimited_substrings s ≡ extract_delimited_substrings t
unfolding extract_delimited_substrings
same_strip s t h = rw (h, extract_delimited_substrings) refl

-- A blank before the group goes to its first text.
pub extract-spaced :
    (t : Text) (ts : List Text)
    → AllWords (t ∷ ts)
    → extract_delimited_substrings (32 ∷ group_text (t ∷ ts)) ≡ some ((32 ∷ t) ∷ ts)
unfolding construct construct_num
extract-spaced t ts h =
    same_strip (32 ∷ group_text (t ∷ ts)) (group_text ((32 ∷ t) ∷ ts)) (
      strip_brackets_spaced (construct_all words (nums (t ∷ ts)))
      ∙ sym (strip_brackets_outer (construct_all words (nums ((32 ∷ t) ∷ ts)))))
    ∙ extract-group_text ((32 ∷ t) ∷ ts) (spaced-IsWord t h.0, h.1)

Lands-spaced :
    (ts : List Text) (values : List Text)
    → AllWords ts
    → Lands 0 (top values) [] (32 ∷ group_text ts)
Lands-spaced ts values h =
    Lands-append
      (Lands-plain 0 (top values) [] (codes " ") (top-At values) (omega arith) (λ e. cc) (refl, tt))
      λ m cur a n.
        Lands-construct words (group ts) 0 m cur (nums-AllClean ts h) (omega (arith, depth-nums ts))
          a

-- The groups after the first
abbrev spaced_groups : List (List Text) → Text
spaced_groups [] = []
spaced_groups (ts ∷ rest) = 44 ∷ 32 ∷ (group_text ts ++ spaced_groups rest)

abbrev pub spaced_texts : List (List Text) → List Text
spaced_texts [] = []
spaced_texts (ts ∷ rest) = (32 ∷ group_text ts) ∷ spaced_texts rest

run-groups :
    (value : Text) (rest : List (List Text)) (values : List Text)
    → Lands 0 (top values) [] value
    → All AllWords rest
    → run (top values) (value ++ spaced_groups rest) ≡ top (values ++ value ∷ spaced_texts rest)
run-groups value [] values l h =
    ap (run (top values)) (append-nil value) ∙ run_value_end values value l
run-groups value (ts ∷ rest) values l h =
    run_value_comma values value _ l
    ∙ run-groups (32 ∷ group_text ts) rest (values ++ value ∷ []) (Lands-spaced ts _ h.0) h.1
    ∙ ap top (append_assoc values (value ∷ []) (spaced_texts (ts ∷ rest)))

-- The text of a target
abbrev pub target_text : List Text → List (List Text) → Text
target_text ts rest = codes "[" ++ ((group_text ts ++ spaced_groups rest) ++ codes "]")

pub extract-target_text :
    (ts : List Text) (rest : List (List Text))
    → AllWords ts
    → All AllWords rest
    → extract_delimited_substrings (target_text ts rest) ≡ some (group_text ts ∷ spaced_texts rest)
unfolding extract_delimited_substrings
extract-target_text ts rest h hs =
    rw (strip_brackets_outer (group_text ts ++ spaced_groups rest), extract_delimited_substrings)
      (ap (λ m. some m.values)
        (run-groups (group_text ts) rest []
          (Lands-construct words (group ts) 0 (top []) [] (nums-AllClean ts h)
            (omega (arith, depth-nums ts)) (top-At []))
          hs))
