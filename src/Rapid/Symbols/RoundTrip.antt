-- ===== src/Rapid/Symbols/RoundTrip.antt =====
-- parseString after constructString, on whole trees of RAPID data, and RAPIDRecord::operator=.
use abb_librws.Base.{
  suc, ◌<◌, ◌≡◌, ◌≢◌, refl, ap, ap₂, ◌∙◌, Bool, true, false, Text, text_eq, text_eq_refl, length,
  List, [], ==_refl, some, arith,
}
use abb_librws.Rapid.Atoms.{
  Floats, returned, construct_bool, parse_bool, construct_num, construct_dnum,
}
use abb_librws.Rapid.Atoms.Words.{IsUnspaced, string_round_trip_iff}
use abb_librws.Rapid.Delimited.{uint_range, extract_delimited_substrings}
use abb_librws.Rapid.Symbols.{
  Symbol, bool, num, dnum, string, struct, Components, nil, cons, size, within, and_then, construct,
  parse, parse_all, parse_substrings, assign, assign_all,
}
use abb_librws.Rapid.Symbols.Texts.{depth, depth_all, IsClean, AllClean, texts, extract-construct}

-- The same classes, with other values.
abbrev mutual
  pub SameShape : {Num Dnum : Type 0} → Symbol Num Dnum → Symbol Num Dnum → Type 0
  SameShape (bool b) (bool b') = Unit
  SameShape (num x) (num x') = Unit
  SameShape (dnum x) (dnum x') = Unit
  SameShape (string s) (string s') = Unit
  SameShape (struct n cs) (struct n' cs') = (n ≡ n') × AllSameShape cs cs'
  SameShape _ _ = ⊥

  pub AllSameShape : {Num Dnum : Type 0} → Components Num Dnum → Components Num Dnum → Type 0
  AllSameShape nil nil = Unit
  AllSameShape (cons s cs) (cons s' cs') = SameShape s s' × AllSameShape cs cs'
  AllSameShape _ _ = ⊥

-- Each atomic value is one that its stream reads back: a number that its text stands for exactly, a
-- string of one word.
abbrev mutual
  pub IsExact : {Num Dnum : Type 0} → Floats Num Dnum → Symbol Num Dnum → Type 0
  IsExact fl (bool b) = Unit
  IsExact {Num} fl (num x) = (old : Num) → fl.read_num (construct_num fl x) old ≡ x
  IsExact {Dnum = Dnum} fl (dnum x) = (old : Dnum) → fl.read_dnum (construct_dnum fl x) old ≡ x
  IsExact fl (string s) = (s ≢ []) × IsUnspaced s
  IsExact fl (struct n cs) = AllExact fl cs

  pub AllExact : {Num Dnum : Type 0} → Floats Num Dnum → Components Num Dnum → Type 0
  AllExact fl nil = Unit
  AllExact fl (cons s cs) = IsExact fl s × AllExact fl cs

parse_bool-construct_bool : (b : Bool) → parse_bool (construct_bool b) ≡ b
unfolding parse_bool construct_bool text_eq
parse_bool-construct_bool true = refl
parse_bool-construct_bool false = refl

module _ {Num Dnum : Type 0} (fl : Floats Num Dnum) where
  length-texts :
      (cs cs' : Components Num Dnum) → AllSameShape cs cs' → size cs ≡ length (texts fl cs')
  unfolding texts
  length-texts nil nil h = refl
  length-texts (cons s cs) (cons s' cs') h = ap suc (length-texts cs cs' h.1)
  length-texts cs cs' h = absurd h

  parse_struct :
      (n : Text) (cs : Components Num Dnum) (t : Text) (substrings : List Text)
      → extract_delimited_substrings t ≡ some substrings
      → size cs ≡ length substrings
      → parse fl (struct n cs) t ≡ within (struct n) (parse_all fl cs substrings)
  unfolding parse
  parse_struct n cs t substrings e k =
      ap (λ o. parse_substrings n cs o (parse_all fl cs)) e ∙ rw (k, ==_refl (length substrings))

  mutual
    unfolding parse construct texts

    -- A value comes back from its text into any object of its shape, whatever that held.
    round_trip :
        (old s : Symbol Num Dnum)
        → SameShape old s
        → IsClean fl s
        → IsExact fl s
        → depth s < uint_range
        → parse fl old (construct fl s) ≡ returned s
    round_trip (bool b) (bool b') h c e d = rw parse_bool-construct_bool
    round_trip (num x) (num x') h c e d = ap (λ y. returned (num y)) (e x)
    round_trip (dnum x) (dnum x') h c e d = ap (λ y. returned (dnum y)) (e x)
    round_trip (string t) (string t') h c e d =
        ap (within string) ((string_round_trip_iff t').1 e t)
    round_trip (struct n cs) (struct n' cs') h c e d =
        parse_struct n cs _ _ (extract-construct fl n' cs' c (omega arith))
          (length-texts cs cs' h.1)
        ∙ ap (within (struct n)) (round_trip_all cs cs' h.1 c e (omega arith))
        ∙ ap (λ k. returned (struct k cs')) h.0
    round_trip old s h c e d = absurd h

    round_trip_all :
        (old cs : Components Num Dnum)
        → AllSameShape old cs
        → AllClean fl cs
        → AllExact fl cs
        → depth_all cs < uint_range
        → parse_all fl old (texts fl cs) ≡ returned cs
    round_trip_all nil nil h c e d = refl
    round_trip_all (cons s cs) (cons s' cs') h c e d =
        ap₂ (λ p q. and_then p cs q) (round_trip s s' h.0 c.0 e.0 (omega arith))
          (round_trip_all cs cs' h.1 c.1 e.1 (omega arith))
    round_trip_all old cs h c e d = absurd h

  size_of_shape : (cs cs' : Components Num Dnum) → AllSameShape cs cs' → size cs ≡ size cs'
  size_of_shape nil nil h = refl
  size_of_shape (cons s cs) (cons s' cs') h = ap suc (size_of_shape cs cs' h.1)
  size_of_shape cs cs' h = absurd h

  mutual
    unfolding parse construct assign_all

    assign_all_lem :
        (old cs : Components Num Dnum)
        → AllSameShape old cs
        → AllClean fl cs
        → AllExact fl cs
        → depth_all cs < uint_range
        → assign_all fl old cs ≡ returned cs
    assign_all_lem nil nil h c e d = refl
    assign_all_lem (cons s cs) (cons s' cs') h c e d =
        ap₂ (λ p q. and_then p cs q) (round_trip s s' h.0 c.0 e.0 (omega arith))
          (assign_all_lem cs cs' h.1 c.1 e.1 (omega arith))
    assign_all_lem old cs h c e d = absurd h

  -- A value whose atomic texts are words that read back exactly, nested less than 2^32 deep, comes back
  -- from its text into any object of its shape, whatever that object held.
  pub parse-construct :
      (old s : Symbol Num Dnum)
      → SameShape old s
      → IsClean fl s
      → IsExact fl s
      → depth s < uint_range
      → parse fl old (construct fl s) ≡ returned s
  parse-construct = round_trip

  -- RAPIDRecord::operator= gives a record of the same name and shape the components of the other, if their
  -- atomic texts are words that read back exactly, and they are nested less than 2^32 deep.
  pub assign_copies :
      (n : Text) (old cs : Components Num Dnum)
      → AllSameShape old cs
      → AllClean fl cs
      → AllExact fl cs
      → depth_all cs < uint_range
      → assign fl n old n cs ≡ returned cs
  unfolding assign
  assign_copies n old cs h c e d =
      rw (text_eq_refl n, size_of_shape old cs h, ==_refl (size cs)) (assign_all_lem old cs h c e d)
