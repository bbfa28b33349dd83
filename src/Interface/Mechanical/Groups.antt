-- ===== src/Interface/Mechanical/Groups.antt =====
-- Parses of a target's text into records of numbers.
use abb_librws.Base.{
  suc, ◌==◌, ==_refl, ◌≡◌, refl, ap, ◌∙◌, true, Text, List, [], ◌∷◌, length, arith, some, All,
}
use mathlib.Core.List.{map}
use abb_librws.Rapid.Atoms.{Floats, returned}
use abb_librws.Rapid.Records.{nums}
use abb_librws.Rapid.Symbols.{Symbol, struct, Components, nil, cons, size, parse, parse_all}
use abb_librws.Rapid.Delimited.{extract_delimited_substrings}
use abb_librws.Interface.Mechanical.Targets.{
  AllWords, target_text, group_text, spaced_texts, extract-target_text, extract-group_text,
  extract-spaced,
}

-- A record of numbers, at least one, and the texts for them
pub record Group (Num : Type 0) : Type 0 where
  pub name : Text
  pub old : Num
  pub olds : List Num
  pub first : Text
  pub rest : List Text

module _ {Num Dnum : Type 0} (fl : Floats Num Dnum) where
  -- The numbers that are read over the old ones
  abbrev pub read_each : List Num → List Text → List Num
  read_each (o ∷ os) (t ∷ ts) = fl.read_num t o ∷ read_each os ts
  read_each _ _ = []

  abbrev pub before_read : Group Num → Symbol Num Dnum
  before_read g = struct g.name (nums (g.old ∷ g.olds))

  abbrev pub after_read : Group Num → Symbol Num Dnum
  after_read g = struct g.name (nums (read_each (g.old ∷ g.olds) (g.first ∷ g.rest)))

  abbrev pub components : (Group Num → Symbol Num Dnum) → List (Group Num) → Components Num Dnum
  components f [] = nil
  components f (g ∷ gs) = cons (f g) (components f gs)

  abbrev pub texts_of : Group Num → List Text
  texts_of g = g.first ∷ g.rest

  -- As many words as numbers
  abbrev pub IsFitting : Group Num → Type 0
  IsFitting g = (length g.rest ≡ length g.olds) × AllWords (g.first ∷ g.rest)

  size-nums : (os : List Num) → size (nums {Dnum = Dnum} os) ≡ length os
  size-nums [] = refl
  size-nums (o ∷ os) = ap suc (size-nums os)

  parse_all-nums :
      (os : List Num) (ts : List Text)
      → length ts ≡ length os
      → parse_all fl (nums os) ts ≡ returned (nums (read_each os ts))
  unfolding parse
  parse_all-nums [] [] h = refl
  parse_all-nums [] (t ∷ ts) h = absurd (omega arith)
  parse_all-nums (o ∷ os) [] h = absurd (omega arith)
  parse_all-nums (o ∷ os) (t ∷ ts) h = rw (parse_all-nums os ts (omega arith)) refl

  parse-components :
      (n : Text) (cs cs' : Components Num Dnum) (text : Text) (ts : List Text)
      → extract_delimited_substrings text ≡ some ts
      → (size cs == length ts) ≡ true
      → parse_all fl cs ts ≡ returned cs'
      → parse fl (struct n cs) text ≡ returned (struct n cs')
  unfolding parse
  parse-components n cs cs' text ts e h p = rw (e, h, p) refl

  parse-nums :
      (n : Text) (os : List Num) (text : Text) (ts : List Text)
      → extract_delimited_substrings text ≡ some ts
      → length ts ≡ length os
      → parse fl (struct n (nums os)) text ≡ returned (struct n (nums (read_each os ts)))
  parse-nums n os text ts e h =
      parse-components n (nums os) (nums (read_each os ts)) text ts e
        (rw (size-nums os, h) (==_refl (length os))) (parse_all-nums os ts h)

  parse-group :
      (g : Group Num)
      → IsFitting g
      → parse fl (before_read g) (group_text (texts_of g)) ≡ returned (after_read g)
  parse-group g h =
      parse-nums g.name (g.old ∷ g.olds) (group_text (texts_of g)) (texts_of g)
        (extract-group_text (texts_of g) h.1) (omega (arith, h.0))

  size-components :
      (gs : List (Group Num))
      → size (components before_read gs) ≡ length (spaced_texts (map texts_of gs))
  size-components [] = refl
  size-components (g ∷ gs) = ap suc (size-components gs)

  All-texts_of : (gs : List (Group Num)) → All IsFitting gs → All AllWords (map texts_of gs)
  All-texts_of [] h = tt
  All-texts_of (g ∷ gs) h = (h.0.1, All-texts_of gs h.1)

  module _ (skips : (t : Text) (old : Num) → fl.read_num (32 ∷ t) old ≡ fl.read_num t old) where
    parse-spaced :
        (g : Group Num)
        → IsFitting g
        → parse fl (before_read g) (32 ∷ group_text (texts_of g)) ≡ returned (after_read g)
    parse-spaced g h =
        parse-nums g.name (g.old ∷ g.olds) (32 ∷ group_text (texts_of g)) ((32 ∷ g.first) ∷ g.rest)
          (extract-spaced g.first g.rest h.1) (omega (arith, h.0))
        ∙ ap (λ n. returned (struct g.name (nums (n ∷ read_each g.olds g.rest))))
            (skips g.first g.old)

    parse_all-spaced :
        (gs : List (Group Num))
        → All IsFitting gs
        → parse_all fl (components before_read gs) (spaced_texts (map texts_of gs))
          ≡ returned (components after_read gs)
    unfolding parse
    parse_all-spaced [] h = refl
    parse_all-spaced (g ∷ gs) h = rw (parse-spaced g h.0, parse_all-spaced gs h.1) refl

    -- A target's text leaves the numbers that are read from its texts.
    pub parse-target_text :
        (n : Text) (g : Group Num) (gs : List (Group Num))
        → IsFitting g
        → All IsFitting gs
        → parse fl
            (struct n (components before_read (g ∷ gs)))
            (target_text (texts_of g) (map texts_of gs))
          ≡ returned (struct n (components after_read (g ∷ gs)))
    unfolding parse
    parse-target_text n g gs h hs =
        parse-components n (components before_read (g ∷ gs)) (components after_read (g ∷ gs))
          (target_text (texts_of g) (map texts_of gs))
          (group_text (texts_of g) ∷ spaced_texts (map texts_of gs))
          (extract-target_text (texts_of g) (map texts_of gs) h.1 (All-texts_of gs hs))
          (rw (size-components gs) (==_refl (suc (length (spaced_texts (map texts_of gs))))))
          (rw (parse-group g h, parse_all-spaced gs hs) refl)
