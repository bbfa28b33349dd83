-- ===== src/Rapid/Symbols/Shapes.antt =====
-- A parse leaves an object of the same class.
use abb_librws.Base.{
  ◌≡◌, refl, sym, ◌∙◌, arith, Text, length, List, [], ◌∷◌, Option, none, some, ◌==◌, Bool-cases,
  inl, inr,
}
use abb_librws.Rapid.Atoms.{Floats, Parsed, returned, threw, parse_string}
use abb_librws.Rapid.Delimited.{extract_delimited_substrings}
use abb_librws.Rapid.Symbols.{
  Symbol, bool, num, dnum, string, struct, Components, nil, cons, size, within, and_then, parse,
  get_type, parse_all, parse_substrings,
}
use abb_librws.Rapid.Symbols.RoundTrip.{SameShape, AllSameShape}

-- The object that a parse leaves, whether it returns or throws.
abbrev pub object_of {ℓ} : {A : Type ℓ} → Parsed A → A
object_of (returned a) = a
object_of (threw a) = a

object_of-within :
    {A B : Type 0} (f : A → B) (p : Parsed A) → object_of (within f p) ≡ f (object_of p)
object_of-within f (returned a) = refl
object_of-within f (threw a) = refl

SameShape-string :
    (Num Dnum : Type 0) (old : Text) (p : Parsed Text)
    → SameShape {Num = Num} {Dnum = Dnum} (string old) (object_of (within string p))
SameShape-string Num Dnum old (returned t) = tt
SameShape-string Num Dnum old (threw t) = tt

module _ {Num Dnum : Type 0} where
  mutual
    SameShape-refl : (s : Symbol Num Dnum) → SameShape s s
    SameShape-refl (bool b) = tt
    SameShape-refl (num x) = tt
    SameShape-refl (dnum x) = tt
    SameShape-refl (string s) = tt
    SameShape-refl (struct n cs) = (refl, AllSameShape-refl cs)

    AllSameShape-refl : (cs : Components Num Dnum) → AllSameShape cs cs
    AllSameShape-refl nil = tt
    AllSameShape-refl (cons s cs) = (SameShape-refl s, AllSameShape-refl cs)

  SameShape-struct :
      (n : Text) (cs : Components Num Dnum) (p : Parsed (Components Num Dnum))
      → AllSameShape cs (object_of p)
      → SameShape (struct n cs) (object_of (within (struct n) p))
  SameShape-struct n cs (returned a) h = (refl, h)
  SameShape-struct n cs (threw a) h = (refl, h)

  SameShape-cons :
      (s : Symbol Num Dnum) (cs : Components Num Dnum) (p : Parsed (Symbol Num Dnum))
      (q : Parsed (Components Num Dnum))
      → SameShape s (object_of p)
      → AllSameShape cs (object_of q)
      → AllSameShape (cons s cs) (object_of (and_then p cs q))
  SameShape-cons s cs (returned a) (returned b) h k = (h, k)
  SameShape-cons s cs (returned a) (threw b) h k = (h, k)
  SameShape-cons s cs (threw a) q h k = (h, AllSameShape-refl cs)

  SameShape-parse_substrings :
      (n : Text) (cs : Components Num Dnum) (o : Option (List Text))
      (parse_them : List Text → Parsed (Components Num Dnum))
      → ((ts : List Text) → AllSameShape cs (object_of (parse_them ts)))
      → SameShape (struct n cs) (object_of (parse_substrings n cs o parse_them))
  SameShape-parse_substrings n cs none parse_them h = (refl, AllSameShape-refl cs)
  SameShape-parse_substrings n cs (some ts) parse_them h =
      elim (Bool-cases (size cs == length ts)) [
        | inl fits ↦ rw fits (SameShape-struct n cs (parse_them ts) (h ts))
        | inr differs ↦ rw differs (refl, AllSameShape-refl cs)
      ]

module _ {Num Dnum : Type 0} (fl : Floats Num Dnum) where
  mutual
    unfolding parse

    parsed_shape : (s : Symbol Num Dnum) (t : Text) → SameShape s (object_of (parse fl s t))
    parsed_shape (bool b) t = tt
    parsed_shape (num x) t = tt
    parsed_shape (dnum x) t = tt
    parsed_shape (string s) t = SameShape-string Num Dnum s (parse_string s t)
    parsed_shape (struct n cs) t =
        SameShape-parse_substrings n cs (extract_delimited_substrings t) (parse_all fl cs)
          (parsed_shapes cs)

    parsed_shapes :
        (cs : Components Num Dnum) (ts : List Text)
        → AllSameShape cs (object_of (parse_all fl cs ts))
    parsed_shapes nil ts = tt
    parsed_shapes (cons s cs) [] = AllSameShape-refl (cons s cs)
    parsed_shapes (cons s cs) (t ∷ ts) =
        SameShape-cons s cs (parse fl s t) (parse_all fl cs ts) (parsed_shape s t)
          (parsed_shapes cs ts)

  -- Whatever the text is, and whether it returns or throws, a parse leaves an object of the class that it
  -- had, with the classes of its components.
  pub parse-SameShape : (s : Symbol Num Dnum) (t : Text) → SameShape s (object_of (parse fl s t))
  parse-SameShape = parsed_shape

module _ {Num Dnum : Type 0} where
  mutual
    pub SameShape-euclidean :
        (a b c : Symbol Num Dnum) → SameShape a b → SameShape a c → SameShape b c
    SameShape-euclidean (bool x) (bool y) (bool z) h k = tt
    SameShape-euclidean (num x) (num y) (num z) h k = tt
    SameShape-euclidean (dnum x) (dnum y) (dnum z) h k = tt
    SameShape-euclidean (string x) (string y) (string z) h k = tt
    SameShape-euclidean (struct n x) (struct m y) (struct o z) h k =
        (sym h.0 ∙ k.0, AllSameShape-euclidean x y z h.1 k.1)
    SameShape-euclidean a b c h k = ground arith

    AllSameShape-euclidean :
        (a b c : Components Num Dnum) → AllSameShape a b → AllSameShape a c → AllSameShape b c
    AllSameShape-euclidean nil nil nil h k = tt
    AllSameShape-euclidean (cons x xs) (cons y ys) (cons z zs) h k =
        (SameShape-euclidean x y z h.0 k.0, AllSameShape-euclidean xs ys zs h.1 k.1)
    AllSameShape-euclidean a b c h k = ground arith

  pub get_type-SameShape : (a b : Symbol Num Dnum) → SameShape a b → get_type a ≡ get_type b
  unfolding get_type
  get_type-SameShape (bool x) (bool y) h = refl
  get_type-SameShape (num x) (num y) h = refl
  get_type-SameShape (dnum x) (dnum y) h = refl
  get_type-SameShape (string x) (string y) h = refl
  get_type-SameShape (struct n x) (struct m y) h = h.0
  get_type-SameShape a b h = ground arith
