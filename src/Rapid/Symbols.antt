-- ===== src/Rapid/Symbols.antt =====
-- RAPIDSymbolDataAbstract and RAPIDRecord: a tree of RAPID data, its type, its text, and parsing over it.
use abb_librws.Base.{
  ℕ, zero, suc, ◌+◌, Bool, true, false, Text, codes, text_eq, length, ◌==◌, if◌then◌else◌, ◌&&◌,
  ◌||◌, [], ◌∷◌, ◌++◌, List, Option, none, some,
}
use abb_librws.Rapid.Atoms.{
  Parsed, returned, threw, Floats, construct_bool, parse_bool, construct_string, parse_string,
  construct_num, construct_dnum,
}
pub mod Texts
pub mod RoundTrip
pub mod Shapes
use abb_librws.Rapid.Delimited.{extract_delimited_substrings}

-- A value of each class that derives from RAPIDSymbolDataAbstract. A record has the name of its type
-- and its components; `parseString` changes the components through the pointers of `components_`.
mutual
  pub data Symbol (Num Dnum : Type 0) : Type 0 where
    bool : Bool → Symbol Num Dnum
    num : Num → Symbol Num Dnum
    dnum : Dnum → Symbol Num Dnum
    string : Text → Symbol Num Dnum
    struct : Text → Components Num Dnum → Symbol Num Dnum

  pub data Components (Num Dnum : Type 0) : Type 0 where
    nil : Components Num Dnum
    cons : Symbol Num Dnum → Components Num Dnum → Components Num Dnum

-- getType
unfoldable pub get_type : {Num Dnum : Type 0} → Symbol Num Dnum → Text
get_type (bool b) = codes "bool"
get_type (num x) = codes "num"
get_type (dnum x) = codes "dnum"
get_type (string s) = codes "string"
get_type (struct record_type_name cs) = record_type_name

-- components_.size()
abbrev pub size : {Num Dnum : Type 0} → Components Num Dnum → ℕ
size nil = 0
size (cons s cs) = suc (size cs)

-- What a parse of a component leaves in the record around it.
abbrev pub within {ℓ κ} : {A : Type ℓ} {B : Type κ} → (A → B) → Parsed A → Parsed B
within f (returned a) = returned (f a)
within f (threw a) = threw (f a)

-- The next component is parsed only if this one returned.
abbrev pub and_then :
    {Num Dnum : Type 0}
    → Parsed (Symbol Num Dnum)
    → Components Num Dnum
    → Parsed (Components Num Dnum)
    → Parsed (Components Num Dnum)
and_then (returned s) old rest = within (cons s) rest
and_then (threw s) old rest = threw (cons s old)

-- The body of RAPIDRecord::parseString, over the extracted substrings and the loop over the components:
-- nothing is parsed if their numbers differ.
abbrev pub parse_substrings :
    {Num Dnum : Type 0}
    → Text
    → Components Num Dnum
    → Option (List Text)
    → (List Text → Parsed (Components Num Dnum))
    → Parsed (Symbol Num Dnum)
parse_substrings n cs none parse_all = threw (struct n cs)
parse_substrings n cs (some substrings) parse_all =
    if size cs == length substrings
    then within (struct n) (parse_all substrings)
    else returned (struct n cs)

module _ {Num Dnum : Type 0} (fl : Floats Num Dnum) where
  -- constructString of each class; a record puts a comma after each component but the last.
  unfoldable mutual
    pub construct : Symbol Num Dnum → Text
    construct (bool b) = construct_bool b
    construct (num x) = construct_num fl x
    construct (dnum x) = construct_dnum fl x
    construct (string s) = construct_string s
    construct (struct n cs) = codes "[" ++ (construct_all cs ++ codes "]")

    pub construct_all : Components Num Dnum → Text
    construct_all nil = []
    construct_all (cons s cs) = construct s ++ construct_rest cs

    pub construct_rest : Components Num Dnum → Text
    construct_rest nil = []
    construct_rest (cons s cs) = codes "," ++ (construct s ++ construct_rest cs)

  -- parseString of each class.
  unfoldable mutual
    pub parse : Symbol Num Dnum → Text → Parsed (Symbol Num Dnum)
    parse (bool b) t = returned (bool (parse_bool t))
    parse (num x) t = returned (num (fl.read_num t x))
    parse (dnum x) t = returned (dnum (fl.read_dnum t x))
    parse (string s) t = within string (parse_string s t)
    parse (struct n cs) t = parse_substrings n cs (extract_delimited_substrings t) (parse_all cs)

    pub parse_all : Components Num Dnum → List Text → Parsed (Components Num Dnum)
    parse_all nil ts = returned nil
    parse_all (cons s cs) [] = returned (cons s cs)
    parse_all (cons s cs) (t ∷ ts) = and_then (parse s t) cs (parse_all cs ts)

  -- The loop of RAPIDRecord::operator=, over components of which there are as many on both sides.
  unfoldable pub assign_all :
      Components Num Dnum → Components Num Dnum → Parsed (Components Num Dnum)
  assign_all nil others = returned nil
  assign_all (cons s cs) nil = returned (cons s cs)
  assign_all (cons s cs) (cons o others) =
      and_then (parse s (construct o)) cs (assign_all cs others)

  -- RAPIDRecord::operator=, between a record and another object.
  unfoldable pub assign :
      Text → Components Num Dnum → Text → Components Num Dnum → Parsed (Components Num Dnum)
  assign record_type_name components other_name others =
      if text_eq record_type_name other_name && size components == size others
      then assign_all components others
      else returned components
