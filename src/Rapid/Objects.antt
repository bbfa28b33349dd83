-- ===== src/Rapid/Objects.antt =====
-- RAPIDRecord objects in memory, for the classes whose members are all atomic (RobJoint, Pos, SpeedData and
-- the like): an object holds its fields, and in `components_` pointers that need not point to them.
use abb_librws.Base.{
  ℕ, zero, suc, ◌+◌, ◌-◌, ◌==◌, ◌++◌, Bool, Text, codes, length, List, [], ◌∷◌, Option, some, none,
  if◌then◌else◌,
}
use mathlib.Core.Option.{map}
use abb_librws.Rapid.Atoms.{Floats, Parsed, returned, threw}
use abb_librws.Rapid.Delimited.{extract_delimited_substrings}
use abb_librws.Rapid.Symbols.{Symbol, construct, parse}
pub mod Owning
pub mod Copies

-- RAPIDSymbolDataAbstract*: the address of a field of an object
pub record Pointer : Type 0 where
  pub object : ℕ
  pub field : ℕ

pub record Object (Num Dnum : Type 0) : Type 0 where
  pub record_type_name : Text
  pub fields : List (Symbol Num Dnum)
  pub components : List Pointer

abbrev pub Memory : Type 0 → Type 0 → Type 0
Memory Num Dnum = ℕ → Object Num Dnum

abbrev pub get_elem? {ℓ} : {A : Type ℓ} → List A → ℕ → Option A
get_elem? [] i = none
get_elem? (x ∷ xs) zero = some x
get_elem? (x ∷ xs) (suc i) = get_elem? xs i

abbrev pub set_elem {ℓ} : {A : Type ℓ} → List A → ℕ → A → List A
set_elem [] i y = []
set_elem (x ∷ xs) zero y = y ∷ xs
set_elem (x ∷ xs) (suc i) y = x ∷ set_elem xs i y

-- The pointers to so many fields of an object, from the i-th on
abbrev pub pointers : ℕ → ℕ → ℕ → List Pointer
pointers id i zero = []
pointers id i (suc n) = record { object = id; field = i } ∷ pointers id (suc i) n

module _ {Num Dnum : Type 0} where
  -- An object takes the place of what is at the address.
  unfoldable pub place : ℕ → Object Num Dnum → Memory Num Dnum → Memory Num Dnum
  place id o memory a = if a == id then o else memory a

  -- A default constructor: the fields, and a push_back of the address of each
  unfoldable pub default_object : ℕ → Text → List (Symbol Num Dnum) → Object Num Dnum
  default_object id record_type_name fields = record {
    record_type_name = record_type_name;
    fields = fields;
    components = pointers id 0 (length fields);
  }

  -- The copy constructor of a class that declares none: every member is copied, the pointers as they are.
  unfoldable pub copy_object : Object Num Dnum → Object Num Dnum
  copy_object other = other

  -- `*p = value`, for a field of an object
  unfoldable pub write : Pointer → Symbol Num Dnum → Memory Num Dnum → Memory Num Dnum
  write p value memory =
      place p.object
        (record (memory p.object) { fields = set_elem (memory p.object).fields p.field value })
        memory

module _ {Num Dnum : Type 0} (fl : Floats Num Dnum) where
  -- A component's text, a separator, and the rest; `none` where the pointer points to nothing.
  abbrev pub component_text : Option (Symbol Num Dnum) → Text → Option Text → Option Text
  component_text none separator rest = none
  component_text (some s) separator none = none
  component_text (some s) separator (some rest) = some (construct fl s ++ (separator ++ rest))

  -- The loop of RAPIDRecord::constructString, over so many components, from the i-th on
  unfoldable pub components_text : Memory Num Dnum → ℕ → ℕ → List Pointer → Option Text
  components_text memory size i [] = some []
  components_text memory size i (p ∷ ps) =
      component_text (get_elem? (memory p.object).fields p.field)
        (if i == size - 1 then [] else codes ",") (components_text memory size (suc i) ps)

  -- RAPIDRecord::constructString, which reads through the pointers
  unfoldable pub object_text : Memory Num Dnum → ℕ → Option Text
  object_text memory id =
      map (λ t. codes "[" ++ (t ++ codes "]"))
        (components_text memory (length (memory id).components) 0 (memory id).components)

  -- What a component was parsed to is where the pointer points to, before the next one is parsed; an exception
  -- ends the loop.
  abbrev pub parsed_component :
      Pointer
      → Parsed (Symbol Num Dnum)
      → Memory Num Dnum
      → (Memory Num Dnum → Option (Parsed (Memory Num Dnum)))
      → Option (Parsed (Memory Num Dnum))
  parsed_component p (returned s) memory next = next (write p s memory)
  parsed_component p (threw s) memory next = some (threw (write p s memory))

  abbrev pub parse_component :
      Pointer
      → Option (Symbol Num Dnum)
      → Text
      → Memory Num Dnum
      → (Memory Num Dnum → Option (Parsed (Memory Num Dnum)))
      → Option (Parsed (Memory Num Dnum))
  parse_component p none t memory next = none
  parse_component p (some s) t memory next = parsed_component p (parse fl s t) memory next

  -- The loop of RAPIDRecord::parseString, over components and substrings of which there are as many; each
  -- component is read through its pointer when its turn has come, after the writes before it.
  unfoldable pub parse_components :
      List Pointer → List Text → Memory Num Dnum → Option (Parsed (Memory Num Dnum))
  parse_components [] ts memory = some (returned memory)
  parse_components (p ∷ ps) [] memory = some (returned memory)
  parse_components (p ∷ ps) (t ∷ ts) memory =
      parse_component p (get_elem? (memory p.object).fields p.field) t memory
        (parse_components ps ts)

  -- RAPIDRecord::parseString, which writes through the pointers, after the substrings were extracted
  abbrev pub parse_into_components :
      List Pointer → Memory Num Dnum → Option (List Text) → Option (Parsed (Memory Num Dnum))
  parse_into_components ps memory none = some (threw memory)
  parse_into_components ps memory (some substrings) =
      if length ps == length substrings
      then parse_components ps substrings memory
      else some (returned memory)

  unfoldable pub object_parse : Memory Num Dnum → ℕ → Text → Option (Parsed (Memory Num Dnum))
  object_parse memory id t =
      parse_into_components (memory id).components memory (extract_delimited_substrings t)
