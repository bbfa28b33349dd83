-- ===== src/Interface/Configuration.antt =====
-- The methods getCFG... of src/rws_interface.cpp: each asks for the instances of a type, and reads every
-- instance by a chain of tests on the titles of its attributes. Here is what they share.
pub mod Motion
pub mod System
pub mod Read
use abb_librws.Base.{Text, codes, is_empty, Bool, List, [], ◌∷◌, if◌then◌else◌, Option, none, some}
use mathlib.Core.Option.{map}
use abb_librws.Xml.{Node, find_nodes, node_has_attribute, find_text_content}
use abb_librws.Poco.Work.{Net, CookieStore}
use abb_librws.Client.Types.{RwsResult, R, ◌>>=◌, pure, throw}
use abb_librws.Client.Constants.{class_attribute, class_value}
use abb_librws.Client.Requests

abbrev pub exception_get_cfg : Text
exception_get_cfg = codes "Failed to get configuration instances"

abbrev pub exception_parse_cfg : Text
exception_parse_cfg = codes "Failed to parse configuration instances"

-- `xmlNodeHasAttribute(attribute, Identifiers::TITLE, …)`
abbrev pub is_titled : Text → Node → Bool
is_titled title attribute =
    node_has_attribute attribute (record { name = codes "title"; value = title })

-- `xmlFindTextContent(attribute, XMLAttributes::CLASS_VALUE)`
abbrev pub value_of : Node → Text
value_of attribute = find_text_content (some attribute) class_value

-- A branch of a chain of tests: the title, and what is made of the value; `none` is the exception.
abbrev pub Branch : Type 0 → Type 0
Branch A = Text × (Text → A → Option A)

-- A text that must not be empty, a text that may be, and a number whose input must not fail
abbrev pub required : {A : Type 0} → (Text → A → A) → Text → A → Option A
required set value a = if is_empty value then none else some (set value a)

abbrev pub allowed : {A : Type 0} → (Text → A → A) → Text → A → Option A
allowed set value a = some (set value a)

abbrev pub input : {A N : Type 0} → (Text → Option N) → (N → A → A) → Text → A → Option A
input read set value a = map (λ n. set n a) (read value)

module _ {A : Type 0} where
  -- The chain of tests on an attribute
  unfoldable pub take_branch : List (Branch A) → Node → A → Option A
  take_branch [] attribute a = some a
  take_branch ((title, set) ∷ rest) attribute a =
      let otherwise = take_branch rest attribute a in
      if is_titled title attribute then set (value_of attribute) a else otherwise

  abbrev pub and_then : Option A → (A → Option A) → Option A
  and_then none f = none
  and_then (some a) f = f a

  -- The loop over the attributes of an instance
  unfoldable pub read_attributes : List (Branch A) → List Node → A → Option A
  read_attributes branches [] a = some a
  read_attributes branches (attribute ∷ rest) a =
      and_then (take_branch branches attribute a) (read_attributes branches rest)

  abbrev pub push : Option A → Option (List A) → Option (List A)
  push none rest = none
  push (some a) rest = map (λ as'. a ∷ as') rest

  -- The loop over the instances
  unfoldable pub read_instances : (Node → Option A) → List Node → Option (List A)
  read_instances read [] = some []
  read_instances read (instance' ∷ rest) = push (read instance') (read_instances read rest)

-- An instance of which nothing but the attributes is read
unfoldable pub read_instance : {A : Type 0} → List (Branch A) → A → Node → Option A
read_instance branches a instance' =
    read_attributes branches (find_nodes (some instance') (class_attribute (codes "cfg-ia-t-li"))) a

abbrev pub or_throw : {Jar A : Type 0} → Option A → R Jar A
or_throw none = throw exception_parse_cfg
or_throw (some a) = pure a

-- What each of the methods does, for a domain and a type of it
unfoldable pub get_instances :
    {Jar A : Type 0}
    → Net
    → CookieStore Jar
    → (Text → Option Node)
    → Text
    → Text
    → (Node → Option A)
    → R Jar (List A)
get_instances net store parse_xml topic type read = do
  rws_result ← Requests.get_configuration_instances net store parse_xml topic type
  if rws_result.success
      then or_throw (
          read_instances read
            (find_nodes rws_result.document (class_attribute (codes "cfg-dt-instance-li"))))
      else throw exception_get_cfg
