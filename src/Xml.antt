-- ===== src/Xml.antt =====
-- The XML functions of src/rws_common.cpp, over a document as a tree. The parser that makes the tree, and
-- the node iterator, are Poco's: an iterator that shows elements gives them in document order, the
-- parent before its children.
pub mod Search
use abb_librws.Base.{
  ℕ, Bool, true, false, not, ◌&&◌, ◌||◌, Text, is_empty, text_eq, if◌then◌else◌, List, [], ◌∷◌,
  ◌++◌, Option, none, some,
}

-- XMLAttribute
pub record XmlAttribute : Type 0 where
  pub name : Text
  pub value : Text

-- Poco's nodes, of which the sources ask for the type, the attributes, the value and the children.
-- `other` is a comment or another node with none of these.
mutual
  pub data Node : Type 0 where
    element : List XmlAttribute → Nodes → Node
    text : Text → Node
    other : Node

  pub data Nodes : Type 0 where
    nil : Nodes
    cons : Node → Nodes → Nodes

abbrev pub attributes : Node → List XmlAttribute
attributes (element as' children) = as'
attributes _ = []

-- The loop of xmlNodeHasAttribute.
unfoldable pub has_pair : List XmlAttribute → XmlAttribute → Bool
has_pair [] attribute = false
has_pair (a ∷ as') attribute =
    (text_eq a.name attribute.name && text_eq a.value attribute.value) || has_pair as' attribute

-- xmlNodeHasAttribute, for a node that is not null
unfoldable pub node_has_attribute : Node → XmlAttribute → Bool
node_has_attribute node attribute =
    (is_empty attribute.name && is_empty attribute.value) || has_pair (attributes node) attribute

-- The loop of xmlNodeGetAttributeValue.
unfoldable pub first_value : List XmlAttribute → Text → Text
first_value [] name = []
first_value (a ∷ as') name = if text_eq a.name name then a.value else first_value as' name

-- xmlNodeGetAttributeValue, for a node that is not null
unfoldable pub node_get_attribute_value : Node → Text → Text
node_get_attribute_value node name =
    if is_empty name then [] else first_value (attributes node) name

-- The elements that a node iterator shows from a node on.
unfoldable mutual
  pub elements : Node → List Node
  elements (element as' children) = element as' children ∷ elements_of children
  elements (text t) = []
  elements other = []

  pub elements_of : Nodes → List Node
  elements_of nil = []
  elements_of (cons n ns) = elements n ++ elements_of ns

-- The loop of xmlFindNodes, over what the iterator shows.
unfoldable pub keep_nodes : XmlAttribute → List Node → List Node
keep_nodes attribute [] = []
keep_nodes attribute (n ∷ ns) =
    if node_has_attribute n attribute then n ∷ keep_nodes attribute ns else keep_nodes attribute ns

-- xmlFindNodes: nothing is found in no document.
unfoldable pub find_nodes : Option Node → XmlAttribute → List Node
find_nodes none attribute = []
find_nodes (some root) attribute = keep_nodes attribute (elements root)

abbrev pub is_text : Node → Bool
is_text (text t) = true
is_text _ = false

-- xmlFindTextContent of a node. A text node asks whether its parent has the attribute: the answer is an
-- argument.
unfoldable mutual
  pub find_text : Bool → XmlAttribute → Node → Text
  find_text parent_matches attribute (text t) = if parent_matches then t else []
  find_text parent_matches attribute other = []
  find_text parent_matches attribute (element as' children) =
      find_text_of (node_has_attribute (element as' nil) attribute) attribute children

  -- The loop over the children: a text child of a matching node ends it, and so does a child in which
  -- a text that is not empty is found.
  pub find_text_of : Bool → XmlAttribute → Nodes → Text
  find_text_of matches attribute nil = []
  find_text_of matches attribute (cons n ns) =
      let found = find_text matches attribute n in
      let rest = find_text_of matches attribute ns in
      if (is_text n && matches) || not (is_empty found) then found else rest

-- xmlFindTextContent of an element that find_nodes returned
unfoldable pub node_text_content : Node → XmlAttribute → Text
node_text_content node attribute = find_text false attribute node

-- xmlFindTextContent of a document, given by its first element
unfoldable pub find_text_content : Option Node → XmlAttribute → Text
find_text_content none attribute = []
find_text_content (some root) attribute = find_text false attribute root

-- xmlFindNodes from a node on: nothing is found from a null pointer.
unfoldable pub find_nodes_from : Option Node → XmlAttribute → List Node
find_nodes_from none attribute = []
find_nodes_from (some root) attribute = keep_nodes attribute (elements root)

-- xmlNodeHasAttribute, with the name and the value apart
unfoldable pub node_has_pair : Node → Text → Text → Bool
node_has_pair node name value = node_has_attribute node (record { name = name; value = value })
