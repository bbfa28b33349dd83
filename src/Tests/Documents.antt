-- ===== src/Tests/Documents.antt =====
-- Documents.
use abb_librws.Base.{◌≡◌, refl, codes, text_eq, false, some, [], ◌∷◌}
use abb_librws.Xml.{
  XmlAttribute, Node, element, text, nil, cons, find_text_content, node_has_attribute, has_pair,
  find_text,
}
use abb_librws.Xml.Search.{first_text, texts_under, find_text_content-eq-first}
use abb_librws.Interface.Reports.{pair_options}
use abb_librws.Interface.Reports.Options.{get_elem?, pair_options_lem}

abbrev class_value : XmlAttribute
class_value = record { name = codes "class"; value = codes "value" }

abbrev document : Node
document = element [] (
    cons (text (codes "title"))
      (cons (element (class_value ∷ []) (cons (text (codes "1")) nil)) nil))

finds_value : find_text_content (some document) class_value ≡ codes "1"
unfolding find_text_content find_text node_has_attribute has_pair text_eq
finds_value = refl

find_text_content-eq-first_example :
    find_text_content (some document) class_value
    ≡ first_text (texts_under false class_value document)
find_text_content-eq-first_example =
    find_text_content-eq-first document class_value ((λ e. cc), (((λ e. cc), tt), tt))

pair_options_lem_example :
    get_elem? (pair_options (document ∷ text (codes "a") ∷ document ∷ [])) 0
    ≡ some (record {
      name = find_text_content (some document) class_value;
      description = find_text_content (some (text (codes "a"))) class_value;
    })
pair_options_lem_example = pair_options_lem (document ∷ text (codes "a") ∷ document ∷ []) 0
