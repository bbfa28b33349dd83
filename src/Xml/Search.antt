-- ===== src/Xml/Search.antt =====
-- What the searches of a document find.
use abb_librws.Base.{
  ◌≡◌, ◌≢◌, refl, sym, ap₂, ◌∙◌, Bool, true, false, not, ◌&&◌, ◌||◌, Text, is_empty, if◌then◌else◌,
  List, [], ◌∷◌, ◌++◌, some, All, All-append,
}
use abb_librws.Xml.{
  XmlAttribute, Node, element, text, other, Nodes, nil, cons, node_has_attribute, is_text,
  find_text, find_text_of, find_text_content,
}

-- The values of the text nodes below a node whose parent has the attribute, in document order.
mutual
  pub texts_under : Bool → XmlAttribute → Node → List Text
  texts_under parent_matches attribute (text t) = if parent_matches then t ∷ [] else []
  texts_under parent_matches attribute other = []
  texts_under parent_matches attribute (element as' children) =
      texts_under_of (node_has_attribute (element as' nil) attribute) attribute children

  pub texts_under_of : Bool → XmlAttribute → Nodes → List Text
  texts_under_of matches attribute nil = []
  texts_under_of matches attribute (cons n ns) =
      texts_under matches attribute n ++ texts_under_of matches attribute ns

-- The first text, or the empty one.
abbrev pub first_text : List Text → Text
first_text [] = []
first_text (t ∷ ts) = t

-- No text node is empty.
abbrev mutual
  pub IsFilled : Node → Type 0
  IsFilled (text t) = t ≢ []
  IsFilled other = Unit
  IsFilled (element as' children) = AllFilled children

  pub AllFilled : Nodes → Type 0
  AllFilled nil = Unit
  AllFilled (cons n ns) = IsFilled n × AllFilled ns

first_text-append :
    (ts us : List Text)
    → All (λ t. t ≢ []) ts
    → first_text (ts ++ us) ≡ (if is_empty (first_text ts) then first_text us else first_text ts)
first_text-append [] us h = refl
first_text-append ([] ∷ ts) us h = absurd (h.0 refl)
first_text-append ((c ∷ t) ∷ ts) us h = refl

mutual
  unfolding find_text texts_under

  filled :
      (b : Bool) (a : XmlAttribute) (n : Node) → IsFilled n → All (λ t. t ≢ []) (texts_under b a n)
  filled true a (text t) h = (h, tt)
  filled false a (text t) h = tt
  filled b a other h = tt
  filled b a (element as' children) h = filled_of _ a children h

  filled_of :
      (b : Bool) (a : XmlAttribute) (ns : Nodes)
      → AllFilled ns
      → All (λ t. t ≢ []) (texts_under_of b a ns)
  filled_of b a nil h = tt
  filled_of b a (cons n ns) h =
      All-append _ (texts_under b a n) (texts_under_of b a ns) (filled b a n h.0)
        (filled_of b a ns h.1)

-- Where the loop stops at a text child, that text is not empty.
stops_filled :
    (b : Bool) (a : XmlAttribute) (n : Node)
    → IsFilled n
    → (is_text n && b) ≡ true
    → is_empty (find_text b a n) ≡ false
unfolding find_text
stops_filled true a (text []) h e = absurd (h refl)
stops_filled true a (text (c ∷ t)) h e = refl
stops_filled false a (text t) h e = cc
stops_filled b a other h e = cc
stops_filled b a (element as' children) h e = cc

choose :
    (stop : Bool) (found rest : Text)
    → (stop ≡ true → is_empty found ≡ false)
    → (if stop || not (is_empty found) then found else rest)
      ≡ (if is_empty found then rest else found)
choose true [] rest h = cc (h refl)
choose true (c ∷ t) rest h = refl
choose false [] rest h = refl
choose false (c ∷ t) rest h = refl

mutual
  unfolding find_text texts_under

  find_text_lem :
      (b : Bool) (a : XmlAttribute) (n : Node)
      → IsFilled n
      → find_text b a n ≡ first_text (texts_under b a n)
  find_text_lem true a (text t) h = refl
  find_text_lem false a (text t) h = refl
  find_text_lem b a other h = refl
  find_text_lem b a (element as' children) h = find_text_of_lem _ a children h

  find_text_of_lem :
      (b : Bool) (a : XmlAttribute) (ns : Nodes)
      → AllFilled ns
      → find_text_of b a ns ≡ first_text (texts_under_of b a ns)
  find_text_of_lem b a nil h = refl
  find_text_of_lem b a (cons n ns) h =
      choose (is_text n && b) (find_text b a n) (find_text_of b a ns) (stops_filled b a n h.0)
      ∙ ap₂ (λ x y. if is_empty x then y else x) (find_text_lem b a n h.0)
          (find_text_of_lem b a ns h.1)
      ∙ sym (first_text-append (texts_under b a n) (texts_under_of b a ns) (filled b a n h.0))

-- In a document with no empty text, the search gives the first text whose parent has the attribute,
-- in document order, and the empty text if there is none.
pub find_text_content-eq-first :
    (root : Node) (attribute : XmlAttribute)
    → IsFilled root
    → find_text_content (some root) attribute ≡ first_text (texts_under false attribute root)
unfolding find_text_content
find_text_content-eq-first root attribute h = find_text_lem false attribute root h
