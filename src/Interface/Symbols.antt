-- ===== src/Interface/Symbols.antt =====
-- Reading and writing RAPID symbols with RWSInterface: what a controller holds after the requests that it was
-- sent, and a store of values that says what a client sees.
pub mod Store
pub mod Refinement
use abb_librws.Base.{
  ℕ, zero, suc, ◌<◌, ◌≡◌, ◌≢◌, Bool, true, false, Text, codes, text_eq, ◌&&◌, List, [], ◌∷◌, ◌++◌,
  Option, some, if◌then◌else◌,
}
use abb_librws.Xml.{Node, XmlAttribute, find_text_content}
use abb_librws.Rapid.Atoms.{Floats}
use abb_librws.Rapid.Symbols.{Symbol, construct, get_type}
use abb_librws.Rapid.Symbols.Texts.{IsClean, depth}
use abb_librws.Rapid.Symbols.RoundTrip.{SameShape, IsExact}
use abb_librws.Rapid.Delimited.{uint_range}
use abb_librws.Poco.Types.{HttpRequest, HttpResponse, Outcome, done, http_ok}
use abb_librws.Poco.Work.{Event, sent, History, Net}
use abb_librws.Poco.Http.{http_get, http_post}
use abb_librws.Poco.Http.Prompt.{HasCookies}
use abb_librws.Client.Types.{RapidResource}
use abb_librws.Client.Constants.{class_value, class_dattyp, action_set}
use abb_librws.Client.Commands.{http_no_content}
use abb_librws.Client.Paths.{rapid_data_path, rapid_properties_path}

-- The path to which a new value of the symbol with this path is sent
abbrev pub set_path : Text → Text
set_path path = path ++ codes "?" ++ action_set

-- What stands after `value=`
abbrev pub sent_value : Text → Text
sent_value (_ ∷ _ ∷ _ ∷ _ ∷ _ ∷ _ ∷ value) = value
sent_value _ = []

-- The text of the symbol with this path: the value sent last, or else the one that it had.
unfoldable pub value_at : (Text → Text) → Text → History → Text
value_at base path [] = base path
value_at base path (sent request content ∷ history) =
    if text_eq request.method http_post && text_eq request.uri (set_path path)
    then sent_value content
    else value_at base path history
value_at base path (_ ∷ history) = value_at base path history

-- An answer at once, with the status 200 and a document that has this text
abbrev pub AnswersWith : (Text → Option Node) → XmlAttribute → Text → Outcome HttpResponse → Type 0
AnswersWith parse_xml attribute value outcome =
    (response : HttpResponse) × (document : Node) × (outcome ≡ done response)
    × (response.status ≡ http_ok)
    × (response.content ≢ [])
    × (parse_xml response.content ≡ some document)
    × (find_text_content (some document) attribute ≡ value)

-- An answer at once, with the status 204
abbrev pub AcceptsAtOnce : Outcome HttpResponse → Type 0
AcceptsAtOnce outcome =
    (response : HttpResponse) × (outcome ≡ done response) × (response.status ≡ http_no_content)

-- A controller as Robot Web Services documents it, to which nobody else writes: it takes the values that are
-- sent to the symbols, and answers with a symbol's value and with the type that it was declared with, with no
-- malformed cookies.
pub record KeepsSymbols (net : Net) (parse_xml : Text → Option Node) (base type_of : Text → Text)
    : Type 0 where
  pub takes_value :
      (history : History) (request : HttpRequest) (content : Text) (resource : RapidResource)
      → request.method ≡ http_post
      → request.uri ≡ set_path (rapid_data_path resource)
      → AcceptsAtOnce (net.respond history request content)
  pub tells_value :
      (history : History) (request : HttpRequest) (resource : RapidResource)
      → request.method ≡ http_get
      → request.uri ≡ rapid_data_path resource
      → AnswersWith parse_xml class_value
          (value_at base (rapid_data_path resource) history)
          (net.respond history request [])
  pub tells_type :
      (history : History) (request : HttpRequest) (resource : RapidResource)
      → request.method ≡ http_get
      → request.uri ≡ rapid_properties_path resource
      → AnswersWith parse_xml class_dattyp
          (type_of (rapid_data_path resource))
          (net.respond history request [])
  pub cookies_readable :
      (history : History) (request : HttpRequest) (content : Text) (response : HttpResponse)
      → net.respond history request content ≡ done response
      → HasCookies net response
