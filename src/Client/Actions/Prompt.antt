-- ===== src/Client/Actions/Prompt.antt =====
-- The methods of the client whose one request is answered at once.
use abb_librws.Base.{
  ◌≡◌, ◌≢◌, refl, Text, [], ◌∷◌, Option, some, none, true, false, is_empty, arith,
}
use abb_librws.Xml.{Node}
use abb_librws.Poco.Types.{HttpResponse, done, http_ok}
use abb_librws.Poco.Work.{Net, CookieStore}
use abb_librws.Poco.Http.{http_get, http_post, new_request, get, post}
use abb_librws.Poco.Http.Prompt.{HasCookies, answered, after_request, make_http_request_prompt}
use abb_librws.Client.Types.{RwsResult, RwsClient}
use abb_librws.Client.Evaluation.{
  evaluate, verdict, check_accepted_outcomes, any_accepted, parse_message, message_of, push_log,
}
use abb_librws.Client.Requests.{get_document, document_wanted}
use abb_librws.Client.Commands.{accepts, http_no_content, post_and_accept}

-- A success with this document, or with none
abbrev pub success_with : Option Node → RwsResult
success_with document = record { success = true; document = document; error_message = [] }

pub is_empty-ne : (t : Text) → t ≢ [] → is_empty t ≡ false
is_empty-ne [] h = absurd (h refl)
is_empty-ne (c ∷ t) h = refl

module _ {Jar : Type 0} (net : Net) (store : CookieStore Jar) (parse_xml : Text → Option Node) where
  -- The client after such a method
  abbrev pub after_exchange : Text → Text → Text → HttpResponse → RwsClient Jar → RwsClient Jar
  after_exchange method uri content response c = record {
    poco = after_request net store method uri content response c.poco;
    log = push_log (answered method uri content response) c.log;
    subscription_group_id = c.subscription_group_id;
  }

  verdict_of_document :
      (method uri content : Text) (response : HttpResponse) (document : Node)
      → response.status ≡ http_ok
      → response.content ≢ []
      → parse_xml response.content ≡ some document
      → verdict parse_xml (answered method uri content response) document_wanted
        ≡ success_with (some document)
  unfolding verdict check_accepted_outcomes any_accepted parse_message message_of
  verdict_of_document method uri content response document good full parsed =
      let filled = is_empty-ne response.content full in ground arith

  verdict_of_status :
      (method uri content : Text) (response : HttpResponse)
      → response.status ≡ http_no_content
      → verdict parse_xml (answered method uri content response) (accepts (http_no_content ∷ []))
        ≡ success_with none
  unfolding verdict check_accepted_outcomes any_accepted
  verdict_of_status method uri content response good = ground arith

  pub get_document_prompt :
      (uri : Text) (c : RwsClient Jar) (response : HttpResponse) (document : Node)
      → net.respond c.poco.history (new_request net store http_get uri [] c.poco.cookies) []
        ≡ done response
      → HasCookies net response
      → response.status ≡ http_ok
      → response.content ≢ []
      → parse_xml response.content ≡ some document
      → get_document net store parse_xml uri c
        ≡ (done (success_with (some document)), after_exchange http_get uri [] response c)
  unfolding get_document get evaluate
  get_document_prompt uri c response document answer readable good full parsed =
      rw
        (
          make_http_request_prompt net store http_get uri [] c.poco response answer readable
              (ground arith) (ground arith),
          verdict_of_document http_get uri [] response document good full parsed,
        )
        refl

  pub post_and_accept_prompt :
      (uri content : Text) (c : RwsClient Jar) (response : HttpResponse)
      → net.respond c.poco.history
          (new_request net store http_post uri content c.poco.cookies)
          content
        ≡ done response
      → HasCookies net response
      → response.status ≡ http_no_content
      → post_and_accept net store parse_xml uri content (http_no_content ∷ []) c
        ≡ (done (success_with none), after_exchange http_post uri content response c)
  unfolding post_and_accept post evaluate
  post_and_accept_prompt uri content c response answer readable good =
      rw
        (
          make_http_request_prompt net store http_post uri content c.poco response answer readable
              (ground arith) (ground arith),
          verdict_of_status http_post uri content response good,
        )
        refl
