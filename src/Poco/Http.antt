-- ===== src/Poco/Http.antt =====
-- POCOClient::makeHTTPRequest of src/rws_poco_client.cpp, with the methods that it is made of.
pub mod Limits
pub mod Answers
pub mod Prompt
use abb_librws.Base.{
  ℕ, ◌≤◌, Bool, true, false, ◌||◌, not, Text, codes, is_empty, text_eq, length, leb, ◌==◌,
  if◌then◌else◌, List, [], ◌∷◌, Option, none, some, ◌≡◌, refl,
}
use abb_librws.Poco.Types.{
  GeneralStatus, unknown, ok, exception_poco_invalid_argument, exception_poco_timeout,
  exception_poco_net, exception_poco_websocket, PocoResult, no_result, HttpRequest, HttpResponse,
  Cookie, ExceptionKind, invalid_argument, timeout, websocket_exception, net_exception,
  other_exception, Exception, Outcome, done, raised, add_http_request_info, add_http_response_info,
  http_ok,
}
use abb_librws.Poco.Work.{
  reset_session, Event, sent, session_reset, Net, CookieStore, Client, Work, M, and_run, ◌>>=◌,
  ◌>>◌, pure, modify, note, call, when,
}
use abb_librws.Poco.Cookies.{extract_cookie}

abbrev pub http_get : Text
http_get = codes "GET"

abbrev pub http_post : Text
http_post = codes "POST"

abbrev pub http_put : Text
http_put = codes "PUT"

abbrev pub http_delete : Text
http_delete = codes "DELETE"

abbrev pub http_unauthorized : ℕ
http_unauthorized = 401

abbrev pub http_internal_server_error : ℕ
http_internal_server_error = 500

-- A new HTTPResponse
abbrev pub no_response : HttpResponse
no_response = record { status = http_ok; headers = []; content = [] }

-- The catch clauses of makeHTTPRequest, in their order; `none` is an exception that passes through.
unfoldable pub caught_by_http : ExceptionKind → Option GeneralStatus
caught_by_http invalid_argument = some exception_poco_invalid_argument
caught_by_http timeout = some exception_poco_timeout
caught_by_http websocket_exception = some exception_poco_net
caught_by_http net_exception = some exception_poco_net
caught_by_http other_exception = none

abbrev pub set_status : GeneralStatus → PocoResult → PocoResult
set_status s r = record r { status = s }

module _ {Jar : Type 0} (net : Net) (store : CookieStore Jar) where
  -- sendAndReceive
  unfoldable pub send_and_receive : Text → M Jar (Unit {0})
  unfolding add_http_request_info add_http_response_info
  send_and_receive request_content = do
    modify (λ w. record w { result = add_http_request_info w.result w.request request_content })
    response ←
        call (λ w. net.respond w.history w.request request_content)
          (λ w. sent w.request request_content)
    modify (λ w. record w {
      response = response;
      result = add_http_response_info w.result response response.content;
    })

  -- The loop over the cookies that the server has sent an update for.
  unfoldable pub update_cookies : List Cookie → Jar → Jar
  update_cookies [] jar = jar
  update_cookies (c ∷ cs) jar =
      update_cookies cs (
        if store.has jar c.name then store.set jar c.name c.value else store.add jar c.name c.value)

  -- extractAndStoreCookie
  unfoldable pub extract_and_store_cookie : Text → Jar → Jar
  extract_and_store_cookie cookie_string jar = elim (extract_cookie cookie_string) [
    | none ↦ jar
    | some (name, value) ↦ store.add jar name value
  ]

  -- The loop of authenticate.
  unfoldable pub store_cookies : List Cookie → Jar → Jar
  store_cookies [] jar = jar
  store_cookies (c ∷ cs) jar = store_cookies cs (extract_and_store_cookie (net.cookie_text c) jar)

  abbrev pub on_cookies : (Jar → Jar) → Work Jar → Work Jar
  on_cookies f w = record w { client = record (w.client) { cookies = f w.cookies } }

  unfoldable pub clear_cookies : M Jar (Unit {0})
  clear_cookies = modify (on_cookies (λ _. store.empty))

  unfoldable pub add_credentials : M Jar (Unit {0})
  add_credentials = do
    request ← λ w. (net.authenticate w.request w.response, w)
    modify (λ w. record w { request = request })

  -- `response.getCookies(temp_cookies)`, which throws at a malformed header
  abbrev pub received_cookies : M Jar (List Cookie)
  received_cookies w = (net.get_cookies w.response, w)

  unfoldable pub keep_received_cookies : M Jar (Unit {0})
  keep_received_cookies = do cookies ← received_cookies; modify (on_cookies (store_cookies cookies))

  -- authenticate
  unfoldable pub authenticate : Text → M Jar (Unit {0})
  authenticate request_content = do
    clear_cookies
    add_credentials
    send_and_receive request_content
    keep_received_cookies

  -- After a server error the request is sent once more, over a new session and without cookies.
  unfoldable pub retry_after_server_error : Text → M Jar (Unit {0})
  retry_after_server_error content w =
      when (leb http_internal_server_error w.response.status)
        (do
          modify (λ v. record v {
            client = reset_session v.client;
            request = record (v.request) { cookie = none };
          })
          send_and_receive content)
        w

  -- The credentials are added to a request that was unauthorized.
  unfoldable pub authenticate_if_unauthorized : Text → M Jar (Unit {0})
  authenticate_if_unauthorized content w =
      when (w.response.status == http_unauthorized) (authenticate content) w

  unfoldable pub keep_cookie_updates : M Jar (Unit {0})
  keep_cookie_updates = do cookies ← received_cookies; modify (on_cookies (update_cookies cookies))

  unfoldable pub mark_ok : M Jar (Unit {0})
  mark_ok = modify (λ w. record w { result = set_status ok w.result })

  -- The body of the try block of makeHTTPRequest.
  unfoldable pub attempt : Text → M Jar (Unit {0})
  attempt content = do
    send_and_receive content
    keep_cookie_updates
    retry_after_server_error content
    authenticate_if_unauthorized content
    mark_ok

  -- The request before it is sent.
  unfoldable pub new_request : Text → Text → Text → Jar → HttpRequest
  unfolding text_eq
  new_request method uri content jar = record {
    method = method;
    uri = uri;
    cookie = some (store.header jar);
    content_length = length content;
    content_type =
        if text_eq method http_post || not (is_empty content)
        then some (codes "application/x-www-form-urlencoded")
        else none;
    protocol = none;
    authorization = none;
  }

  -- The catch clauses, and the clean-up of a request that failed. An exception that passes through
  -- leaves the client as it stood.
  unfoldable pub conclude : Outcome (Unit {0}) × Work Jar → Outcome PocoResult × Client Jar
  conclude (done _, w) = (done w.result, w.client)
  conclude (raised e, w) = elim (caught_by_http e.kind) [
    | none ↦ (raised e, w.client)
    | some status ↦ (
      done (record (w.result) { status = status; exception_message = e.display_text }),
      reset_session (record (w.client) { cookies = store.empty }),
    )
  ]

  -- makeHTTPRequest
  unfoldable pub make_http_request :
      Text → Text → Text → Client Jar → Outcome PocoResult × Client Jar
  make_http_request method uri content c = conclude (
      attempt content (record {
        client = c;
        result = no_result;
        request = new_request method uri content c.cookies;
        response = no_response;
      }))

  -- httpGet, httpPost, httpPut, httpDelete
  unfoldable pub get : Text → Client Jar → Outcome PocoResult × Client Jar
  get uri = make_http_request http_get uri []

  unfoldable pub post : Text → Text → Client Jar → Outcome PocoResult × Client Jar
  post uri content = make_http_request http_post uri content

  unfoldable pub put : Text → Text → Client Jar → Outcome PocoResult × Client Jar
  put uri content = make_http_request http_put uri content

  unfoldable pub delete : Text → Client Jar → Outcome PocoResult × Client Jar
  delete uri = make_http_request http_delete uri []
