-- ===== src/Poco/Http/Prompt.antt =====
-- A request that the server answers at once, with neither a server error nor a demand for credentials.
use abb_librws.Base.{◌≡◌, refl, false, Text, List, [], ◌∷◌, leb, ◌==◌}
use abb_librws.Poco.Types.{
  PocoResult, ok, HttpResponse, Cookie, Outcome, done, raised, header_lines,
}
use abb_librws.Poco.Work.{Net, CookieStore, Client, sent}
use abb_librws.Poco.Http.{
  http_unauthorized, http_internal_server_error, send_and_receive, keep_cookie_updates,
  update_cookies, retry_after_server_error, authenticate_if_unauthorized, mark_ok, attempt,
  new_request, conclude, make_http_request,
}

-- The result of a request with this answer
abbrev pub answered : Text → Text → Text → HttpResponse → PocoResult
answered method uri content response = record {
  status = ok;
  exception_message = [];
  request = record { method = method; uri = uri; content = content };
  response = record {
    status = response.status;
    header_info = header_lines response.headers;
    content = response.content;
  };
  websocket = record { flags = 0; frame_content = [] };
}

-- The cookies of the answer can be read.
abbrev pub HasCookies : Net → HttpResponse → Type 0
HasCookies net response = (cookies : List Cookie) × (net.get_cookies response ≡ done cookies)

abbrev cookies_of : Outcome (List Cookie) → List Cookie
cookies_of (done cookies) = cookies
cookies_of (raised e) = []

module _ {Jar : Type 0} (net : Net) (store : CookieStore Jar) where
  -- The client after such a request
  abbrev pub after_request : Text → Text → Text → HttpResponse → Client Jar → Client Jar
  after_request method uri content response c = record {
    cookies = update_cookies net store (cookies_of (net.get_cookies response)) c.cookies;
    websocket = c.websocket;
    history = sent (new_request net store method uri content c.cookies) content ∷ c.history;
  }

  -- It is sent once, and its answer is the result.
  pub make_http_request_prompt :
      (method uri content : Text) (c : Client Jar) (response : HttpResponse)
      → net.respond c.history (new_request net store method uri content c.cookies) content
        ≡ done response
      → HasCookies net response
      → leb http_internal_server_error response.status ≡ false
      → (response.status == http_unauthorized) ≡ false
      → make_http_request net store method uri content c
        ≡ (done (answered method uri content response), after_request method uri content response c)
  unfolding make_http_request attempt conclude send_and_receive keep_cookie_updates
      retry_after_server_error authenticate_if_unauthorized mark_ok new_request
  make_http_request_prompt method uri content c response answer (cookies, readable) no_error
        no_demand =
      rw (answer, readable, no_error, no_demand) refl
