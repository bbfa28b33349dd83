-- ===== src/Poco/Http/Answers.antt =====
-- What a call of makeHTTPRequest gives when it returns.
use abb_librws.Base.{
  ◌≡◌, refl, sym, subst, ap, List, subst₂, ◌⊎◌, inl, inr, Text, leb, ◌==◌, ◌∷◌, arith,
}
use abb_librws.Poco.Types.{
  GeneralStatus, ok, exception_poco_invalid_argument, exception_poco_timeout, exception_poco_net,
  PocoResult, Cookie, HttpRequest, HttpResponse, Outcome, done, raised, header_lines,
  add_http_request_info, add_http_response_info, ExceptionKind, invalid_argument, timeout,
  websocket_exception, net_exception, other_exception,
}
use abb_librws.Poco.Work.{sent, session_reset, History, Net, CookieStore, Client, Work}
use abb_librws.Poco.Work.Rules.{Triple, Triple-bind, Triple-modify, Triple-when}
use abb_librws.Poco.Http.{
  clear_cookies, add_credentials, received_cookies, keep_received_cookies, keep_cookie_updates,
  mark_ok, send_and_receive, authenticate, retry_after_server_error, authenticate_if_unauthorized,
  attempt, conclude, make_http_request, caught_by_http,
}

module _ (net : Net) (content : Text) where
  -- A result and a history whose last request is answered by what the result reports.
  pub record IsAnswer (r : PocoResult) (history : History) : Type 0 where
    pub earlier : History
    pub request : HttpRequest
    pub response : HttpResponse
    pub asked : history ≡ sent request content ∷ earlier
    pub answered : net.respond earlier request content ≡ done response
    pub status : r.response.status ≡ response.status
    pub header_info : r.response.header_info ≡ header_lines response.headers
    pub body : r.response.content ≡ response.content

module _ {Jar : Type 0} (net : Net) (store : CookieStore Jar) (content : Text) where
  abbrev Answers : Work Jar → Type 0
  Answers w = IsAnswer net content w.result w.history

  abbrev Any : Work Jar → Type 0
  Any w = Unit

  receive :
      (w : Work Jar) (o : Outcome HttpResponse)
      → net.respond w.history w.request content ≡ o
      → (a : Unit {0}) (v : Work Jar) → send_and_receive net store content w ≡ (done a, v)
      → Answers v
  unfolding send_and_receive add_http_response_info add_http_request_info
  receive w (done response) q a v e = record {
    earlier = w.history;
    request = w.request;
    response = response;
    asked = ground arith;
    answered = q;
    status = ground arith;
    header_info = ground arith;
    body = ground arith;
  }
  receive w (raised x) q a v e = absurd (ground arith)

  Triple-send_and_receive : Triple Any Answers (send_and_receive net store content)
  Triple-send_and_receive = record {
    at = λ w h. receive w (net.respond w.history w.request content) refl;
  }

  Triple-received_cookies : Triple Answers Answers (received_cookies {Jar = Jar} net store)
  Triple-received_cookies = record {
    at = λ w h a v e. subst Answers (ap (λ (p : Outcome (List Cookie) × Work Jar). p.1) e) h;
  }

  Triple-keep_cookie_updates : Triple Answers Answers (keep_cookie_updates net store)
  unfolding keep_cookie_updates
  Triple-keep_cookie_updates =
      Triple-bind _ _ Triple-received_cookies (λ cookies. Triple-modify _ (λ w h. h))

  Triple-clear_cookies : Triple Answers Any (clear_cookies net store)
  unfolding clear_cookies
  Triple-clear_cookies = Triple-modify _ (λ w h. tt)

  Triple-add_credentials : Triple Any Any (add_credentials net store)
  Triple-add_credentials = record { at = λ w h a v e. tt }

  Triple-keep_received_cookies : Triple Answers Answers (keep_received_cookies net store)
  unfolding keep_received_cookies
  Triple-keep_received_cookies =
      Triple-bind _ _ Triple-received_cookies (λ cookies. Triple-modify _ (λ w h. h))

  Triple-authenticate : Triple Answers Answers (authenticate net store content)
  unfolding authenticate
  Triple-authenticate = Triple-bind _ _ Triple-clear_cookies λ _.
      Triple-bind _ _ Triple-add_credentials
        λ _. Triple-bind _ _ Triple-send_and_receive λ _. Triple-keep_received_cookies

  Triple-authenticate_if : Triple Answers Answers (authenticate_if_unauthorized net store content)
  unfolding authenticate_if_unauthorized
  Triple-authenticate_if = record {
    at = λ w. (Triple-when (w.response.status == 401) _ Triple-authenticate).at w;
  }

  Triple-retry : Triple Answers Answers (retry_after_server_error net store content)
  unfolding retry_after_server_error
  Triple-retry = record {
    at = λ w.
        (Triple-when (leb 500 w.response.status) _ (
            Triple-bind {Q = Any} _ _ (Triple-modify _ (λ v h. tt))
              (λ _. Triple-send_and_receive))).at
          w;
  }

  abbrev Ended : Work Jar → Type 0
  Ended w = (w.result.status ≡ ok) × Answers w

  Triple-mark_ok : Triple Answers Ended (mark_ok net store)
  unfolding mark_ok
  Triple-mark_ok = Triple-modify _ λ w h. (
    refl,
    record {
      earlier = h.earlier;
      request = h.request;
      response = h.response;
      asked = h.asked;
      answered = h.answered;
      status = h.status;
      header_info = h.header_info;
      body = h.body;
    },
  )

  Triple-attempt : Triple Any Ended (attempt net store content)
  unfolding attempt
  Triple-attempt = Triple-bind _ _ Triple-send_and_receive λ _.
      Triple-bind _ _ Triple-keep_cookie_updates λ _.
        Triple-bind _ _ Triple-retry λ _. Triple-bind _ _ Triple-authenticate_if λ _. Triple-mark_ok

-- The status of a result whose request has thrown
abbrev pub IsFailure : GeneralStatus → Type 0
IsFailure s =
    (s ≡ exception_poco_invalid_argument) ⊎ (s ≡ exception_poco_timeout) ⊎ (s ≡ exception_poco_net)

-- What a call of makeHTTPRequest leaves, if it returns: an OK result that reports the answer to the last
-- request, or a failure, with no cookies left and the session reset.
abbrev pub IsSettled :
    {Jar : Type 0} → Net → CookieStore Jar → Text → PocoResult → Client Jar → Type 0
IsSettled net store content r c =
    ((r.status ≡ ok) × IsAnswer net content r c.history)
    ⊎ (IsFailure r.status
        × (c.cookies ≡ store.empty)
        × ((h : History) × (c.history ≡ session_reset ∷ h)))

module _ {Jar : Type 0} (net : Net) (store : CookieStore Jar) (content : Text) where
  conclude-IsFailure :
      (k : ExceptionKind) (text : Text) (w : Work Jar) (r : PocoResult) (c' : Client Jar)
      → conclude net store (raised (record { kind = k; display_text = text }), w) ≡ (done r, c')
      → IsFailure r.status
        × (c'.cookies ≡ store.empty)
        × ((h : History) × (c'.history ≡ session_reset ∷ h))
  unfolding conclude caught_by_http
  conclude-IsFailure invalid_argument text w r c' e =
      (inl (ground arith), ground arith, (w.history, ground arith))
  conclude-IsFailure timeout text w r c' e =
      (inr (inl (ground arith)), ground arith, (w.history, ground arith))
  conclude-IsFailure websocket_exception text w r c' e =
      (inr (inr (ground arith)), ground arith, (w.history, ground arith))
  conclude-IsFailure net_exception text w r c' e =
      (inr (inr (ground arith)), ground arith, (w.history, ground arith))
  conclude-IsFailure other_exception text w r c' e = absurd (ground arith)

  conclude_ok :
      (w : Work Jar) (r : PocoResult) (c' : Client Jar)
      → conclude net store (done tt, w) ≡ (done r, c')
      → (r ≡ w.result) × (c' ≡ w.client)
  unfolding conclude
  conclude_ok w r c' e = (cc, cc)

  settle :
      (p : Outcome (Unit {0}) × Work Jar) (r : PocoResult) (c' : Client Jar)
      → ((a : Unit {0}) (v : Work Jar) → p ≡ (done a, v) → Ended net store content v)
      → conclude net store p ≡ (done r, c')
      → IsSettled net store content r c'
  settle (done a, w) r c' h e =
      let (er, ec) = conclude_ok w r c' e in
      inl (
        subst₂ (λ q d. (q.status ≡ ok) × IsAnswer net content q d.history) (sym er) (sym ec)
          (h a w refl))
  settle (raised x, w) r c' h e = inr (conclude-IsFailure x.kind x.display_text w r c' e)

-- Every call of makeHTTPRequest that returns is settled so.
pub make_http_request_settles :
    {Jar : Type 0} (net : Net) (store : CookieStore Jar) (method uri content : Text)
    (c c' : Client Jar) (r : PocoResult)
    → make_http_request net store method uri content c ≡ (done r, c')
    → IsSettled net store content r c'
unfolding make_http_request
make_http_request_settles net store method uri content c c' r e =
    settle net store content _ r c' (λ a v. (Triple-attempt net store content).at _ tt a v) e
