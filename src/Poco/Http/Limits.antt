-- ===== src/Poco/Http/Limits.antt =====
-- How often makeHTTPRequest asks the server, and what it leaves after a failure.
use abb_librws.Base.{◌+◌, ◌≤◌, ◌≡◌, Text, arith}
use abb_librws.Poco.Types.{Outcome}
use abb_librws.Poco.Work.{Net, CookieStore, Client, Work}
use abb_librws.Poco.Work.Rules.{sent_count, Sends, Sends-bind}
use abb_librws.Poco.Http.{
  clear_cookies, add_credentials, keep_received_cookies, keep_cookie_updates, mark_ok,
  send_and_receive, authenticate, retry_after_server_error, authenticate_if_unauthorized, attempt,
  conclude, make_http_request, caught_by_http,
}

module _ {Jar : Type 0} (net : Net) (store : CookieStore Jar) (content : Text) where
  Sends-send_and_receive : Sends 1 (send_and_receive net store content)
  unfolding send_and_receive
  Sends-send_and_receive = record { at = λ w. ground arith }

  Sends-clear_cookies : Sends 0 (clear_cookies net store)
  unfolding clear_cookies
  Sends-clear_cookies = record { at = λ w. omega arith }

  Sends-add_credentials : Sends 0 (add_credentials net store)
  unfolding add_credentials
  Sends-add_credentials = record { at = λ w. ground arith }

  Sends-keep_received_cookies : Sends 0 (keep_received_cookies net store)
  unfolding keep_received_cookies
  Sends-keep_received_cookies = record { at = λ w. ground arith }

  Sends-keep_cookie_updates : Sends 0 (keep_cookie_updates net store)
  unfolding keep_cookie_updates
  Sends-keep_cookie_updates = record { at = λ w. ground arith }

  Sends-mark_ok : Sends 0 (mark_ok net store)
  unfolding mark_ok
  Sends-mark_ok = record { at = λ w. omega arith }

  Sends-authenticate : Sends 1 (authenticate net store content)
  unfolding authenticate
  Sends-authenticate = Sends-bind _ _ Sends-clear_cookies λ _.
      Sends-bind _ _ Sends-add_credentials
        λ _. Sends-bind _ _ Sends-send_and_receive λ _. Sends-keep_received_cookies

  Sends-retry : Sends 1 (retry_after_server_error net store content)
  unfolding retry_after_server_error
  Sends-retry = record { at = λ w. grind (arith, Sends-send_and_receive.at) }

  Sends-authenticate_if : Sends 1 (authenticate_if_unauthorized net store content)
  unfolding authenticate_if_unauthorized
  Sends-authenticate_if = record { at = λ w. grind (arith, Sends-authenticate.at) }

  Sends-attempt : Sends 3 (attempt net store content)
  unfolding attempt
  Sends-attempt = Sends-bind _ _ Sends-send_and_receive λ _.
      Sends-bind _ _ Sends-keep_cookie_updates
        λ _. Sends-bind _ _ Sends-retry λ _. Sends-bind _ _ Sends-authenticate_if λ _. Sends-mark_ok

  sent_count-conclude :
      (p : Outcome (Unit {0}) × Work Jar)
      → sent_count (conclude net store p).1.history ≡ sent_count p.1.history
  unfolding conclude caught_by_http
  sent_count-conclude p = ground arith

-- One call of makeHTTPRequest sends at most three requests, whatever the server answers: the first, one
-- more after a server error, and one more with credentials.
pub make_http_request_bounded :
    {Jar : Type 0} (net : Net) (store : CookieStore Jar) (method uri content : Text)
    (c : Client Jar)
    → sent_count (make_http_request net store method uri content c).1.history
      ≤ 3 + sent_count c.history
unfolding make_http_request
make_http_request_bounded net store method uri content c =
    omega (arith, sent_count-conclude net store content _, (Sends-attempt net store content).at _)
