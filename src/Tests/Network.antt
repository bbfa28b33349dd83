-- ===== src/Tests/Network.antt =====
-- A controller that wants credentials, and texts with cookies.
use abb_librws.Base.{ℕ, ◌+◌, ◌≤◌, ◌≡◌, refl, true, false, Text, codes, [], Option, some, none}
use abb_librws.Poco.Types.{PocoResult, HttpRequest, Outcome, done, header_lines, ok}
use abb_librws.Poco.Work.{Net, CookieStore, Client}
use abb_librws.Poco.Work.Rules.{sent_count}
use abb_librws.Poco.Cookies.{extract_cookie, quot, find, find_substring_content}
use abb_librws.Poco.Cookies.Extraction.{extract_cookie_lem}
use abb_librws.Poco.Cookies.Quots.{find_substring_content-unquoted}
use abb_librws.Poco.Http.{
  make_http_request, attempt, conclude, send_and_receive, authenticate, retry_after_server_error,
  authenticate_if_unauthorized, keep_cookie_updates, clear_cookies, add_credentials,
  keep_received_cookies, mark_ok, new_request,
}
use abb_librws.Poco.Http.Limits.{make_http_request_bounded}
use abb_librws.Poco.Http.Answers.{IsSettled, make_http_request_settles}

-- One cookie at most, and its name is not looked at.
abbrev pub jar : CookieStore (Option Text)
jar = record {
  empty = none;
  has = λ j name. elim j [ none ↦ false | some v ↦ true ];
  set = λ j name v. some v;
  add = λ j name v. some v;
  header = λ j. elim j [ none ↦ [] | some v ↦ v ];
}

abbrev status_for : HttpRequest → ℕ
status_for r = elim r.authorization [ none ↦ 401 | some a ↦ 200 ]

abbrev pub controller : Net
controller = record {
  respond =
      λ h r content. done (record { status = status_for r; headers = []; content = codes "hello" });
  upgrade = λ h r. done (record { status = 101; headers = []; content = [] });
  set_timeout = λ h. done tt;
  receive = λ h. done (record { flags = 129; content = codes "event" });
  pong = λ h t. done tt;
  shutdown = λ h. done tt;
  authenticate = λ r response. done (record r { authorization = some (codes "Digest") });
  get_cookies = λ response. done [];
  cookie_text = λ c. c.value;
}

abbrev pub fresh : Client (Option Text)
fresh = record { cookies = none; websocket = false; history = [] }

abbrev answer : Outcome PocoResult × Client (Option Text)
answer = make_http_request controller jar (codes "GET") (codes "/rw") [] fresh

asks_twice : sent_count answer.1.history ≡ 2
unfolding make_http_request attempt conclude send_and_receive authenticate retry_after_server_error
    authenticate_if_unauthorized keep_cookie_updates clear_cookies add_credentials
    keep_received_cookies mark_ok new_request header_lines
asks_twice = refl

hello_bounded : sent_count answer.1.history ≤ 3 + sent_count fresh.history
hello_bounded = make_http_request_bounded controller jar (codes "GET") (codes "/rw") [] fresh

abbrev reported : PocoResult
reported = record {
  status = ok;
  exception_message = [];
  request = record { method = codes "GET"; uri = codes "/rw"; content = [] };
  response = record { status = 200; header_info = []; content = codes "hello" };
  websocket = record { flags = 0; frame_content = [] };
}

answers : answer ≡ (done reported, answer.1)
unfolding make_http_request attempt conclude send_and_receive authenticate retry_after_server_error
    authenticate_if_unauthorized keep_cookie_updates clear_cookies add_credentials
    keep_received_cookies mark_ok new_request header_lines
answers = refl

make_http_request_settles_example : IsSettled controller jar [] reported answer.1
make_http_request_settles_example =
    make_http_request_settles controller jar (codes "GET") (codes "/rw") [] fresh answer.1 reported
      answers

extract_cookie_lem_example : extract_cookie (codes "id=7;path=/") ≡ some (codes "id", codes "7")
extract_cookie_lem_example =
    extract_cookie_lem (codes "id") (codes "7") (codes "path=/") (refl, (refl, tt))
      (refl, (refl, tt)) (refl, tt)

find_substring_content-unquoted_example :
    find quot
      (find_substring_content (codes "/poll/1&qu&quot;ot;2\n") (codes "/poll/") (codes "\n"))
    ≡ none
find_substring_content-unquoted_example =
    find_substring_content-unquoted (codes "/poll/1&qu&quot;ot;2\n") (codes "/poll/") (codes "\n")
