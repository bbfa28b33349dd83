-- ===== src/Poco/Session.antt =====
-- How a POCOClient is made, and its time-out for HTTP: include/abb_librws/rws_poco_client.h.
use abb_librws.Base.{ℕ, Bool, true, false, Text, []}
use abb_librws.Poco.Work.{CookieStore, Client, reset_session}

-- What http_client_session_ and http_credentials_ are set to. The time-out is in microseconds.
pub record Session : Type 0 where
  pub host : Text
  pub port : ℕ
  pub keep_alive : Bool
  pub timeout : ℕ
  pub username : Text
  pub password : Text

-- DEFAULT_HTTP_TIMEOUT
abbrev pub default_http_timeout : ℕ
default_http_timeout = 400000

module _ {Jar : Type 0} where
  -- A constructor of POCOClient: no cookie, and no WebSocket
  unfoldable pub poco_client : CookieStore Jar → Text → ℕ → Text → Text → Session × Client Jar
  poco_client store ip_address port username password = (
    record {
      host = ip_address;
      port = port;
      keep_alive = true;
      timeout = default_http_timeout;
      username = username;
      password = password;
    },
    record { cookies = store.empty; websocket = false; history = [] },
  )

  -- setHTTPTimeout
  unfoldable pub set_http_timeout : ℕ → Session × Client Jar → Session × Client Jar
  set_http_timeout timeout (session, client) =
      (record session { timeout = timeout }, reset_session client)

  -- webSocketExist
  unfoldable pub websocket_exist : Client Jar → Bool
  websocket_exist client = client.websocket
