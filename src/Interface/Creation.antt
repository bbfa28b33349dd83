-- ===== src/Interface/Creation.antt =====
-- How an RWSInterface is made, and its time-out: include/abb_librws/rws_interface.h.
use abb_librws.Base.{ℕ, Text}
use abb_librws.Poco.Work.{CookieStore}
use abb_librws.Poco.Session.{Session}
use abb_librws.Poco.Session
use abb_librws.Client.Types.{RwsClient}
use abb_librws.Client.Creation.{
  default_port_number, default_username, default_password, rws_client_at_port_for_user,
}

module _ {Jar : Type 0} (store : CookieStore Jar) where
  -- The constructors, by what they are given besides the address: each makes rws_client_ with all arguments.
  unfoldable pub rws_interface : Text → Session × RwsClient Jar
  rws_interface ip_address =
      rws_client_at_port_for_user store ip_address default_port_number default_username
        default_password

  unfoldable pub rws_interface_for_user : Text → Text → Text → Session × RwsClient Jar
  rws_interface_for_user ip_address username password =
      rws_client_at_port_for_user store ip_address default_port_number username password

  unfoldable pub rws_interface_at_port : Text → ℕ → Session × RwsClient Jar
  rws_interface_at_port ip_address port =
      rws_client_at_port_for_user store ip_address port default_username default_password

  unfoldable pub rws_interface_at_port_for_user : Text → ℕ → Text → Text → Session × RwsClient Jar
  rws_interface_at_port_for_user ip_address port username password =
      rws_client_at_port_for_user store ip_address port username password

-- setHTTPTimeout
unfoldable pub set_http_timeout :
    {Jar : Type 0} → ℕ → Session × RwsClient Jar → Session × RwsClient Jar
set_http_timeout timeout (session, client) =
    let (changed, poco) = Session.set_http_timeout timeout (session, client.poco) in
    (changed, record client { poco = poco })
