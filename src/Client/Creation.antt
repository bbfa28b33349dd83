-- ===== src/Client/Creation.antt =====
-- How an RWSClient is made and destroyed: include/abb_librws/rws_client.h.
use abb_librws.Base.{ℕ, Text, [], Option}
use abb_librws.SystemConstants.General.{general}
use abb_librws.Xml.{Node}
use abb_librws.Poco.Work.{Net, CookieStore, Client}
use abb_librws.Poco.Session.{Session, poco_client}
use abb_librws.Client.Types.{RwsClient, R, ◌>>=◌, pure}
use abb_librws.Client.Requests.{logout}

-- DEFAULT_PORT_NUMBER, DEFAULT_USERNAME and DEFAULT_PASSWORD
abbrev pub default_port_number : ℕ
default_port_number = general.default_port_number

abbrev pub default_username : Text
default_username = general.default_username

abbrev pub default_password : Text
default_password = general.default_password

module _ {Jar : Type 0} (store : CookieStore Jar) where
  -- What the members of RWSClient itself begin as: an empty log, and no group
  abbrev pub over_poco : Session × Client Jar → Session × RwsClient Jar
  over_poco (session, poco) =
      (session, record { poco = poco; log = []; subscription_group_id = [] })

  -- The constructors, by what they are given besides the address
  unfoldable pub rws_client : Text → Session × RwsClient Jar
  unfolding poco_client
  rws_client ip_address =
      over_poco (poco_client store ip_address default_port_number default_username default_password)

  unfoldable pub rws_client_for_user : Text → Text → Text → Session × RwsClient Jar
  unfolding poco_client
  rws_client_for_user ip_address username password =
      over_poco (poco_client store ip_address default_port_number username password)

  unfoldable pub rws_client_at_port : Text → ℕ → Session × RwsClient Jar
  unfolding poco_client
  rws_client_at_port ip_address port =
      over_poco (poco_client store ip_address port default_username default_password)

  unfoldable pub rws_client_at_port_for_user : Text → ℕ → Text → Text → Session × RwsClient Jar
  unfolding poco_client
  rws_client_at_port_for_user ip_address port username password =
      over_poco (poco_client store ip_address port username password)

-- The destructor
unfoldable pub destroy :
    {Jar : Type 0} → Net → CookieStore Jar → (Text → Option Node) → R Jar (Unit {0})
destroy net store parse_xml = do rws_result ← logout net store parse_xml; pure tt
