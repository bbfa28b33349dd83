-- ===== src/StateMachine/Creation.antt =====
-- How an RWSStateMachineInterface is made: include/abb_librws/rws_state_machine_interface.h. Its services hold
-- nothing but a pointer to it.
use abb_librws.Base.{ℕ, Text}
use abb_librws.Poco.Work.{CookieStore}
use abb_librws.Poco.Session.{Session}
use abb_librws.Client.Types.{RwsClient}
use abb_librws.Client.Creation.{default_port_number, default_username, default_password}
use abb_librws.Interface.Creation.{rws_interface_at_port_for_user}

module _ {Jar : Type 0} (store : CookieStore Jar) where
  -- The constructors, by what they are given besides the address
  unfoldable pub state_machine_interface : Text → Session × RwsClient Jar
  state_machine_interface ip_address =
      rws_interface_at_port_for_user store ip_address default_port_number default_username
        default_password

  unfoldable pub state_machine_interface_for_user : Text → Text → Text → Session × RwsClient Jar
  state_machine_interface_for_user ip_address username password =
      rws_interface_at_port_for_user store ip_address default_port_number username password

  unfoldable pub state_machine_interface_at_port : Text → ℕ → Session × RwsClient Jar
  state_machine_interface_at_port ip_address port =
      rws_interface_at_port_for_user store ip_address port default_username default_password

  unfoldable pub state_machine_interface_at_port_for_user :
      Text → ℕ → Text → Text → Session × RwsClient Jar
  state_machine_interface_at_port_for_user ip_address port username password =
      rws_interface_at_port_for_user store ip_address port username password
