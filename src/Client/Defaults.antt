-- ===== src/Client/Defaults.antt =====
-- The methods of RWSClient with the default arguments of include/abb_librws/rws_client.h.
use abb_librws.Base.{Text, [], Option}
use abb_librws.SystemConstants.General.{general}
use abb_librws.Xml.{Node}
use abb_librws.Poco.Work.{Net, CookieStore}
use abb_librws.Client.Types.{RwsResult, R, active}
use abb_librws.Client.Requests.{get_mechanical_unit_rob_target}
use abb_librws.Client.Commands.{register_local_user, register_remote_user}

module _ {Jar : Type 0} (net : Net) (store : CookieStore Jar) (parse_xml : Text → Option Node) where
  -- getMechanicalUnitRobTarget of a unit, in the active coordinate system
  unfoldable pub get_active_rob_target : Text → R Jar RwsResult
  get_active_rob_target mechunit =
      get_mechanical_unit_rob_target net store parse_xml mechunit active [] []

  -- registerLocalUser and registerRemoteUser of the default user
  unfoldable pub register_default_local_user : R Jar RwsResult
  register_default_local_user =
      register_local_user net store parse_xml general.default_username general.external_application
        general.external_location

  unfoldable pub register_default_remote_user : R Jar RwsResult
  register_default_remote_user =
      register_remote_user net store parse_xml general.default_username general.external_application
        general.external_location
