-- ===== src/Client/Calls.antt =====
-- Calls of the public methods of RWSClient, in any order.
pub mod Order
pub mod Limits
use abb_librws.Base.{ℕ, Text, List, [], ◌∷◌, Option}
use abb_librws.Xml.{Node}
use abb_librws.Rapid.Atoms.{Floats}
use abb_librws.Rapid.Symbols.{Symbol}
use abb_librws.Poco.Types.{Outcome}
use abb_librws.Poco.Work.{Net, CookieStore}
use abb_librws.Client.Types.{
  RapidResource, FileResource, Coordinate, SubscriptionResource, RwsClient, R,
}
use abb_librws.Client.Requests
use abb_librws.Client.Commands
use abb_librws.Client.Subscription

-- A call of a method, with its arguments; a wait has fuel for the frames.
pub data Call (Num Dnum : Type 0) : Type 0 where
  get_contoller_service : Call Num Dnum
  get_configuration_instances : Text → Text → Call Num Dnum
  get_io_signals : Call Num Dnum
  get_io_signal : Text → Call Num Dnum
  get_mechanical_unit_static_info : Text → Call Num Dnum
  get_mechanical_unit_dynamic_info : Text → Call Num Dnum
  get_mechanical_unit_joint_target : Text → Call Num Dnum
  get_mechanical_unit_rob_target : Text → Coordinate → Text → Text → Call Num Dnum
  get_rapid_execution : Call Num Dnum
  get_rapid_modules_info : Text → Call Num Dnum
  get_rapid_tasks : Call Num Dnum
  get_robotware_system : Call Num Dnum
  get_speed_ratio : Call Num Dnum
  get_panel_controller_state : Call Num Dnum
  get_panel_operation_mode : Call Num Dnum
  get_rapid_symbol_resource : RapidResource → Call Num Dnum
  get_rapid_symbol_properties : RapidResource → Call Num Dnum
  get_rapid_symbol_data : RapidResource → Option (Symbol Num Dnum) → Call Num Dnum
  get_file : FileResource → Option Text → Call Num Dnum
  logout : Call Num Dnum
  set_io_signal : Text → Text → Call Num Dnum
  set_rapid_symbol_text : RapidResource → Text → Call Num Dnum
  set_rapid_symbol_data : RapidResource → Symbol Num Dnum → Call Num Dnum
  start_rapid_execution : Call Num Dnum
  stop_rapid_execution : Call Num Dnum
  reset_rapid_program_pointer : Call Num Dnum
  set_motors_on : Call Num Dnum
  set_motors_off : Call Num Dnum
  set_speed_ratio : ℕ → Call Num Dnum
  upload_file : FileResource → Text → Call Num Dnum
  delete_file : FileResource → Call Num Dnum
  register_local_user : Text → Text → Text → Call Num Dnum
  register_remote_user : Text → Text → Text → Call Num Dnum
  start_subscription : List SubscriptionResource → Call Num Dnum
  wait_for_subscription_event : ℕ → Call Num Dnum
  end_subscription : Call Num Dnum
  force_close_subscription : Call Num Dnum

-- The client after a method, whether it returned or threw
abbrev pub left_by : {Jar A : Type 0} → Outcome A × RwsClient Jar → RwsClient Jar
left_by ran = ran.1

module _ {Jar Num Dnum : Type 0} (net : Net) (store : CookieStore Jar)
    (parse_xml : Text → Option Node) (fl : Floats Num Dnum) where
  -- The client after a call
  unfoldable pub after_call : Call Num Dnum → RwsClient Jar → RwsClient Jar
  after_call get_contoller_service c =
      left_by (Requests.get_contoller_service net store parse_xml c)
  after_call (get_configuration_instances topic type) c =
      left_by (Requests.get_configuration_instances net store parse_xml topic type c)
  after_call get_io_signals c = left_by (Requests.get_io_signals net store parse_xml c)
  after_call (get_io_signal iosignal) c =
      left_by (Requests.get_io_signal net store parse_xml iosignal c)
  after_call (get_mechanical_unit_static_info mechunit) c =
      left_by (Requests.get_mechanical_unit_static_info net store parse_xml mechunit c)
  after_call (get_mechanical_unit_dynamic_info mechunit) c =
      left_by (Requests.get_mechanical_unit_dynamic_info net store parse_xml mechunit c)
  after_call (get_mechanical_unit_joint_target mechunit) c =
      left_by (Requests.get_mechanical_unit_joint_target net store parse_xml mechunit c)
  after_call (get_mechanical_unit_rob_target mechunit coordinate tool_name wobj_name) c = left_by (
      Requests.get_mechanical_unit_rob_target net store parse_xml mechunit coordinate tool_name
        wobj_name c)
  after_call get_rapid_execution c = left_by (Requests.get_rapid_execution net store parse_xml c)
  after_call (get_rapid_modules_info task) c =
      left_by (Requests.get_rapid_modules_info net store parse_xml task c)
  after_call get_rapid_tasks c = left_by (Requests.get_rapid_tasks net store parse_xml c)
  after_call get_robotware_system c = left_by (Requests.get_robotware_system net store parse_xml c)
  after_call get_speed_ratio c = left_by (Requests.get_speed_ratio net store parse_xml c)
  after_call get_panel_controller_state c =
      left_by (Requests.get_panel_controller_state net store parse_xml c)
  after_call get_panel_operation_mode c =
      left_by (Requests.get_panel_operation_mode net store parse_xml c)
  after_call (get_rapid_symbol_resource resource) c =
      left_by (Requests.get_rapid_symbol_resource net store parse_xml resource c)
  after_call (get_rapid_symbol_properties resource) c =
      left_by (Requests.get_rapid_symbol_properties net store parse_xml resource c)
  after_call (get_rapid_symbol_data resource p_data) c =
      left_by (Requests.get_rapid_symbol_data net store parse_xml fl resource p_data c)
  after_call (get_file resource p_file_content) c =
      left_by (Requests.get_file net store parse_xml resource p_file_content c)
  after_call logout c = left_by (Requests.logout net store parse_xml c)
  after_call (set_io_signal iosignal value) c =
      left_by (Commands.set_io_signal net store parse_xml iosignal value c)
  after_call (set_rapid_symbol_text resource value) c =
      left_by (Commands.set_rapid_symbol_text net store parse_xml resource value c)
  after_call (set_rapid_symbol_data resource symbol) c =
      left_by (Commands.set_rapid_symbol_data net store parse_xml fl resource symbol c)
  after_call start_rapid_execution c =
      left_by (Commands.start_rapid_execution net store parse_xml c)
  after_call stop_rapid_execution c = left_by (Commands.stop_rapid_execution net store parse_xml c)
  after_call reset_rapid_program_pointer c =
      left_by (Commands.reset_rapid_program_pointer net store parse_xml c)
  after_call set_motors_on c = left_by (Commands.set_motors_on net store parse_xml c)
  after_call set_motors_off c = left_by (Commands.set_motors_off net store parse_xml c)
  after_call (set_speed_ratio ratio) c =
      left_by (Commands.set_speed_ratio net store parse_xml ratio c)
  after_call (upload_file resource file_content) c =
      left_by (Commands.upload_file net store parse_xml resource file_content c)
  after_call (delete_file resource) c =
      left_by (Commands.delete_file net store parse_xml resource c)
  after_call (register_local_user username application location) c =
      left_by (Commands.register_local_user net store parse_xml username application location c)
  after_call (register_remote_user username application location) c =
      left_by (Commands.register_remote_user net store parse_xml username application location c)
  after_call (start_subscription resources) c =
      left_by (Subscription.start_subscription net store parse_xml resources c)
  after_call (wait_for_subscription_event fuel) c =
      left_by (Subscription.wait_for_subscription_event net store parse_xml fuel c)
  after_call end_subscription c = left_by (Subscription.end_subscription net store parse_xml c)
  after_call force_close_subscription c =
      left_by (Subscription.force_close_subscription net store parse_xml c)

  -- The client after a sequence of calls
  unfoldable pub after_calls : List (Call Num Dnum) → RwsClient Jar → RwsClient Jar
  after_calls [] c = c
  after_calls (call ∷ calls) c = after_calls calls (after_call call c)
