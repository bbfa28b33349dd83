-- ===== src/StateMachine/Calls.antt =====
-- Calls of the services of the StateMachine Add-In, in any order.
pub mod Rules
pub mod GripperOrder
pub mod Order
use abb_librws.Base.{ℕ, Text, List, [], ◌∷◌, Option}
use abb_librws.Xml.{Node}
use abb_librws.Rapid.Atoms.{Floats}
use abb_librws.Rapid.Numbers.{Conversions}
use abb_librws.Rapid.Symbols.{Symbol}
use abb_librws.Rapid.Records.{JointTarget, RobTarget, SpeedData}
use abb_librws.Poco.Work.{Net, CookieStore}
use abb_librws.Client.Types.{RwsClient}
use abb_librws.Client.Calls.{left_by}
use abb_librws.StateMachine.Settings.{EgmSettings, SgSettings}
use abb_librws.StateMachine.Services.Egm
use abb_librws.StateMachine.Services.Main
use abb_librws.StateMachine.Services.Routines
use abb_librws.StateMachine.Services.Grippers
use abb_librws.StateMachine.Services.Watchdog

-- Services::EGM
pub data EgmCall (Num Dnum : Type 0) : Type 0 where
  get_current_action : Text → EgmCall Num Dnum
  get_egm_settings : Text → Option (Symbol Num Dnum) → EgmCall Num Dnum
  set_egm_settings : Text → EgmSettings Num → EgmCall Num Dnum
  signal_egm_start_joint : EgmCall Num Dnum
  signal_egm_start_pose : EgmCall Num Dnum
  signal_egm_start_stream : EgmCall Num Dnum
  signal_egm_stop : EgmCall Num Dnum
  signal_egm_stop_stream : EgmCall Num Dnum

-- Services::Main
pub data MainCall (Num Dnum : Type 0) : Type 0 where
  get_current_state : Text → MainCall Num Dnum
  is_state_idle : Text → MainCall Num Dnum
  is_stationary : Text → MainCall Num Dnum

-- Services::RAPID
pub data RapidCall (Num Dnum : Type 0) : Type 0 where
  run_call_by_var_routine : Text → Text → ℕ → RapidCall Num Dnum
  run_module_load_routine : Text → Text → RapidCall Num Dnum
  run_module_unload_routine : Text → Text → RapidCall Num Dnum
  run_move_abs_j_routine : Text → JointTarget Num → RapidCall Num Dnum
  run_move_j_routine : Text → RobTarget Num → RapidCall Num Dnum
  run_move_to_calibration_position_routine : Text → RapidCall Num Dnum
  set_move_speed : Text → SpeedData Num → RapidCall Num Dnum
  set_routine_name : Text → Text → RapidCall Num Dnum
  signal_run_rapid_routine : RapidCall Num Dnum

-- Services::SG
pub data SgCall (Num Dnum : Type 0) : Type 0 where
  dual_blow_1_off : SgCall Num Dnum
  dual_blow_1_on : SgCall Num Dnum
  dual_blow_2_off : SgCall Num Dnum
  dual_blow_2_on : SgCall Num Dnum
  dual_calibrate : SgCall Num Dnum
  dual_get_settings : Option (Symbol Num Dnum) → Option (Symbol Num Dnum) → SgCall Num Dnum
  dual_grip_in : SgCall Num Dnum
  dual_grip_out : SgCall Num Dnum
  dual_initialize : SgCall Num Dnum
  dual_move_to : Num → Num → SgCall Num Dnum
  dual_set_settings : SgSettings Num → SgSettings Num → SgCall Num Dnum
  dual_vacuum_1_off : SgCall Num Dnum
  dual_vacuum_1_on : SgCall Num Dnum
  dual_vacuum_2_off : SgCall Num Dnum
  dual_vacuum_2_on : SgCall Num Dnum
  left_blow_1_off : SgCall Num Dnum
  left_blow_1_on : SgCall Num Dnum
  left_blow_2_off : SgCall Num Dnum
  left_blow_2_on : SgCall Num Dnum
  left_calibrate : SgCall Num Dnum
  left_get_settings : Option (Symbol Num Dnum) → SgCall Num Dnum
  left_grip_in : SgCall Num Dnum
  left_grip_out : SgCall Num Dnum
  left_initialize : SgCall Num Dnum
  left_move_to : Num → SgCall Num Dnum
  left_set_settings : SgSettings Num → SgCall Num Dnum
  left_vacuum_1_off : SgCall Num Dnum
  left_vacuum_1_on : SgCall Num Dnum
  left_vacuum_2_off : SgCall Num Dnum
  left_vacuum_2_on : SgCall Num Dnum
  right_blow_1_off : SgCall Num Dnum
  right_blow_1_on : SgCall Num Dnum
  right_blow_2_off : SgCall Num Dnum
  right_blow_2_on : SgCall Num Dnum
  right_calibrate : SgCall Num Dnum
  right_get_settings : Option (Symbol Num Dnum) → SgCall Num Dnum
  right_grip_in : SgCall Num Dnum
  right_grip_out : SgCall Num Dnum
  right_initialize : SgCall Num Dnum
  right_move_to : Num → SgCall Num Dnum
  right_set_settings : SgSettings Num → SgCall Num Dnum
  right_vacuum_1_off : SgCall Num Dnum
  right_vacuum_1_on : SgCall Num Dnum
  right_vacuum_2_off : SgCall Num Dnum
  right_vacuum_2_on : SgCall Num Dnum
  signal_run_sg_routine : SgCall Num Dnum

-- Services::Utility
pub data UtilityCall (Num Dnum : Type 0) : Type 0 where
  get_base_frame : Text → Option (Symbol Num Dnum) → UtilityCall Num Dnum
  get_calibration_target : Text → Option (Symbol Num Dnum) → UtilityCall Num Dnum

-- Services::Watchdog
pub data WatchdogCall (Num Dnum : Type 0) : Type 0 where
  is_active : Text → WatchdogCall Num Dnum
  is_checking_external_status : Text → WatchdogCall Num Dnum
  set_external_status_signal : WatchdogCall Num Dnum
  signal_stop_request : WatchdogCall Num Dnum

-- Services
pub data ServiceCall (Num Dnum : Type 0) : Type 0 where
  egm : EgmCall Num Dnum → ServiceCall Num Dnum
  main : MainCall Num Dnum → ServiceCall Num Dnum
  rapid : RapidCall Num Dnum → ServiceCall Num Dnum
  sg : SgCall Num Dnum → ServiceCall Num Dnum
  utility : UtilityCall Num Dnum → ServiceCall Num Dnum
  watchdog : WatchdogCall Num Dnum → ServiceCall Num Dnum

module _ {Jar Num Dnum : Type 0} (fl : Floats Num Dnum) (conversions : Conversions Num Dnum)
    (net : Net) (store : CookieStore Jar) (parse_xml : Text → Option Node) where
  -- After a call of this service
  unfoldable pub after_egm : EgmCall Num Dnum → RwsClient Jar → RwsClient Jar
  after_egm (get_current_action task) c =
      left_by (Egm.get_current_action fl conversions net store parse_xml task c)
  after_egm (get_egm_settings task p_data) c =
      left_by (Egm.get_egm_settings fl conversions net store parse_xml task p_data c)
  after_egm (set_egm_settings task settings) c =
      left_by (Egm.set_egm_settings fl conversions net store parse_xml task settings c)
  after_egm signal_egm_start_joint c =
      left_by (Egm.signal_egm_start_joint fl conversions net store parse_xml c)
  after_egm signal_egm_start_pose c =
      left_by (Egm.signal_egm_start_pose fl conversions net store parse_xml c)
  after_egm signal_egm_start_stream c =
      left_by (Egm.signal_egm_start_stream fl conversions net store parse_xml c)
  after_egm signal_egm_stop c = left_by (Egm.signal_egm_stop fl conversions net store parse_xml c)
  after_egm signal_egm_stop_stream c =
      left_by (Egm.signal_egm_stop_stream fl conversions net store parse_xml c)

  -- After a call of this service
  unfoldable pub after_main : MainCall Num Dnum → RwsClient Jar → RwsClient Jar
  after_main (get_current_state task) c =
      left_by (Main.get_current_state fl conversions net store parse_xml task c)
  after_main (is_state_idle task) c =
      left_by (Main.is_state_idle fl conversions net store parse_xml task c)
  after_main (is_stationary task) c = left_by (Main.is_stationary net store parse_xml task c)

  -- After a call of this service
  unfoldable pub after_rapid : RapidCall Num Dnum → RwsClient Jar → RwsClient Jar
  after_rapid (run_call_by_var_routine task name number) c =
      left_by
        (Routines.run_call_by_var_routine fl net store parse_xml conversions task name number c)
  after_rapid (run_module_load_routine task name) c =
      left_by (Routines.run_module_load_routine fl net store parse_xml task name c)
  after_rapid (run_module_unload_routine task name) c =
      left_by (Routines.run_module_unload_routine fl net store parse_xml task name c)
  after_rapid (run_move_abs_j_routine task target) c =
      left_by (Routines.run_move_abs_j_routine fl net store parse_xml task target c)
  after_rapid (run_move_j_routine task target) c =
      left_by (Routines.run_move_j_routine fl net store parse_xml task target c)
  after_rapid (run_move_to_calibration_position_routine task) c =
      left_by (Routines.run_move_to_calibration_position_routine fl net store parse_xml task c)
  after_rapid (set_move_speed task speed) c =
      left_by (Routines.set_move_speed fl net store parse_xml task speed c)
  after_rapid (set_routine_name task name) c =
      left_by (Routines.set_routine_name fl net store parse_xml task name c)
  after_rapid signal_run_rapid_routine c =
      left_by (Routines.signal_run_rapid_routine fl net store parse_xml c)

  -- After a call of this service
  unfoldable pub after_sg : SgCall Num Dnum → RwsClient Jar → RwsClient Jar
  after_sg dual_blow_1_off c =
      left_by (Grippers.dual_blow_1_off fl conversions net store parse_xml c)
  after_sg dual_blow_1_on c = left_by (Grippers.dual_blow_1_on fl conversions net store parse_xml c)
  after_sg dual_blow_2_off c =
      left_by (Grippers.dual_blow_2_off fl conversions net store parse_xml c)
  after_sg dual_blow_2_on c = left_by (Grippers.dual_blow_2_on fl conversions net store parse_xml c)
  after_sg dual_calibrate c = left_by (Grippers.dual_calibrate fl conversions net store parse_xml c)
  after_sg (dual_get_settings p_data p_right_data) c =
      left_by (Grippers.dual_get_settings fl conversions net store parse_xml p_data p_right_data c)
  after_sg dual_grip_in c = left_by (Grippers.dual_grip_in fl conversions net store parse_xml c)
  after_sg dual_grip_out c = left_by (Grippers.dual_grip_out fl conversions net store parse_xml c)
  after_sg dual_initialize c =
      left_by (Grippers.dual_initialize fl conversions net store parse_xml c)
  after_sg (dual_move_to position right_position) c =
      left_by (Grippers.dual_move_to fl conversions net store parse_xml position right_position c)
  after_sg (dual_set_settings settings right_settings) c =
      left_by
        (Grippers.dual_set_settings fl conversions net store parse_xml settings right_settings c)
  after_sg dual_vacuum_1_off c =
      left_by (Grippers.dual_vacuum_1_off fl conversions net store parse_xml c)
  after_sg dual_vacuum_1_on c =
      left_by (Grippers.dual_vacuum_1_on fl conversions net store parse_xml c)
  after_sg dual_vacuum_2_off c =
      left_by (Grippers.dual_vacuum_2_off fl conversions net store parse_xml c)
  after_sg dual_vacuum_2_on c =
      left_by (Grippers.dual_vacuum_2_on fl conversions net store parse_xml c)
  after_sg left_blow_1_off c =
      left_by (Grippers.left_blow_1_off fl conversions net store parse_xml c)
  after_sg left_blow_1_on c = left_by (Grippers.left_blow_1_on fl conversions net store parse_xml c)
  after_sg left_blow_2_off c =
      left_by (Grippers.left_blow_2_off fl conversions net store parse_xml c)
  after_sg left_blow_2_on c = left_by (Grippers.left_blow_2_on fl conversions net store parse_xml c)
  after_sg left_calibrate c = left_by (Grippers.left_calibrate fl conversions net store parse_xml c)
  after_sg (left_get_settings p_data) c =
      left_by (Grippers.left_get_settings fl conversions net store parse_xml p_data c)
  after_sg left_grip_in c = left_by (Grippers.left_grip_in fl conversions net store parse_xml c)
  after_sg left_grip_out c = left_by (Grippers.left_grip_out fl conversions net store parse_xml c)
  after_sg left_initialize c =
      left_by (Grippers.left_initialize fl conversions net store parse_xml c)
  after_sg (left_move_to position) c =
      left_by (Grippers.left_move_to fl conversions net store parse_xml position c)
  after_sg (left_set_settings settings) c =
      left_by (Grippers.left_set_settings fl conversions net store parse_xml settings c)
  after_sg left_vacuum_1_off c =
      left_by (Grippers.left_vacuum_1_off fl conversions net store parse_xml c)
  after_sg left_vacuum_1_on c =
      left_by (Grippers.left_vacuum_1_on fl conversions net store parse_xml c)
  after_sg left_vacuum_2_off c =
      left_by (Grippers.left_vacuum_2_off fl conversions net store parse_xml c)
  after_sg left_vacuum_2_on c =
      left_by (Grippers.left_vacuum_2_on fl conversions net store parse_xml c)
  after_sg right_blow_1_off c =
      left_by (Grippers.right_blow_1_off fl conversions net store parse_xml c)
  after_sg right_blow_1_on c =
      left_by (Grippers.right_blow_1_on fl conversions net store parse_xml c)
  after_sg right_blow_2_off c =
      left_by (Grippers.right_blow_2_off fl conversions net store parse_xml c)
  after_sg right_blow_2_on c =
      left_by (Grippers.right_blow_2_on fl conversions net store parse_xml c)
  after_sg right_calibrate c =
      left_by (Grippers.right_calibrate fl conversions net store parse_xml c)
  after_sg (right_get_settings p_data) c =
      left_by (Grippers.right_get_settings fl conversions net store parse_xml p_data c)
  after_sg right_grip_in c = left_by (Grippers.right_grip_in fl conversions net store parse_xml c)
  after_sg right_grip_out c = left_by (Grippers.right_grip_out fl conversions net store parse_xml c)
  after_sg right_initialize c =
      left_by (Grippers.right_initialize fl conversions net store parse_xml c)
  after_sg (right_move_to position) c =
      left_by (Grippers.right_move_to fl conversions net store parse_xml position c)
  after_sg (right_set_settings settings) c =
      left_by (Grippers.right_set_settings fl conversions net store parse_xml settings c)
  after_sg right_vacuum_1_off c =
      left_by (Grippers.right_vacuum_1_off fl conversions net store parse_xml c)
  after_sg right_vacuum_1_on c =
      left_by (Grippers.right_vacuum_1_on fl conversions net store parse_xml c)
  after_sg right_vacuum_2_off c =
      left_by (Grippers.right_vacuum_2_off fl conversions net store parse_xml c)
  after_sg right_vacuum_2_on c =
      left_by (Grippers.right_vacuum_2_on fl conversions net store parse_xml c)
  after_sg signal_run_sg_routine c =
      left_by (Grippers.signal_run_sg_routine fl conversions net store parse_xml c)

  -- After a call of this service
  unfoldable pub after_utility : UtilityCall Num Dnum → RwsClient Jar → RwsClient Jar
  after_utility (get_base_frame task p_data) c =
      left_by (Watchdog.get_base_frame fl net store parse_xml task p_data c)
  after_utility (get_calibration_target task p_data) c =
      left_by (Watchdog.get_calibration_target fl net store parse_xml task p_data c)

  -- After a call of this service
  unfoldable pub after_watchdog : WatchdogCall Num Dnum → RwsClient Jar → RwsClient Jar
  after_watchdog (is_active task) c = left_by (Watchdog.is_active fl net store parse_xml task c)
  after_watchdog (is_checking_external_status task) c =
      left_by (Watchdog.is_checking_external_status fl net store parse_xml task c)
  after_watchdog set_external_status_signal c =
      left_by (Watchdog.set_external_status_signal net store parse_xml c)
  after_watchdog signal_stop_request c =
      left_by (Watchdog.signal_stop_request net store parse_xml c)

  unfoldable pub after_service : ServiceCall Num Dnum → RwsClient Jar → RwsClient Jar
  after_service (egm call) c = after_egm call c
  after_service (main call) c = after_main call c
  after_service (rapid call) c = after_rapid call c
  after_service (sg call) c = after_sg call c
  after_service (utility call) c = after_utility call c
  after_service (watchdog call) c = after_watchdog call c

  -- After a sequence of calls
  unfoldable pub after_services : List (ServiceCall Num Dnum) → RwsClient Jar → RwsClient Jar
  after_services [] c = c
  after_services (call ∷ calls) c = after_services calls (after_service call c)
