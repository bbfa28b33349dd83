-- ===== src/StateMachine/Services/Grippers.antt =====
-- RWSStateMachineInterface::Services::SG: the SmartGripper services, for both arms, the left and the right.
pub mod Gestures
pub mod Bounds
use abb_librws.Base.{Text, Bool, false, Option, if◌then◌else◌}
use abb_librws.Xml.{Node}
use abb_librws.Rapid.Atoms.{Floats}
use abb_librws.Rapid.Symbols.{Symbol, num}
use abb_librws.Rapid.Numbers.{Conversions}
use abb_librws.Poco.Work.{Net, CookieStore}
use abb_librws.Client.Types.{R, ◌>>=◌, pure}
use abb_librws.Interface.{read_rapid_symbol_data, write_rapid_symbol_data}
use abb_librws.StateMachine.{toggle_io_signal}
use abb_librws.StateMachine.Identifiers.{
  in_task, task_rob_l, task_rob_r, run_sg_routine, sg_command_input, sg_settings_resource,
  sg_target_postion_input,
}
use abb_librws.StateMachine.Settings.{SgSettings, sg_settings_symbol}
use abb_librws.StateMachine.Codes
use abb_librws.StateMachine.Codes.{SgCommand, command_number}
use abb_librws.StateMachine.Services.{◌&&>◌}

module _ {Jar Num Dnum : Type 0} (fl : Floats Num Dnum) (conversions : Conversions Num Dnum)
    (net : Net) (store : CookieStore Jar) (parse_xml : Text → Option Node) where
  -- getSettings, into the object that the pointer points to, if any: whether it is a success, and the object
  unfoldable pub get_settings :
      Text → Option (Symbol Num Dnum) → R Jar (Bool × Option (Symbol Num Dnum))
  get_settings task p_settings =
      read_rapid_symbol_data net store parse_xml fl (in_task task sg_settings_resource) p_settings

  -- setCommandInput
  unfoldable pub set_command_input : Text → SgCommand → R Jar Bool
  set_command_input task command =
      write_rapid_symbol_data net store parse_xml fl (in_task task sg_command_input)
        (num (conversions.of_nat (command_number command)))

  -- setSettings
  unfoldable pub set_settings : Text → SgSettings Num → R Jar Bool
  set_settings task settings =
      write_rapid_symbol_data net store parse_xml fl (in_task task sg_settings_resource)
        (sg_settings_symbol settings)

  -- setTargetPositionInput
  unfoldable pub set_target_position_input : Text → Num → R Jar Bool
  set_target_position_input task position =
      write_rapid_symbol_data net store parse_xml fl (in_task task sg_target_postion_input)
        (num position)

  -- signalRunSGRoutine
  unfoldable pub signal_run_sg_routine : R Jar Bool
  signal_run_sg_routine = toggle_io_signal net store parse_xml run_sg_routine

  -- dualBlow1Off
  unfoldable pub dual_blow_1_off : R Jar Bool
  dual_blow_1_off =
      set_command_input task_rob_l Codes.command_blow_off_1
      &&> set_command_input task_rob_r Codes.command_blow_off_1
      &&> signal_run_sg_routine

  -- dualBlow1On
  unfoldable pub dual_blow_1_on : R Jar Bool
  dual_blow_1_on =
      set_command_input task_rob_l Codes.command_blow_on_1
      &&> set_command_input task_rob_r Codes.command_blow_on_1
      &&> signal_run_sg_routine

  -- dualBlow2Off
  unfoldable pub dual_blow_2_off : R Jar Bool
  dual_blow_2_off =
      set_command_input task_rob_l Codes.command_blow_off_2
      &&> set_command_input task_rob_r Codes.command_blow_off_2
      &&> signal_run_sg_routine

  -- dualBlow2On
  unfoldable pub dual_blow_2_on : R Jar Bool
  dual_blow_2_on =
      set_command_input task_rob_l Codes.command_blow_on_2
      &&> set_command_input task_rob_r Codes.command_blow_on_2
      &&> signal_run_sg_routine

  -- dualCalibrate
  unfoldable pub dual_calibrate : R Jar Bool
  dual_calibrate =
      set_command_input task_rob_l Codes.command_calibrate
      &&> set_command_input task_rob_r Codes.command_calibrate
      &&> signal_run_sg_routine

  -- dualGetSettings
  unfoldable pub dual_get_settings :
      Option (Symbol Num Dnum)
      → Option (Symbol Num Dnum)
      → R Jar (Bool × Option (Symbol Num Dnum) × Option (Symbol Num Dnum))
  dual_get_settings p_left_settings p_right_settings = do
    left ← get_settings task_rob_l p_left_settings
    if left.0
        then (do right ← get_settings task_rob_r p_right_settings; pure (right.0, left.1, right.1))
        else pure (false, left.1, p_right_settings)

  -- dualGripIn
  unfoldable pub dual_grip_in : R Jar Bool
  dual_grip_in =
      set_command_input task_rob_l Codes.command_grip_in
      &&> set_command_input task_rob_r Codes.command_grip_in
      &&> signal_run_sg_routine

  -- dualGripOut
  unfoldable pub dual_grip_out : R Jar Bool
  dual_grip_out =
      set_command_input task_rob_l Codes.command_grip_out
      &&> set_command_input task_rob_r Codes.command_grip_out
      &&> signal_run_sg_routine

  -- dualInitialize
  unfoldable pub dual_initialize : R Jar Bool
  dual_initialize =
      set_command_input task_rob_l Codes.command_initialize
      &&> set_command_input task_rob_r Codes.command_initialize
      &&> signal_run_sg_routine

  -- dualMoveTo
  unfoldable pub dual_move_to : Num → Num → R Jar Bool
  dual_move_to left_position right_position =
      set_command_input task_rob_l Codes.command_move_to
      &&> set_command_input task_rob_r Codes.command_move_to
      &&> set_target_position_input task_rob_l left_position
      &&> set_target_position_input task_rob_r right_position
      &&> signal_run_sg_routine

  -- dualSetSettings
  unfoldable pub dual_set_settings : SgSettings Num → SgSettings Num → R Jar Bool
  dual_set_settings left_settings right_settings =
      set_settings task_rob_l left_settings &&> set_settings task_rob_r right_settings

  -- dualVacuum1Off
  unfoldable pub dual_vacuum_1_off : R Jar Bool
  dual_vacuum_1_off =
      set_command_input task_rob_l Codes.command_vacuum_off_1
      &&> set_command_input task_rob_r Codes.command_vacuum_off_1
      &&> signal_run_sg_routine

  -- dualVacuum1On
  unfoldable pub dual_vacuum_1_on : R Jar Bool
  dual_vacuum_1_on =
      set_command_input task_rob_l Codes.command_vacuum_on_1
      &&> set_command_input task_rob_r Codes.command_vacuum_on_1
      &&> signal_run_sg_routine

  -- dualVacuum2Off
  unfoldable pub dual_vacuum_2_off : R Jar Bool
  dual_vacuum_2_off =
      set_command_input task_rob_l Codes.command_vacuum_off_2
      &&> set_command_input task_rob_r Codes.command_vacuum_off_2
      &&> signal_run_sg_routine

  -- dualVacuum2On
  unfoldable pub dual_vacuum_2_on : R Jar Bool
  dual_vacuum_2_on =
      set_command_input task_rob_l Codes.command_vacuum_on_2
      &&> set_command_input task_rob_r Codes.command_vacuum_on_2
      &&> signal_run_sg_routine

  -- leftBlow1Off
  unfoldable pub left_blow_1_off : R Jar Bool
  left_blow_1_off =
      set_command_input task_rob_l Codes.command_blow_off_1
      &&> set_command_input task_rob_r Codes.command_none
      &&> signal_run_sg_routine

  -- leftBlow1On
  unfoldable pub left_blow_1_on : R Jar Bool
  left_blow_1_on =
      set_command_input task_rob_l Codes.command_blow_on_1
      &&> set_command_input task_rob_r Codes.command_none
      &&> signal_run_sg_routine

  -- leftBlow2Off
  unfoldable pub left_blow_2_off : R Jar Bool
  left_blow_2_off =
      set_command_input task_rob_l Codes.command_blow_off_2
      &&> set_command_input task_rob_r Codes.command_none
      &&> signal_run_sg_routine

  -- leftBlow2On
  unfoldable pub left_blow_2_on : R Jar Bool
  left_blow_2_on =
      set_command_input task_rob_l Codes.command_blow_on_2
      &&> set_command_input task_rob_r Codes.command_none
      &&> signal_run_sg_routine

  -- leftCalibrate
  unfoldable pub left_calibrate : R Jar Bool
  left_calibrate =
      set_command_input task_rob_l Codes.command_calibrate
      &&> set_command_input task_rob_r Codes.command_none
      &&> signal_run_sg_routine

  -- leftGetSettings
  unfoldable pub left_get_settings :
      Option (Symbol Num Dnum) → R Jar (Bool × Option (Symbol Num Dnum))
  left_get_settings p_settings = get_settings task_rob_l p_settings

  -- leftGripIn
  unfoldable pub left_grip_in : R Jar Bool
  left_grip_in =
      set_command_input task_rob_l Codes.command_grip_in
      &&> set_command_input task_rob_r Codes.command_none
      &&> signal_run_sg_routine

  -- leftGripOut
  unfoldable pub left_grip_out : R Jar Bool
  left_grip_out =
      set_command_input task_rob_l Codes.command_grip_out
      &&> set_command_input task_rob_r Codes.command_none
      &&> signal_run_sg_routine

  -- leftInitialize
  unfoldable pub left_initialize : R Jar Bool
  left_initialize =
      set_command_input task_rob_l Codes.command_initialize
      &&> set_command_input task_rob_r Codes.command_none
      &&> signal_run_sg_routine

  -- leftMoveTo
  unfoldable pub left_move_to : Num → R Jar Bool
  left_move_to position =
      set_command_input task_rob_l Codes.command_move_to
      &&> set_command_input task_rob_r Codes.command_none
      &&> set_target_position_input task_rob_l position
      &&> signal_run_sg_routine

  -- leftSetSettings
  unfoldable pub left_set_settings : SgSettings Num → R Jar Bool
  left_set_settings settings = set_settings task_rob_l settings

  -- leftVacuum1Off
  unfoldable pub left_vacuum_1_off : R Jar Bool
  left_vacuum_1_off =
      set_command_input task_rob_l Codes.command_vacuum_off_1
      &&> set_command_input task_rob_r Codes.command_none
      &&> signal_run_sg_routine

  -- leftVacuum1On
  unfoldable pub left_vacuum_1_on : R Jar Bool
  left_vacuum_1_on =
      set_command_input task_rob_l Codes.command_vacuum_on_1
      &&> set_command_input task_rob_r Codes.command_none
      &&> signal_run_sg_routine

  -- leftVacuum2Off
  unfoldable pub left_vacuum_2_off : R Jar Bool
  left_vacuum_2_off =
      set_command_input task_rob_l Codes.command_vacuum_off_2
      &&> set_command_input task_rob_r Codes.command_none
      &&> signal_run_sg_routine

  -- leftVacuum2On
  unfoldable pub left_vacuum_2_on : R Jar Bool
  left_vacuum_2_on =
      set_command_input task_rob_l Codes.command_vacuum_on_2
      &&> set_command_input task_rob_r Codes.command_none
      &&> signal_run_sg_routine

  -- rightBlow1Off
  unfoldable pub right_blow_1_off : R Jar Bool
  right_blow_1_off =
      set_command_input task_rob_l Codes.command_none
      &&> set_command_input task_rob_r Codes.command_blow_off_1
      &&> signal_run_sg_routine

  -- rightBlow1On
  unfoldable pub right_blow_1_on : R Jar Bool
  right_blow_1_on =
      set_command_input task_rob_l Codes.command_none
      &&> set_command_input task_rob_r Codes.command_blow_on_1
      &&> signal_run_sg_routine

  -- rightBlow2Off
  unfoldable pub right_blow_2_off : R Jar Bool
  right_blow_2_off =
      set_command_input task_rob_l Codes.command_none
      &&> set_command_input task_rob_r Codes.command_blow_off_2
      &&> signal_run_sg_routine

  -- rightBlow2On
  unfoldable pub right_blow_2_on : R Jar Bool
  right_blow_2_on =
      set_command_input task_rob_l Codes.command_none
      &&> set_command_input task_rob_r Codes.command_blow_on_2
      &&> signal_run_sg_routine

  -- rightCalibrate
  unfoldable pub right_calibrate : R Jar Bool
  right_calibrate =
      set_command_input task_rob_l Codes.command_none
      &&> set_command_input task_rob_r Codes.command_calibrate
      &&> signal_run_sg_routine

  -- rightGetSettings
  unfoldable pub right_get_settings :
      Option (Symbol Num Dnum) → R Jar (Bool × Option (Symbol Num Dnum))
  right_get_settings p_settings = get_settings task_rob_r p_settings

  -- rightGripIn
  unfoldable pub right_grip_in : R Jar Bool
  right_grip_in =
      set_command_input task_rob_l Codes.command_none
      &&> set_command_input task_rob_r Codes.command_grip_in
      &&> signal_run_sg_routine

  -- rightGripOut
  unfoldable pub right_grip_out : R Jar Bool
  right_grip_out =
      set_command_input task_rob_l Codes.command_none
      &&> set_command_input task_rob_r Codes.command_grip_out
      &&> signal_run_sg_routine

  -- rightInitialize
  unfoldable pub right_initialize : R Jar Bool
  right_initialize =
      set_command_input task_rob_l Codes.command_none
      &&> set_command_input task_rob_r Codes.command_initialize
      &&> signal_run_sg_routine

  -- rightMoveTo
  unfoldable pub right_move_to : Num → R Jar Bool
  right_move_to position =
      set_command_input task_rob_l Codes.command_none
      &&> set_command_input task_rob_r Codes.command_move_to
      &&> set_target_position_input task_rob_r position
      &&> signal_run_sg_routine

  -- rightSetSettings
  unfoldable pub right_set_settings : SgSettings Num → R Jar Bool
  right_set_settings settings = set_settings task_rob_r settings

  -- rightVacuum1Off
  unfoldable pub right_vacuum_1_off : R Jar Bool
  right_vacuum_1_off =
      set_command_input task_rob_l Codes.command_none
      &&> set_command_input task_rob_r Codes.command_vacuum_off_1
      &&> signal_run_sg_routine

  -- rightVacuum1On
  unfoldable pub right_vacuum_1_on : R Jar Bool
  right_vacuum_1_on =
      set_command_input task_rob_l Codes.command_none
      &&> set_command_input task_rob_r Codes.command_vacuum_on_1
      &&> signal_run_sg_routine

  -- rightVacuum2Off
  unfoldable pub right_vacuum_2_off : R Jar Bool
  right_vacuum_2_off =
      set_command_input task_rob_l Codes.command_none
      &&> set_command_input task_rob_r Codes.command_vacuum_off_2
      &&> signal_run_sg_routine

  -- rightVacuum2On
  unfoldable pub right_vacuum_2_on : R Jar Bool
  right_vacuum_2_on =
      set_command_input task_rob_l Codes.command_none
      &&> set_command_input task_rob_r Codes.command_vacuum_on_2
      &&> signal_run_sg_routine
