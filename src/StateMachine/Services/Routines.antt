-- ===== src/StateMachine/Services/Routines.antt =====
-- RWSStateMachineInterface::Services::RAPID
pub mod Written
use abb_librws.Base.{ℕ, Text, Bool, Option}
use abb_librws.Xml.{Node}
use abb_librws.Rapid.Atoms.{Floats}
use abb_librws.Rapid.Symbols.{num, string}
use abb_librws.Rapid.Records.{
  JointTarget, joint_target_symbol, RobTarget, rob_target_symbol, SpeedData, speed_data_symbol,
}
use abb_librws.Rapid.Numbers.{Conversions}
use abb_librws.Poco.Work.{Net, CookieStore}
use abb_librws.Client.Types.{R}
use abb_librws.Interface.{write_rapid_symbol_data}
use abb_librws.StateMachine.{toggle_io_signal}
use abb_librws.StateMachine.Identifiers.{
  SymbolResource, in_task, rapid_call_by_var_name_input, rapid_call_by_var_num_input,
  rapid_module_file_path_input, rapid_move_joint_target_input, rapid_move_rob_target_input,
  rapid_move_speed_input, rapid_routine_name_input, run_rapid_routine, run_call_by_var,
  run_module_load, run_module_unload, run_move_abs_j, run_move_j, run_move_to_calibration_position,
}
use abb_librws.StateMachine.Services.{◌&&>◌}

module _ {Jar Num Dnum : Type 0} (fl : Floats Num Dnum) (net : Net) (store : CookieStore Jar)
    (parse_xml : Text → Option Node) where
  -- setRoutineName
  unfoldable pub set_routine_name : Text → Text → R Jar Bool
  set_routine_name task routine_name =
      write_rapid_symbol_data net store parse_xml fl (in_task task rapid_routine_name_input)
        (string routine_name)

  -- signalRunRAPIDRoutine
  unfoldable pub signal_run_rapid_routine : R Jar Bool
  signal_run_rapid_routine = toggle_io_signal net store parse_xml run_rapid_routine

  -- The end of every run: the routine is named, and the signal toggled.
  unfoldable pub run_named : Text → Text → R Jar Bool
  run_named task routine = set_routine_name task routine &&> signal_run_rapid_routine

  -- runCallByVar
  unfoldable pub run_call_by_var_routine : Conversions Num Dnum → Text → Text → ℕ → R Jar Bool
  run_call_by_var_routine conversions task routine_name routine_number =
      write_rapid_symbol_data net store parse_xml fl (in_task task rapid_call_by_var_name_input)
        (string routine_name)
      &&> write_rapid_symbol_data net store parse_xml fl (in_task task rapid_call_by_var_num_input)
          (num (conversions.of_nat routine_number))
      &&> run_named task run_call_by_var

  -- runModuleLoad
  unfoldable pub run_module_load_routine : Text → Text → R Jar Bool
  run_module_load_routine task file_path =
      write_rapid_symbol_data net store parse_xml fl (in_task task rapid_module_file_path_input)
        (string file_path)
      &&> run_named task run_module_load

  -- runModuleUnload
  unfoldable pub run_module_unload_routine : Text → Text → R Jar Bool
  run_module_unload_routine task file_path =
      write_rapid_symbol_data net store parse_xml fl (in_task task rapid_module_file_path_input)
        (string file_path)
      &&> run_named task run_module_unload

  -- runMoveAbsJ
  unfoldable pub run_move_abs_j_routine : Text → JointTarget Num → R Jar Bool
  run_move_abs_j_routine task joint_target =
      write_rapid_symbol_data net store parse_xml fl (in_task task rapid_move_joint_target_input)
        (joint_target_symbol joint_target)
      &&> run_named task run_move_abs_j

  -- runMoveJ
  unfoldable pub run_move_j_routine : Text → RobTarget Num → R Jar Bool
  run_move_j_routine task rob_target =
      write_rapid_symbol_data net store parse_xml fl (in_task task rapid_move_rob_target_input)
        (rob_target_symbol rob_target)
      &&> run_named task run_move_j

  -- runMoveToCalibrationPosition
  unfoldable pub run_move_to_calibration_position_routine : Text → R Jar Bool
  run_move_to_calibration_position_routine task = run_named task run_move_to_calibration_position

  -- setMoveSpeed
  unfoldable pub set_move_speed : Text → SpeedData Num → R Jar Bool
  set_move_speed task speed_data =
      write_rapid_symbol_data net store parse_xml fl (in_task task rapid_move_speed_input)
        (speed_data_symbol speed_data)
