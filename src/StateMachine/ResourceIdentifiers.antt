-- ===== src/StateMachine/ResourceIdentifiers.antt =====
-- ResourceIdentifiers of include/abb_librws/rws_state_machine_interface.h, with the values of
-- src/rws_state_machine_interface.cpp: a record for each of its structures.
use abb_librws.Base.{Text, codes}

-- RWSClient::RAPIDSymbolResource
pub record SymbolResource : Type 0 where
  pub module_name : Text
  pub name : Text

-- IOSignals
pub record IoSignals : Type 0 where
  pub egm_start_joint : Text
  pub egm_start_pose : Text
  pub egm_start_stream : Text
  pub egm_stop : Text
  pub egm_stop_stream : Text
  pub output_stationary : Text
  pub run_rapid_routine : Text
  pub run_sg_routine : Text
  pub wd_external_status : Text
  pub wd_stop_request : Text

abbrev pub io_signals : IoSignals
io_signals = record {
  egm_start_joint = codes "EGM_START_JOINT";
  egm_start_pose = codes "EGM_START_POSE";
  egm_start_stream = codes "EGM_START_STREAM";
  egm_stop = codes "EGM_STOP";
  egm_stop_stream = codes "EGM_STOP_STREAM";
  output_stationary = codes "OUTPUT_STATIONARY";
  run_rapid_routine = codes "RUN_RAPID_ROUTINE";
  run_sg_routine = codes "RUN_SG_ROUTINE";
  wd_external_status = codes "WD_EXTERNAL_STATUS";
  wd_stop_request = codes "WD_STOP_REQUEST";
}

-- Modules
pub record Modules : Type 0 where
  pub t_rob_egm : Text
  pub t_rob_main : Text
  pub t_rob_rapid : Text
  pub t_rob_sg : Text
  pub t_rob_utility : Text
  pub t_rob_watchdog : Text

abbrev pub modules : Modules
modules = record {
  t_rob_egm = codes "TRobEGM";
  t_rob_main = codes "TRobMain";
  t_rob_rapid = codes "TRobRAPID";
  t_rob_sg = codes "TRobSG";
  t_rob_utility = codes "TRobUtility";
  t_rob_watchdog = codes "TRobWatchdog";
}

-- Procedures
pub record Procedures : Type 0 where
  pub run_call_by_var : Text
  pub run_module_load : Text
  pub run_module_unload : Text
  pub run_move_abs_j : Text
  pub run_move_j : Text
  pub run_move_to_calibration_position : Text

abbrev pub procedures : Procedures
procedures = record {
  run_call_by_var = codes "runCallByVar";
  run_module_load = codes "runModuleLoad";
  run_module_unload = codes "runModuleUnload";
  run_move_abs_j = codes "runMoveAbsJ";
  run_move_j = codes "runMoveJ";
  run_move_to_calibration_position = codes "runMoveToCalibrationPosition";
}

-- Symbols
pub record Symbols : Type 0 where
  pub egm_current_action : SymbolResource
  pub egm_settings : SymbolResource
  pub main_current_state : SymbolResource
  pub rapid_call_by_var_name_input : SymbolResource
  pub rapid_call_by_var_num_input : SymbolResource
  pub rapid_module_file_path_input : SymbolResource
  pub rapid_move_joint_target_input : SymbolResource
  pub rapid_move_rob_target_input : SymbolResource
  pub rapid_move_speed_input : SymbolResource
  pub rapid_routine_name_input : SymbolResource
  pub sg_command_input : SymbolResource
  pub sg_settings : SymbolResource
  pub sg_target_postion_input : SymbolResource
  pub utility_base_frame : SymbolResource
  pub utility_calibration_target : SymbolResource
  pub watchdog_active : SymbolResource
  pub watchdog_check_external_status : SymbolResource

abbrev pub symbols : Symbols
symbols = record {
  egm_current_action = record { module_name = modules.t_rob_egm; name = codes "current_action" };
  egm_settings = record { module_name = modules.t_rob_egm; name = codes "settings" };
  main_current_state = record { module_name = modules.t_rob_main; name = codes "current_state" };
  rapid_call_by_var_name_input = record {
    module_name = modules.t_rob_rapid;
    name = codes "callbyvar_name_input";
  };
  rapid_call_by_var_num_input = record {
    module_name = modules.t_rob_rapid;
    name = codes "callbyvar_num_input";
  };
  rapid_module_file_path_input = record {
    module_name = modules.t_rob_rapid;
    name = codes "module_file_path_input";
  };
  rapid_move_joint_target_input = record {
    module_name = modules.t_rob_rapid;
    name = codes "move_jointtarget_input";
  };
  rapid_move_rob_target_input = record {
    module_name = modules.t_rob_rapid;
    name = codes "move_robtarget_input";
  };
  rapid_move_speed_input = record {
    module_name = modules.t_rob_rapid;
    name = codes "move_speed_input";
  };
  rapid_routine_name_input = record {
    module_name = modules.t_rob_rapid;
    name = codes "routine_name_input";
  };
  sg_command_input = record { module_name = modules.t_rob_sg; name = codes "command_input" };
  sg_settings = record { module_name = modules.t_rob_sg; name = codes "settings" };
  sg_target_postion_input = record {
    module_name = modules.t_rob_sg;
    name = codes "target_position_input";
  };
  utility_base_frame = record { module_name = modules.t_rob_utility; name = codes "base_frame" };
  utility_calibration_target = record {
    module_name = modules.t_rob_utility;
    name = codes "calibration_target";
  };
  watchdog_active = record { module_name = modules.t_rob_watchdog; name = codes "active" };
  watchdog_check_external_status = record {
    module_name = modules.t_rob_watchdog;
    name = codes "check_external_status";
  };
}
