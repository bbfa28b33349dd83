-- ===== src/StateMachine/Identifiers.antt =====
-- The identifiers of src/rws_state_machine_interface.cpp: signals, modules, procedures and symbols.
use abb_librws.Base.{Text}
use abb_librws.SystemConstants.Rapid.{rapid}
pub use abb_librws.StateMachine.ResourceIdentifiers.{SymbolResource}
use abb_librws.StateMachine.ResourceIdentifiers.{io_signals, modules, procedures, symbols}
use abb_librws.Client.Types.{RapidResource}

-- RAPIDResource(task, symbol)
abbrev pub in_task : Text → SymbolResource → RapidResource
in_task task symbol = record { task = task; module_name = symbol.module_name; name = symbol.name }

-- The RAPID tasks of the two arms
abbrev pub task_rob_l : Text
task_rob_l = rapid.task_rob_l

abbrev pub task_rob_r : Text
task_rob_r = rapid.task_rob_r

-- IOSignals
abbrev pub egm_start_joint : Text
egm_start_joint = io_signals.egm_start_joint

abbrev pub egm_start_pose : Text
egm_start_pose = io_signals.egm_start_pose

abbrev pub egm_start_stream : Text
egm_start_stream = io_signals.egm_start_stream

abbrev pub egm_stop : Text
egm_stop = io_signals.egm_stop

abbrev pub egm_stop_stream : Text
egm_stop_stream = io_signals.egm_stop_stream

abbrev pub output_stationary : Text
output_stationary = io_signals.output_stationary

abbrev pub run_rapid_routine : Text
run_rapid_routine = io_signals.run_rapid_routine

abbrev pub run_sg_routine : Text
run_sg_routine = io_signals.run_sg_routine

abbrev pub wd_external_status : Text
wd_external_status = io_signals.wd_external_status

abbrev pub wd_stop_request : Text
wd_stop_request = io_signals.wd_stop_request

-- Modules
abbrev pub t_rob_egm : Text
t_rob_egm = modules.t_rob_egm

abbrev pub t_rob_main : Text
t_rob_main = modules.t_rob_main

abbrev pub t_rob_rapid : Text
t_rob_rapid = modules.t_rob_rapid

abbrev pub t_rob_sg : Text
t_rob_sg = modules.t_rob_sg

abbrev pub t_rob_utility : Text
t_rob_utility = modules.t_rob_utility

abbrev pub t_rob_watchdog : Text
t_rob_watchdog = modules.t_rob_watchdog

-- Procedures
abbrev pub run_call_by_var : Text
run_call_by_var = procedures.run_call_by_var

abbrev pub run_module_load : Text
run_module_load = procedures.run_module_load

abbrev pub run_module_unload : Text
run_module_unload = procedures.run_module_unload

abbrev pub run_move_abs_j : Text
run_move_abs_j = procedures.run_move_abs_j

abbrev pub run_move_j : Text
run_move_j = procedures.run_move_j

abbrev pub run_move_to_calibration_position : Text
run_move_to_calibration_position = procedures.run_move_to_calibration_position

-- Symbols
abbrev pub egm_current_action : SymbolResource
egm_current_action = symbols.egm_current_action

abbrev pub egm_settings_resource : SymbolResource
egm_settings_resource = symbols.egm_settings

abbrev pub main_current_state : SymbolResource
main_current_state = symbols.main_current_state

abbrev pub rapid_call_by_var_name_input : SymbolResource
rapid_call_by_var_name_input = symbols.rapid_call_by_var_name_input

abbrev pub rapid_call_by_var_num_input : SymbolResource
rapid_call_by_var_num_input = symbols.rapid_call_by_var_num_input

abbrev pub rapid_module_file_path_input : SymbolResource
rapid_module_file_path_input = symbols.rapid_module_file_path_input

abbrev pub rapid_move_joint_target_input : SymbolResource
rapid_move_joint_target_input = symbols.rapid_move_joint_target_input

abbrev pub rapid_move_rob_target_input : SymbolResource
rapid_move_rob_target_input = symbols.rapid_move_rob_target_input

abbrev pub rapid_move_speed_input : SymbolResource
rapid_move_speed_input = symbols.rapid_move_speed_input

abbrev pub rapid_routine_name_input : SymbolResource
rapid_routine_name_input = symbols.rapid_routine_name_input

abbrev pub sg_command_input : SymbolResource
sg_command_input = symbols.sg_command_input

abbrev pub sg_settings_resource : SymbolResource
sg_settings_resource = symbols.sg_settings

abbrev pub sg_target_postion_input : SymbolResource
sg_target_postion_input = symbols.sg_target_postion_input

abbrev pub utility_base_frame : SymbolResource
utility_base_frame = symbols.utility_base_frame

abbrev pub utility_calibration_target : SymbolResource
utility_calibration_target = symbols.utility_calibration_target

abbrev pub watchdog_active : SymbolResource
watchdog_active = symbols.watchdog_active

abbrev pub watchdog_check_external_status : SymbolResource
watchdog_check_external_status = symbols.watchdog_check_external_status
