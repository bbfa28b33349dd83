-- ===== src/SystemConstants/ContollerStates.antt =====
-- SystemConstants::ContollerStates of src/rws_common.cpp: states of the controller.
use abb_librws.Base.{Text, codes}

pub record ContollerStates : Type 0 where
  pub controller_motor_on : Text
  pub controller_motor_off : Text
  pub panel_operation_mode_auto : Text
  pub rapid_execution_running : Text

abbrev pub contoller_states : ContollerStates
contoller_states = record {
  controller_motor_on = codes "motoron";
  controller_motor_off = codes "motoroff";
  panel_operation_mode_auto = codes "AUTO";
  rapid_execution_running = codes "running";
}
