-- ===== src/SystemConstants/Rapid.antt =====
-- SystemConstants::RAPID of src/rws_common.cpp: RAPID values, tasks and types.
use abb_librws.Base.{Text, codes}

pub record Rapid : Type 0 where
  pub rapid_false : Text
  pub rapid_true : Text
  pub task_rob_1 : Text
  pub task_rob_2 : Text
  pub task_rob_3 : Text
  pub task_rob_4 : Text
  pub task_rob_l : Text
  pub task_rob_r : Text
  pub type_bool : Text
  pub type_dnum : Text
  pub type_num : Text
  pub type_string : Text

abbrev pub rapid : Rapid
rapid = record {
  rapid_false = codes "FALSE";
  rapid_true = codes "TRUE";
  task_rob_1 = codes "T_ROB1";
  task_rob_2 = codes "T_ROB2";
  task_rob_3 = codes "T_ROB3";
  task_rob_4 = codes "T_ROB4";
  task_rob_l = codes "T_ROB_L";
  task_rob_r = codes "T_ROB_R";
  type_bool = codes "bool";
  type_dnum = codes "dnum";
  type_num = codes "num";
  type_string = codes "string";
}
