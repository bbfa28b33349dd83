-- ===== src/SystemConstants/General.antt =====
-- SystemConstants::General of src/rws_common.cpp: general constants.
use abb_librws.Base.{ℕ, Text, codes}

pub record General : Type 0 where
  pub external_application : Text
  pub external_location : Text
  pub default_port_number : ℕ
  pub default_password : Text
  pub default_username : Text
  pub local : Text
  pub mechanical_unit_rob_1 : Text
  pub mechanical_unit_rob_2 : Text
  pub mechanical_unit_rob_3 : Text
  pub mechanical_unit_rob_4 : Text
  pub mechanical_unit_rob_l : Text
  pub mechanical_unit_rob_r : Text
  pub remote : Text
  pub coordinate_base : Text
  pub coordinate_world : Text
  pub coordinate_tool : Text
  pub coordinate_wobj : Text

abbrev pub general : General
general = record {
  external_application = codes "ExternalApplication";
  external_location = codes "ExternalLocation";
  default_port_number = 80;
  default_password = codes "robotics";
  default_username = codes "Default User";
  local = codes "local";
  mechanical_unit_rob_1 = codes "ROB_1";
  mechanical_unit_rob_2 = codes "ROB_2";
  mechanical_unit_rob_3 = codes "ROB_3";
  mechanical_unit_rob_4 = codes "ROB_4";
  mechanical_unit_rob_l = codes "ROB_L";
  mechanical_unit_rob_r = codes "ROB_R";
  remote = codes "remote";
  coordinate_base = codes "Base";
  coordinate_world = codes "Word";
  coordinate_tool = codes "Tool";
  coordinate_wobj = codes "Wobj";
}
