-- ===== src/SystemConstants/Identifiers.antt =====
-- SystemConstants::RWS::Identifiers of src/rws_common.cpp: identifiers in the messages of Robot Web Services.
use abb_librws.Base.{Text, codes}

pub record Identifiers : Type 0 where
  pub active : Text
  pub arm : Text
  pub class : Text
  pub cfg_dt_instance_li : Text
  pub cfg_ia_t_li : Text
  pub ctrl_type : Text
  pub ctrlexecstate : Text
  pub ctrlstate : Text
  pub dattyp : Text
  pub excstate : Text
  pub home_directory : Text
  pub ios_signal : Text
  pub mechanical_unit : Text
  pub mechanical_unit_group : Text
  pub moc : Text
  pub motiontask : Text
  pub name : Text
  pub lvalue : Text
  pub opmode : Text
  pub present_options : Text
  pub rap_module_info_li : Text
  pub rap_task_li : Text
  pub robot : Text
  pub rw_version_name : Text
  pub single : Text
  pub state : Text
  pub sys : Text
  pub sys_option_li : Text
  pub sys_system_li : Text
  pub title : Text
  pub type : Text
  pub value : Text
  pub option : Text

abbrev pub identifiers : Identifiers
identifiers = record {
  active = codes "active";
  arm = codes "arm";
  class = codes "class";
  cfg_dt_instance_li = codes "cfg-dt-instance-li";
  cfg_ia_t_li = codes "cfg-ia-t-li";
  ctrl_type = codes "ctrl-type";
  ctrlexecstate = codes "ctrlexecstate";
  ctrlstate = codes "ctrlstate";
  dattyp = codes "dattyp";
  excstate = codes "excstate";
  home_directory = codes "$home";
  ios_signal = codes "ios-signal";
  mechanical_unit = codes "mechanical_unit";
  mechanical_unit_group = codes "mechanical_unit_group";
  moc = codes "moc";
  motiontask = codes "motiontask";
  name = codes "name";
  lvalue = codes "lvalue";
  opmode = codes "opmode";
  present_options = codes "present_options";
  rap_module_info_li = codes "rap-module-info-li";
  rap_task_li = codes "rap-task-li";
  robot = codes "robot";
  rw_version_name = codes "rwversionname";
  single = codes "single";
  state = codes "state";
  sys = codes "sys";
  sys_option_li = codes "sys-option-li";
  sys_system_li = codes "sys-system-li";
  title = codes "title";
  type = codes "type";
  value = codes "value";
  option = codes "option";
}
