-- ===== src/SystemConstants/Resources.antt =====
-- SystemConstants::RWS::Resources of src/rws_common.cpp: resources of the services.
use abb_librws.Base.{Text, codes, ◌++◌}
use abb_librws.SystemConstants.Services.{services}

pub record Resources : Type 0 where
  pub instances : Text
  pub jointtarget : Text
  pub logout : Text
  pub robtarget : Text
  pub rw_cfg : Text
  pub rw_iosystem_signals : Text
  pub rw_mastership : Text
  pub rw_motionsystem_mechunits : Text
  pub rw_panel_ctrlstate : Text
  pub rw_panel_opmode : Text
  pub rw_rapid_execution : Text
  pub rw_rapid_modules : Text
  pub rw_rapid_symbol_data_rapid : Text
  pub rw_rapid_symbol_properties_rapid : Text
  pub rw_rapid_tasks : Text
  pub rw_system : Text

abbrev pub resources : Resources
resources = record {
  instances = codes "/instances";
  jointtarget = codes "/jointtarget";
  logout = codes "/logout";
  robtarget = codes "/robtarget";
  rw_cfg = services.rw ++ codes "/cfg";
  rw_iosystem_signals = services.rw ++ codes "/iosystem/signals";
  rw_mastership = services.rw ++ codes "/mastership";
  rw_motionsystem_mechunits = services.rw ++ codes "/motionsystem/mechunits";
  rw_panel_ctrlstate = services.rw ++ codes "/panel/ctrlstate";
  rw_panel_opmode = services.rw ++ codes "/panel/opmode";
  rw_rapid_execution = services.rw ++ codes "/rapid/execution";
  rw_rapid_modules = services.rw ++ codes "/rapid/modules";
  rw_rapid_symbol_data_rapid = services.rw ++ codes "/rapid/symbol/data/RAPID";
  rw_rapid_symbol_properties_rapid = services.rw ++ codes "/rapid/symbol/properties/RAPID";
  rw_rapid_tasks = services.rw ++ codes "/rapid/tasks";
  rw_system = services.rw ++ codes "/system";
}
