-- ===== src/StateMachine/Settings.antt =====
-- The record classes of include/abb_librws/rws_state_machine_interface.h.
use abb_librws.Base.{Bool, codes, [], ◌∷◌}
use abb_librws.Rapid.Symbols.{Symbol, bool, num, struct}
use abb_librws.Rapid.Records.{
  nums, all_of, ToolData, tool_data_symbol, WobjData, wobj_data_symbol, Pose, pose_symbol,
}

-- EGMSetupUCSettings
pub record EgmSetupUcSettings (Num : Type 0) : Type 0 where
  pub use_filtering : Bool
  pub comm_timeout : Num

abbrev pub egm_setup_uc_settings_symbol :
    {Num Dnum : Type 0} → EgmSetupUcSettings Num → Symbol Num Dnum
egm_setup_uc_settings_symbol r =
    struct (codes "EGMSetupUCSettings") (all_of (bool r.use_filtering ∷ num r.comm_timeout ∷ []))

-- EGMActivateSettings
pub record EgmActivateSettings (Num : Type 0) : Type 0 where
  pub tool : ToolData Num
  pub wobj : WobjData Num
  pub correction_frame : Pose Num
  pub sensor_frame : Pose Num
  pub cond_min_max : Num
  pub lp_filter : Num
  pub sample_rate : Num
  pub max_speed_deviation : Num

abbrev pub egm_activate_settings_symbol :
    {Num Dnum : Type 0} → EgmActivateSettings Num → Symbol Num Dnum
egm_activate_settings_symbol r = struct (codes "EGMActivateSettings") (
    all_of (
      tool_data_symbol r.tool
      ∷ wobj_data_symbol r.wobj
      ∷ pose_symbol r.correction_frame
      ∷ pose_symbol r.sensor_frame
      ∷ num r.cond_min_max
      ∷ num r.lp_filter
      ∷ num r.sample_rate
      ∷ num r.max_speed_deviation
      ∷ []))

-- EGMRunSettings
pub record EgmRunSettings (Num : Type 0) : Type 0 where
  pub cond_time : Num
  pub ramp_in_time : Num
  pub offset : Pose Num
  pub pos_corr_gain : Num

abbrev pub egm_run_settings_symbol : {Num Dnum : Type 0} → EgmRunSettings Num → Symbol Num Dnum
egm_run_settings_symbol r = struct (codes "EGMRunSettings") (
    all_of (num r.cond_time ∷ num r.ramp_in_time ∷ pose_symbol r.offset ∷ num r.pos_corr_gain ∷ []))

-- EGMStopSettings
pub record EgmStopSettings (Num : Type 0) : Type 0 where
  pub ramp_out_time : Num

abbrev pub egm_stop_settings_symbol : {Num Dnum : Type 0} → EgmStopSettings Num → Symbol Num Dnum
egm_stop_settings_symbol r = struct (codes "EGMStopSettings") (nums (r.ramp_out_time ∷ []))

-- EGMSettings
pub record EgmSettings (Num : Type 0) : Type 0 where
  pub allow_egm_motions : Bool
  pub use_presync : Bool
  pub setup_uc : EgmSetupUcSettings Num
  pub activate : EgmActivateSettings Num
  pub run : EgmRunSettings Num
  pub stop : EgmStopSettings Num

abbrev pub egm_settings_symbol : {Num Dnum : Type 0} → EgmSettings Num → Symbol Num Dnum
egm_settings_symbol r = struct (codes "EGMSettings") (
    all_of (
      bool r.allow_egm_motions
      ∷ bool r.use_presync
      ∷ egm_setup_uc_settings_symbol r.setup_uc
      ∷ egm_activate_settings_symbol r.activate
      ∷ egm_run_settings_symbol r.run
      ∷ egm_stop_settings_symbol r.stop
      ∷ []))

-- SGSettings
pub record SgSettings (Num : Type 0) : Type 0 where
  pub max_speed : Num
  pub hold_force : Num
  pub physical_limit : Num

abbrev pub sg_settings_symbol : {Num Dnum : Type 0} → SgSettings Num → Symbol Num Dnum
sg_settings_symbol r =
    struct (codes "SGSettings") (nums (r.max_speed ∷ r.hold_force ∷ r.physical_limit ∷ []))
