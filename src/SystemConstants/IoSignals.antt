-- ===== src/SystemConstants/IoSignals.antt =====
-- SystemConstants::IOSignals of src/rws_common.cpp: signals of the grippers, and their values.
use abb_librws.Base.{Text, codes}

pub record IoSignals : Type 0 where
  pub hand_actual_position_l : Text
  pub hand_actual_position_r : Text
  pub hand_actual_speed_l : Text
  pub hand_actual_speed_r : Text
  pub hand_status_calibrated_l : Text
  pub hand_status_calibrated_r : Text
  pub high : Text
  pub low : Text

abbrev pub io_signals : IoSignals
io_signals = record {
  hand_actual_position_l = codes "hand_ActualPosition_L";
  hand_actual_position_r = codes "hand_ActualPosition_R";
  hand_actual_speed_l = codes "hand_ActualSpeed_L";
  hand_actual_speed_r = codes "hand_ActualSpeed_R";
  hand_status_calibrated_l = codes "hand_StatusCalibrated_L";
  hand_status_calibrated_r = codes "hand_StatusCalibrated_R";
  high = codes "1";
  low = codes "0";
}
