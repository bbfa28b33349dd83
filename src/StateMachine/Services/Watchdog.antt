-- ===== src/StateMachine/Services/Watchdog.antt =====
-- RWSStateMachineInterface::Services::Watchdog, and Utility.
use abb_librws.Base.{Text, Bool, false, Option, some, none, if◌then◌else◌}
use abb_librws.Xml.{Node}
use abb_librws.Rapid.Atoms.{Floats}
use abb_librws.Rapid.Symbols.{Symbol, bool}
use abb_librws.Poco.Work.{Net, CookieStore}
use abb_librws.Client.Types.{R, ◌>>=◌, pure}
use abb_librws.Interface.{TriBool, unknown_value, tri_of, read_rapid_symbol_data, set_io_signal}
use abb_librws.StateMachine.{high, toggle_io_signal}
use abb_librws.StateMachine.Identifiers.{
  SymbolResource, in_task, watchdog_active, watchdog_check_external_status, wd_external_status,
  wd_stop_request, utility_base_frame, utility_calibration_target,
}

-- The value that a RAPIDBool holds
abbrev pub flag_in : {Num Dnum : Type 0} → Option (Symbol Num Dnum) → Option Bool
flag_in (some (bool b)) = some b
flag_in _ = none

module _ {Jar Num Dnum : Type 0} (fl : Floats Num Dnum) (net : Net) (store : CookieStore Jar)
    (parse_xml : Text → Option Node) where
  -- The body of isActive and isCheckingExternalStatus, for their symbols
  unfoldable pub read_flag : Text → SymbolResource → R Jar TriBool
  read_flag task symbol = do
    answer ← read_rapid_symbol_data net store parse_xml fl (in_task task symbol) (some (bool false))
    pure (elim (flag_in answer.1) [
      | none ↦ unknown_value
      | some b ↦ if answer.0 then tri_of b else unknown_value
    ])

  -- isActive
  unfoldable pub is_active : Text → R Jar TriBool
  is_active task = read_flag task watchdog_active

  -- isCheckingExternalStatus
  unfoldable pub is_checking_external_status : Text → R Jar TriBool
  is_checking_external_status task = read_flag task watchdog_check_external_status

  -- getBaseFrame
  unfoldable pub get_base_frame :
      Text → Option (Symbol Num Dnum) → R Jar (Bool × Option (Symbol Num Dnum))
  get_base_frame task p_base_frame =
      read_rapid_symbol_data net store parse_xml fl (in_task task utility_base_frame) p_base_frame

  -- getCalibrationTarget
  unfoldable pub get_calibration_target :
      Text → Option (Symbol Num Dnum) → R Jar (Bool × Option (Symbol Num Dnum))
  get_calibration_target task p_calibration_joint_target =
      read_rapid_symbol_data net store parse_xml fl (in_task task utility_calibration_target)
        p_calibration_joint_target

module _ {Jar : Type 0} (net : Net) (store : CookieStore Jar) (parse_xml : Text → Option Node) where
  -- setExternalStatusSignal
  unfoldable pub set_external_status_signal : R Jar Bool
  set_external_status_signal = set_io_signal net store parse_xml wd_external_status high

  -- signalStopRequest
  unfoldable pub signal_stop_request : R Jar Bool
  signal_stop_request = toggle_io_signal net store parse_xml wd_stop_request
