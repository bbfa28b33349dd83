-- ===== src/StateMachine/Services/Egm.antt =====
-- RWSStateMachineInterface::Services::EGM
use abb_librws.Base.{Text, Bool, Option, some, none, if◌then◌else◌}
use abb_librws.Xml.{Node}
use abb_librws.Rapid.Atoms.{Floats}
use abb_librws.Rapid.Symbols.{Symbol, num}
use abb_librws.Rapid.Numbers.{Conversions}
use abb_librws.Poco.Work.{Net, CookieStore}
use abb_librws.Client.Types.{R, ◌>>=◌, pure}
use abb_librws.Interface.{read_rapid_symbol_data, write_rapid_symbol_data}
use abb_librws.StateMachine.{toggle_io_signal}
use abb_librws.StateMachine.Identifiers.{
  in_task, egm_current_action, egm_settings_resource, egm_start_joint, egm_start_pose,
  egm_start_stream, egm_stop, egm_stop_stream,
}
use abb_librws.StateMachine.Settings.{EgmSettings, egm_settings_symbol}
use abb_librws.StateMachine.Codes.{EgmActions, egm_action_unknown, action_of}

-- The number that a RAPIDNum holds
abbrev pub number_in : {Num Dnum : Type 0} → Option (Symbol Num Dnum) → Option Num
number_in (some (num x)) = some x
number_in _ = none

module _ {Jar Num Dnum : Type 0} (fl : Floats Num Dnum) (conversions : Conversions Num Dnum)
    (net : Net) (store : CookieStore Jar) (parse_xml : Text → Option Node) where
  -- getCurrentAction
  unfoldable pub get_current_action : Text → R Jar EgmActions
  get_current_action task = do
    answer ←
        read_rapid_symbol_data net store parse_xml fl (in_task task egm_current_action)
          (some (num (conversions.of_nat 0)))
    pure (elim (number_in answer.1) [
      | none ↦ egm_action_unknown
      | some x ↦ if answer.0 then action_of (conversions.to_int x) else egm_action_unknown
    ])

  -- getSettings
  unfoldable pub get_egm_settings :
      Text → Option (Symbol Num Dnum) → R Jar (Bool × Option (Symbol Num Dnum))
  get_egm_settings task p_settings =
      read_rapid_symbol_data net store parse_xml fl (in_task task egm_settings_resource) p_settings

  -- setSettings
  unfoldable pub set_egm_settings : Text → EgmSettings Num → R Jar Bool
  set_egm_settings task settings =
      write_rapid_symbol_data net store parse_xml fl (in_task task egm_settings_resource)
        (egm_settings_symbol settings)

  -- signalEGMStartJoint
  unfoldable pub signal_egm_start_joint : R Jar Bool
  signal_egm_start_joint = toggle_io_signal net store parse_xml egm_start_joint

  -- signalEGMStartPose
  unfoldable pub signal_egm_start_pose : R Jar Bool
  signal_egm_start_pose = toggle_io_signal net store parse_xml egm_start_pose

  -- signalEGMStartStream
  unfoldable pub signal_egm_start_stream : R Jar Bool
  signal_egm_start_stream = toggle_io_signal net store parse_xml egm_start_stream

  -- signalEGMStop
  unfoldable pub signal_egm_stop : R Jar Bool
  signal_egm_stop = toggle_io_signal net store parse_xml egm_stop

  -- signalEGMStopStream
  unfoldable pub signal_egm_stop_stream : R Jar Bool
  signal_egm_stop_stream = toggle_io_signal net store parse_xml egm_stop_stream
