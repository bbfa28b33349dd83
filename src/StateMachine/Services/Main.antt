-- ===== src/StateMachine/Services/Main.antt =====
-- RWSStateMachineInterface::Services::Main
pub mod Sources
use abb_librws.Base.{
  Text, codes, is_empty, text_eq, Bool, true, false, Option, some, none, if◌then◌else◌, ◌++◌,
}
use abb_librws.Xml.{Node}
use abb_librws.Rapid.Atoms.{Floats}
use abb_librws.Rapid.Symbols.{num}
use abb_librws.Rapid.Numbers.{Conversions}
use abb_librws.Poco.Work.{Net, CookieStore}
use abb_librws.Client.Types.{R, ◌>>=◌, pure}
use abb_librws.Interface.{TriBool, unknown_value, tri_of, read_rapid_symbol_data, get_io_signal}
use abb_librws.StateMachine.{high}
use abb_librws.StateMachine.Identifiers.{in_task, main_current_state, output_stationary}
use abb_librws.StateMachine.Codes.{
  States, state_idle, state_unknown, state_initialize, state_run_rapid_routine,
  state_run_egm_routine, state_of,
}
use abb_librws.StateMachine.Services.Egm.{number_in}

-- The test of isStateIdle on the state
unfoldable pub idle_of : States → TriBool
idle_of state_idle = tri_of true
idle_of state_unknown = unknown_value
idle_of _ = tri_of false

-- The test of isStationary on the value of the signal
unfoldable pub stationary_of : Text → TriBool
stationary_of temp_stationary =
    if is_empty temp_stationary then unknown_value else tri_of (text_eq temp_stationary high)

module _ {Jar Num Dnum : Type 0} (fl : Floats Num Dnum) (conversions : Conversions Num Dnum)
    (net : Net) (store : CookieStore Jar) (parse_xml : Text → Option Node) where
  -- getCurrentState
  unfoldable pub get_current_state : Text → R Jar States
  get_current_state task = do
    answer ←
        read_rapid_symbol_data net store parse_xml fl (in_task task main_current_state)
          (some (num (conversions.of_nat 0)))
    pure (elim (number_in answer.1) [
      | none ↦ state_unknown
      | some x ↦ if answer.0 then state_of (conversions.to_int x) else state_unknown
    ])

  -- isStateIdle
  unfoldable pub is_state_idle : Text → R Jar TriBool
  is_state_idle task = do
    temp_current_state ← get_current_state task
    pure (idle_of temp_current_state)

module _ {Jar : Type 0} (net : Net) (store : CookieStore Jar) (parse_xml : Text → Option Node) where
  -- isStationary
  unfoldable pub is_stationary : Text → R Jar TriBool
  is_stationary mechanical_unit = do
    temp_stationary ←
        get_io_signal net store parse_xml (output_stationary ++ codes "_" ++ mechanical_unit)
    pure (stationary_of temp_stationary)
