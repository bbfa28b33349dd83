-- ===== src/StateMachine.antt =====
-- src/rws_state_machine_interface.cpp: toggleIOSignal, by which the services of the StateMachine Add-In are
-- signalled.
use abb_librws.Base.{ℕ, zero, suc, Bool, true, false, Text, codes, text_eq, if◌then◌else◌, Option}
use abb_librws.Xml.{Node}
use abb_librws.Poco.Work.{Net, CookieStore}
use abb_librws.Client.Types.{R, ◌>>=◌, pure}
use abb_librws.Interface.{is_auto_mode, is_true, get_io_signal, set_io_signal}
pub mod Creation
pub mod Settings
pub mod ResourceIdentifiers
pub mod Identifiers
pub mod Codes
pub mod Services
pub mod Signals
pub mod Attempts
pub mod Bounds
pub mod Calls

abbrev pub low : Text
low = codes "0"

abbrev pub high : Text
high = codes "1"

abbrev pub max_number_of_attempts : ℕ
max_number_of_attempts = 5

module _ {Jar : Type 0} (net : Net) (store : CookieStore Jar) (parse_xml : Text → Option Node) where
  -- The body of both loops: the signal is set, and read back.
  unfoldable pub set_and_check : Text → Text → R Jar Bool
  set_and_check iosignal value = do
    result ← set_io_signal net store parse_xml iosignal value
    if result
        then (do read ← get_io_signal net store parse_xml iosignal; pure (text_eq read value))
        else pure false

  -- Both loops of toggleIOSignal: at most so many attempts, until one succeeds.
  unfoldable pub attempts : ℕ → Text → Text → R Jar Bool
  attempts zero iosignal value = pure false
  attempts (suc left) iosignal value = do
    result ← set_and_check iosignal value
    let rest = attempts left iosignal value
    if result then pure true else rest

  -- toggleIOSignal
  unfoldable pub toggle_io_signal : Text → R Jar Bool
  toggle_io_signal iosignal = do
    auto ← is_auto_mode net store parse_xml
    if is_true auto
        then (do
          lowered ← attempts max_number_of_attempts iosignal low
          if lowered then attempts max_number_of_attempts iosignal high else pure false)
        else pure false
