-- ===== src/StateMachine/Calls/Rules.antt =====
-- What the parts of the services keep: the signals, and reading and writing RAPID data.
use abb_librws.Base.{ℕ, zero, suc, Bool, true, false, Text, Option}
use abb_librws.Xml.{Node}
use abb_librws.Rapid.Atoms.{Floats}
use abb_librws.Rapid.Numbers.{Conversions}
use abb_librws.Rapid.Symbols.{Symbol}
use abb_librws.Poco.Work.{Net, CookieStore}
use abb_librws.Poco.Work.Rules.{Leads, Leads-if}
use abb_librws.Client.Types.{RwsResult, RapidResource, R, pure}
use abb_librws.Client.Requests
use abb_librws.Client.Commands
use abb_librws.Client.Actions.{Leads-keep}
use abb_librws.Client.Actions.Order.{
  Kept, Leads-pure, Leads-get_document, Leads-post_and_accept, Leads-get_rapid_symbol_data,
}
use abb_librws.Interface.{
  succeeded, is_true, is_auto_mode, get_io_signal, set_io_signal, read_rapid_symbol_data,
  write_rapid_symbol_data,
}
use abb_librws.StateMachine.{
  low, high, max_number_of_attempts, set_and_check, attempts, toggle_io_signal,
}
use abb_librws.StateMachine.Identifiers.{task_rob_l, task_rob_r}
use abb_librws.StateMachine.Codes.{SgCommand}
use abb_librws.StateMachine.Settings.{SgSettings}
use abb_librws.StateMachine.Services.{◌&&>◌}
use abb_librws.StateMachine.Services.Routines
use abb_librws.StateMachine.Services.Grippers

module _ {Jar : Type 0} (net : Net) (store : CookieStore Jar) (parse_xml : Text → Option Node)
    (b : Bool) where
  -- A method that leaves the WebSocket alone, and keeps the log within its limit
  abbrev pub Keeps : {A : Type 0} → R Jar A → Type 0
  Keeps m = Leads (Kept net store parse_xml b) (Kept net store parse_xml b) m

  pub Keeps-succeeded : (m : R Jar RwsResult) → Keeps m → Keeps (succeeded m)
  Keeps-succeeded m h = Leads-keep m _ h (λ r. Leads-pure net parse_xml b _)

  pub Keeps-and : (m k : R Jar Bool) → Keeps m → Keeps k → Keeps (m &&> k)
  Keeps-and m k h g =
      Leads-keep m _ h (λ x. Leads-if x k (pure false) g (Leads-pure net parse_xml b false))

  pub Keeps-is_auto_mode : Keeps (is_auto_mode net store parse_xml)
  unfolding is_auto_mode Requests.get_panel_operation_mode
  Keeps-is_auto_mode =
      Leads-keep _ _ (Leads-get_document net store parse_xml b _)
        (λ r. Leads-pure net parse_xml b _)

  pub Keeps-get_io_signal : (iosignal : Text) → Keeps (get_io_signal net store parse_xml iosignal)
  unfolding get_io_signal Requests.get_io_signal
  Keeps-get_io_signal iosignal =
      Leads-keep _ _ (Leads-get_document net store parse_xml b _)
        (λ r. Leads-pure net parse_xml b _)

  pub Keeps-set_io_signal :
      (iosignal value : Text) → Keeps (set_io_signal net store parse_xml iosignal value)
  unfolding set_io_signal Commands.set_io_signal
  Keeps-set_io_signal iosignal value =
      Keeps-succeeded _ (Leads-post_and_accept net store parse_xml b _ _ _)

  pub Keeps-set_and_check :
      (iosignal value : Text) → Keeps (set_and_check net store parse_xml iosignal value)
  unfolding set_and_check
  Keeps-set_and_check iosignal value = Leads-keep _ _ (Keeps-set_io_signal iosignal value) λ result.
      Leads-if result _ (pure false)
        (Leads-keep _ _ (Keeps-get_io_signal iosignal) (λ read. Leads-pure net parse_xml b _))
        (Leads-pure net parse_xml b false)

  pub Keeps-attempts :
      (left : ℕ) (iosignal value : Text) → Keeps (attempts net store parse_xml left iosignal value)
  unfolding attempts
  Keeps-attempts zero iosignal value = Leads-pure net parse_xml b false
  Keeps-attempts (suc left) iosignal value =
      let rest = Keeps-attempts left iosignal value in
      Leads-keep _ _ (Keeps-set_and_check iosignal value)
        (λ result. Leads-if result (pure true) _ (Leads-pure net parse_xml b true) rest)

  pub Keeps-toggle : (iosignal : Text) → Keeps (toggle_io_signal net store parse_xml iosignal)
  unfolding toggle_io_signal
  Keeps-toggle iosignal = Leads-keep _ _ Keeps-is_auto_mode λ auto.
      Leads-if (is_true auto) _ (pure false)
        (Leads-keep _ _ (Keeps-attempts max_number_of_attempts iosignal low) λ lowered.
          Leads-if lowered _ (pure false) (Keeps-attempts max_number_of_attempts iosignal high)
            (Leads-pure net parse_xml b false))
        (Leads-pure net parse_xml b false)

  module _ {Num Dnum : Type 0} (fl : Floats Num Dnum) where
    pub Keeps-read :
        (resource : RapidResource) (p_data : Option (Symbol Num Dnum))
        → Keeps (read_rapid_symbol_data net store parse_xml fl resource p_data)
    unfolding read_rapid_symbol_data
    Keeps-read resource p_data =
        Leads-keep _ _ (Leads-get_rapid_symbol_data net store parse_xml b fl resource p_data)
          (λ r. Leads-pure net parse_xml b _)

    pub Keeps-write :
        (resource : RapidResource) (symbol : Symbol Num Dnum)
        → Keeps (write_rapid_symbol_data net store parse_xml fl resource symbol)
    unfolding write_rapid_symbol_data Commands.set_rapid_symbol_data Commands.set_rapid_symbol_text
    Keeps-write resource symbol =
        Keeps-succeeded _ (Leads-post_and_accept net store parse_xml b _ _ _)

    pub Keeps-set_routine_name :
        (task name : Text) → Keeps (Routines.set_routine_name fl net store parse_xml task name)
    unfolding Routines.set_routine_name
    Keeps-set_routine_name task name = Keeps-write _ _

    pub Keeps-run_named :
        (task routine : Text) → Keeps (Routines.run_named fl net store parse_xml task routine)
    unfolding Routines.run_named Routines.signal_run_rapid_routine
    Keeps-run_named task routine =
        Keeps-and _ _ (Keeps-set_routine_name task routine) (Keeps-toggle _)

    module _ (conversions : Conversions Num Dnum) where
      pub Keeps-set_command_input :
          (task : Text) (command : SgCommand)
          → Keeps (Grippers.set_command_input fl conversions net store parse_xml task command)
      unfolding Grippers.set_command_input
      Keeps-set_command_input task command = Keeps-write _ _

      pub Keeps-set_target_position_input :
          (task : Text) (position : Num)
          → Keeps
              (Grippers.set_target_position_input fl conversions net store parse_xml task position)
      unfolding Grippers.set_target_position_input
      Keeps-set_target_position_input task position = Keeps-write _ _

      pub Keeps-signal : Keeps (Grippers.signal_run_sg_routine fl conversions net store parse_xml)
      unfolding Grippers.signal_run_sg_routine
      Keeps-signal = Keeps-toggle _

      pub Keeps-commands :
          (left right : SgCommand)
          → Keeps (
              Grippers.set_command_input fl conversions net store parse_xml task_rob_l left
              &&> Grippers.set_command_input fl conversions net store parse_xml task_rob_r right
              &&> Grippers.signal_run_sg_routine fl conversions net store parse_xml)
      Keeps-commands left right =
          Keeps-and _ _ (Keeps-set_command_input _ left)
            (Keeps-and _ _ (Keeps-set_command_input _ right) Keeps-signal)

      pub Keeps-get_settings :
          (task : Text) (p_settings : Option (Symbol Num Dnum))
          → Keeps (Grippers.get_settings fl conversions net store parse_xml task p_settings)
      unfolding Grippers.get_settings
      Keeps-get_settings task p_settings = Keeps-read _ p_settings

      pub Keeps-set_settings :
          (task : Text) (settings : SgSettings Num)
          → Keeps (Grippers.set_settings fl conversions net store parse_xml task settings)
      unfolding Grippers.set_settings
      Keeps-set_settings task settings = Keeps-write _ _
