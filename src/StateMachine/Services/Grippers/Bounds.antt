-- ===== src/StateMachine/Services/Grippers/Bounds.antt =====
-- How much a service of the grippers sends.
use abb_librws.Base.{◌+◌, ◌≤◌, false, Text, Option}
use abb_librws.Xml.{Node}
use abb_librws.Rapid.Atoms.{Floats}
use abb_librws.Rapid.Symbols.{Symbol}
use abb_librws.Rapid.Numbers.{Conversions}
use abb_librws.Poco.Work.{Net, CookieStore}
use abb_librws.Poco.Work.Rules.{sent_count}
use abb_librws.Client.Types.{RwsClient, RapidResource}
use abb_librws.Client.Actions.Limits.{Asks, Asks-bind, Asks-pure, Asks-if, Asks-post_and_accept}
use abb_librws.Client.Commands.{set_rapid_symbol_data, set_rapid_symbol_text}
use abb_librws.Interface.{write_rapid_symbol_data}
use abb_librws.StateMachine.{toggle_io_signal}
use abb_librws.StateMachine.Bounds.{toggle_io_signal_bounded}
use abb_librws.StateMachine.Identifiers.{task_rob_l, task_rob_r, run_sg_routine}
use abb_librws.StateMachine.Codes.{SgCommand}
use abb_librws.StateMachine.Services.{◌&&>◌}
use abb_librws.StateMachine.Services.Grippers.{set_command_input, signal_run_sg_routine}

module _ {Jar Num Dnum : Type 0} (fl : Floats Num Dnum) (conversions : Conversions Num Dnum)
    (net : Net) (store : CookieStore Jar) (parse_xml : Text → Option Node) where
  Asks-write_rapid_symbol_data :
      (resource : RapidResource) (symbol : Symbol Num Dnum)
      → Asks 3 (write_rapid_symbol_data net store parse_xml fl resource symbol)
  unfolding write_rapid_symbol_data set_rapid_symbol_data set_rapid_symbol_text
  Asks-write_rapid_symbol_data resource symbol =
      Asks-bind (set_rapid_symbol_data net store parse_xml fl resource symbol) _
        (Asks-post_and_accept net store parse_xml _ _ _) (λ r. Asks-pure _ 0)

  -- A service of one command for each arm sends at most 69 requests, whatever the controller answers: three for each command, and 63
  -- for the signal.
  pub commands_bounded :
      (left right : SgCommand) (c : RwsClient Jar)
      → sent_count
          ((set_command_input fl conversions net store parse_xml task_rob_l left
              &&> set_command_input fl conversions net store parse_xml task_rob_r right
              &&> signal_run_sg_routine fl conversions net store parse_xml)
            c).1.poco.history
        ≤ 69 + sent_count c.poco.history
  unfolding set_command_input signal_run_sg_routine
  commands_bounded left right c =
      let signals : Asks 63 (toggle_io_signal net store parse_xml run_sg_routine) = record {
        at = toggle_io_signal_bounded net store parse_xml run_sg_routine;
      } in
      (Asks-bind (set_command_input fl conversions net store parse_xml task_rob_l left) _
          (Asks-write_rapid_symbol_data _ _)
          (λ b.
            Asks-if b _ _
              (Asks-bind (set_command_input fl conversions net store parse_xml task_rob_r right) _
                (Asks-write_rapid_symbol_data _ _)
                (λ b'. Asks-if b' _ _ signals (Asks-pure false 63)))
              (Asks-pure false 66))).at
        c
