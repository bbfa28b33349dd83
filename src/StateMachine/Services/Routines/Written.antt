-- ===== src/StateMachine/Services/Routines/Written.antt =====
-- What a run of a routine has written before it is signalled.
use abb_librws.Base.{◌≡◌, refl, arith, true, Text, codes, [], ◌∷◌, ◌++◌, Option}
use abb_librws.Xml.{Node}
use abb_librws.Rapid.Atoms.{Floats, returned}
use abb_librws.Rapid.Symbols.{Symbol, parse, construct}
use abb_librws.Rapid.Symbols.Texts.{IsClean}
use abb_librws.Rapid.Symbols.RoundTrip.{IsExact, parse-construct}
use abb_librws.Rapid.Records.{JointTarget, joint_target_symbol, RobTarget, rob_target_symbol}
use abb_librws.Poco.Types.{done}
use abb_librws.Poco.Work.{Net, CookieStore}
use abb_librws.Client.Types.{RwsResult, RwsClient, RapidResource, pure}
use abb_librws.Client.Actions.{and_run_returns, answers, both_passed}
use abb_librws.Client.Constants.{action_set}
use abb_librws.Client.Paths.{rapid_data_path}
use abb_librws.Client.Commands.{
  set_rapid_symbol_data, set_rapid_symbol_text, post_and_accept, http_no_content,
}
use abb_librws.Interface.{write_rapid_symbol_data}
use abb_librws.StateMachine.{high, toggle_io_signal}
use abb_librws.StateMachine.Signals.{IsJustRead, toggle_io_signal_toggles}
use abb_librws.StateMachine.Identifiers.{
  in_task, rapid_move_joint_target_input, rapid_move_rob_target_input, run_rapid_routine,
  run_move_abs_j, run_move_j,
}
use abb_librws.StateMachine.Services.Routines.{
  set_routine_name, signal_run_rapid_routine, run_named, run_move_abs_j_routine, run_move_j_routine,
}

module _ {Jar Num Dnum : Type 0} (fl : Floats Num Dnum) (net : Net) (store : CookieStore Jar)
    (parse_xml : Text → Option Node) where
  -- From one state to another, a text was posted as the value of the symbol, and the controller accepted it.
  abbrev pub IsPosted : RapidResource → Text → RwsClient Jar → RwsClient Jar → Type 0
  IsPosted resource value c d =
      (r : RwsResult) × (post_and_accept net store parse_xml
          (rapid_data_path resource ++ codes "?" ++ action_set)
          (codes "value" ++ codes "=" ++ value) (http_no_content ∷ []) c
        ≡ (done r, d))
      × (r.success ≡ true)

  -- From one state to another, the routine was named, the signal toggled, and read as high last of all.
  abbrev pub IsRun : Text → Text → RwsClient Jar → RwsClient Jar → Type 0
  IsRun task routine c d =
      (c1 : RwsClient Jar) × (set_routine_name fl net store parse_xml task routine c
        ≡ (done true, c1))
      × (toggle_io_signal net store parse_xml run_rapid_routine c1 ≡ (done true, d))
      × IsJustRead net store parse_xml run_rapid_routine high d

  pub written-IsPosted :
      (resource : RapidResource) (symbol : Symbol Num Dnum) (c d : RwsClient Jar)
      → write_rapid_symbol_data net store parse_xml fl resource symbol c ≡ (done true, d)
      → IsPosted resource (construct fl symbol) c d
  unfolding write_rapid_symbol_data set_rapid_symbol_data set_rapid_symbol_text
  written-IsPosted resource symbol c d e =
      let (r, c1, e1, rest) =
        and_run_returns (set_rapid_symbol_data net store parse_xml fl resource symbol c)
          (λ r. pure r.success) true d e in
      let (good, same) = answers r.success c1 d rest in (r, cc, good)

  run_named-IsRun :
      (task routine : Text) (c d : RwsClient Jar)
      → run_named fl net store parse_xml task routine c ≡ (done true, d)
      → IsRun task routine c d
  unfolding run_named signal_run_rapid_routine
  run_named-IsRun task routine c d e =
      let signals = toggle_io_signal net store parse_xml run_rapid_routine in
      let (c1, e1, toggled) =
        both_passed (set_routine_name fl net store parse_xml task routine) signals c d e in
      let (c3, c4, auto, lowered, read_low, raised, read_high) =
        toggle_io_signal_toggles net store parse_xml run_rapid_routine c1 d toggled in
      (c1, e1, toggled, read_high)

  -- runMoveAbsJ that gives true has posted a text that reads back as the joint target, into any joint target
  -- that an object held before, then named the routine, and toggled the signal, which was read as high last of
  -- all; the target's numbers are to have texts that are words and that read back exactly.
  pub run_move_abs_j_writes :
      (task : Text) (target : JointTarget Num) (c d : RwsClient Jar)
      → IsClean {Dnum = Dnum} fl (joint_target_symbol target)
      → IsExact {Dnum = Dnum} fl (joint_target_symbol target)
      → run_move_abs_j_routine fl net store parse_xml task target c ≡ (done true, d)
      → (value : Text) × (c1 : RwsClient Jar) × IsPosted
          (in_task task rapid_move_joint_target_input)
          value
          c
          c1
        × ((old : JointTarget Num)
            → parse fl (joint_target_symbol old) value ≡ returned (joint_target_symbol target))
        × IsRun task run_move_abs_j c1 d
  unfolding run_move_abs_j_routine
  run_move_abs_j_writes task target c d clean exact e =
      let symbol : Symbol Num Dnum = joint_target_symbol target in
      let (c1, e1, ran) =
        both_passed
          (write_rapid_symbol_data net store parse_xml fl
            (in_task task rapid_move_joint_target_input) symbol)
          (run_named fl net store parse_xml task run_move_abs_j) c d e in
      (
        construct fl symbol,
        c1,
        written-IsPosted (in_task task rapid_move_joint_target_input) symbol c c1 e1,
        (λ old.
            parse-construct fl (joint_target_symbol old) symbol
              (
                refl,
                (
                  (refl, (tt, (tt, (tt, (tt, (tt, (tt, tt))))))),
                  ((refl, (tt, (tt, (tt, (tt, (tt, (tt, tt))))))), tt),
                ),
              )
              clean exact (omega arith)),
        run_named-IsRun task run_move_abs_j c1 d ran,
      )

  -- runMoveJ that gives true has posted a text that reads back as the rob target, into any rob target that an
  -- object held before, then named the routine, and toggled the signal, which was read as high last of all; the
  -- target's numbers are to have texts that are words and that read back exactly.
  pub run_move_j_writes :
      (task : Text) (target : RobTarget Num) (c d : RwsClient Jar)
      → IsClean {Dnum = Dnum} fl (rob_target_symbol target)
      → IsExact {Dnum = Dnum} fl (rob_target_symbol target)
      → run_move_j_routine fl net store parse_xml task target c ≡ (done true, d)
      → (value : Text) × (c1 : RwsClient Jar) × IsPosted
          (in_task task rapid_move_rob_target_input)
          value
          c
          c1
        × ((old : RobTarget Num)
            → parse fl (rob_target_symbol old) value ≡ returned (rob_target_symbol target))
        × IsRun task run_move_j c1 d
  unfolding run_move_j_routine
  run_move_j_writes task target c d clean exact e =
      let symbol : Symbol Num Dnum = rob_target_symbol target in
      let (c1, e1, ran) =
        both_passed
          (write_rapid_symbol_data net store parse_xml fl (in_task task rapid_move_rob_target_input)
            symbol)
          (run_named fl net store parse_xml task run_move_j) c d e in
      (
        construct fl symbol,
        c1,
        written-IsPosted (in_task task rapid_move_rob_target_input) symbol c c1 e1,
        (λ old.
            parse-construct fl (rob_target_symbol old) symbol
              (
                refl,
                (
                  (refl, (tt, (tt, (tt, tt)))),
                  (
                    (refl, (tt, (tt, (tt, (tt, tt))))),
                    (
                      (refl, (tt, (tt, (tt, (tt, tt))))),
                      ((refl, (tt, (tt, (tt, (tt, (tt, (tt, tt))))))), tt),
                    ),
                  ),
                ),
              )
              clean exact (omega arith)),
        run_named-IsRun task run_move_j c1 d ran,
      )
