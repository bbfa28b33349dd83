-- ===== src/StateMachine/Calls/GripperOrder.antt =====
-- Any call of a gripper service keeps the client sound.
use abb_librws.Base.{Text, Option}
use abb_librws.Xml.{Node}
use abb_librws.Rapid.Atoms.{Floats}
use abb_librws.Rapid.Numbers.{Conversions}
use abb_librws.Poco.Work.{Net, CookieStore}
use abb_librws.Poco.Work.Rules.{Leads-if}
use abb_librws.Client.Types.{RwsClient}
use abb_librws.Client.Calls.{left_by}
use abb_librws.Client.Actions.{Leads-keep}
use abb_librws.Client.Actions.Order.{IsSoundClient, Leads-pure}
use abb_librws.Client.Calls.Order.{keeps}
use abb_librws.StateMachine.Codes
use abb_librws.StateMachine.Codes.{SgCommand}
use abb_librws.StateMachine.Identifiers.{task_rob_l, task_rob_r}
use abb_librws.StateMachine.Services.{◌&&>◌}
use abb_librws.StateMachine.Services.Grippers
use abb_librws.StateMachine.Calls.{
  SgCall, after_sg, dual_blow_1_off, dual_blow_1_on, dual_blow_2_off, dual_blow_2_on,
  dual_calibrate, dual_get_settings, dual_grip_in, dual_grip_out, dual_initialize, dual_move_to,
  dual_set_settings, dual_vacuum_1_off, dual_vacuum_1_on, dual_vacuum_2_off, dual_vacuum_2_on,
  left_blow_1_off, left_blow_1_on, left_blow_2_off, left_blow_2_on, left_calibrate,
  left_get_settings, left_grip_in, left_grip_out, left_initialize, left_move_to, left_set_settings,
  left_vacuum_1_off, left_vacuum_1_on, left_vacuum_2_off, left_vacuum_2_on, right_blow_1_off,
  right_blow_1_on, right_blow_2_off, right_blow_2_on, right_calibrate, right_get_settings,
  right_grip_in, right_grip_out, right_initialize, right_move_to, right_set_settings,
  right_vacuum_1_off, right_vacuum_1_on, right_vacuum_2_off, right_vacuum_2_on,
  signal_run_sg_routine,
}
use abb_librws.StateMachine.Calls.Rules.{
  Keeps-and, Keeps-get_settings, Keeps-commands, Keeps-set_command_input, Keeps-set_settings,
  Keeps-set_target_position_input, Keeps-signal,
}

module _ {Jar Num Dnum : Type 0} (fl : Floats Num Dnum) (conversions : Conversions Num Dnum)
    (net : Net) (store : CookieStore Jar) (parse_xml : Text → Option Node) where
  -- The services that send a command to each arm share this step.
  commands-IsSoundClient :
      (left right : SgCommand) (c : RwsClient Jar)
      → IsSoundClient net c
      → IsSoundClient net (
          left_by (
            (Grippers.set_command_input fl conversions net store parse_xml task_rob_l left
                &&> Grippers.set_command_input fl conversions net store parse_xml task_rob_r right
                &&> Grippers.signal_run_sg_routine fl conversions net store parse_xml)
              c))
  commands-IsSoundClient left right c h =
      keeps net _ c h (λ b. Keeps-commands net store parse_xml b fl conversions left right)

  pub after_sg-IsSoundClient :
      (call : SgCall Num Dnum) (c : RwsClient Jar)
      → IsSoundClient net c
      → IsSoundClient net (after_sg fl conversions net store parse_xml call c)
  unfolding after_sg Grippers.dual_blow_1_off Grippers.dual_blow_1_on Grippers.dual_blow_2_off
      Grippers.dual_blow_2_on Grippers.dual_calibrate Grippers.dual_get_settings
      Grippers.dual_grip_in Grippers.dual_grip_out Grippers.dual_initialize Grippers.dual_move_to
      Grippers.dual_set_settings Grippers.dual_vacuum_1_off Grippers.dual_vacuum_1_on
      Grippers.dual_vacuum_2_off Grippers.dual_vacuum_2_on Grippers.left_blow_1_off
      Grippers.left_blow_1_on Grippers.left_blow_2_off Grippers.left_blow_2_on
      Grippers.left_calibrate Grippers.left_get_settings Grippers.left_grip_in
      Grippers.left_grip_out Grippers.left_initialize Grippers.left_move_to
      Grippers.left_set_settings Grippers.left_vacuum_1_off Grippers.left_vacuum_1_on
      Grippers.left_vacuum_2_off Grippers.left_vacuum_2_on Grippers.right_blow_1_off
      Grippers.right_blow_1_on Grippers.right_blow_2_off Grippers.right_blow_2_on
      Grippers.right_calibrate Grippers.right_get_settings Grippers.right_grip_in
      Grippers.right_grip_out Grippers.right_initialize Grippers.right_move_to
      Grippers.right_set_settings Grippers.right_vacuum_1_off Grippers.right_vacuum_1_on
      Grippers.right_vacuum_2_off Grippers.right_vacuum_2_on Grippers.signal_run_sg_routine
  after_sg-IsSoundClient dual_blow_1_off c h =
      commands-IsSoundClient Codes.command_blow_off_1 Codes.command_blow_off_1 c h
  after_sg-IsSoundClient dual_blow_1_on c h =
      commands-IsSoundClient Codes.command_blow_on_1 Codes.command_blow_on_1 c h
  after_sg-IsSoundClient dual_blow_2_off c h =
      commands-IsSoundClient Codes.command_blow_off_2 Codes.command_blow_off_2 c h
  after_sg-IsSoundClient dual_blow_2_on c h =
      commands-IsSoundClient Codes.command_blow_on_2 Codes.command_blow_on_2 c h
  after_sg-IsSoundClient dual_calibrate c h =
      commands-IsSoundClient Codes.command_calibrate Codes.command_calibrate c h
  after_sg-IsSoundClient (dual_get_settings p_data p_right_data) c h =
      keeps net (Grippers.dual_get_settings fl conversions net store parse_xml p_data p_right_data)
        c h
        (λ b. Leads-keep _ _ (Keeps-get_settings net store parse_xml b fl conversions _ _) (λ left.
          Leads-if left.0 _ _
            (Leads-keep _ _ (Keeps-get_settings net store parse_xml b fl conversions _ _)
              (λ right. Leads-pure net parse_xml b _))
            (Leads-pure net parse_xml b _)))
  after_sg-IsSoundClient dual_grip_in c h =
      commands-IsSoundClient Codes.command_grip_in Codes.command_grip_in c h
  after_sg-IsSoundClient dual_grip_out c h =
      commands-IsSoundClient Codes.command_grip_out Codes.command_grip_out c h
  after_sg-IsSoundClient dual_initialize c h =
      commands-IsSoundClient Codes.command_initialize Codes.command_initialize c h
  after_sg-IsSoundClient (dual_move_to position right_position) c h =
      keeps net (Grippers.dual_move_to fl conversions net store parse_xml position right_position) c
        h
        (λ b.
          (Keeps-and net store parse_xml b _ _
            (Keeps-set_command_input net store parse_xml b fl conversions _ _)
            (Keeps-and net store parse_xml b _ _
              (Keeps-set_command_input net store parse_xml b fl conversions _ _)
              (Keeps-and net store parse_xml b _ _
                (Keeps-set_target_position_input net store parse_xml b fl conversions _ _)
                (Keeps-and net store parse_xml b _ _
                  (Keeps-set_target_position_input net store parse_xml b fl conversions _ _)
                  (Keeps-signal net store parse_xml b fl conversions))))))
  after_sg-IsSoundClient (dual_set_settings settings right_settings) c h =
      keeps net
        (Grippers.dual_set_settings fl conversions net store parse_xml settings right_settings) c h
        (λ b.
          (Keeps-and net store parse_xml b _ _
            (Keeps-set_settings net store parse_xml b fl conversions _ _)
            (Keeps-set_settings net store parse_xml b fl conversions _ _)))
  after_sg-IsSoundClient dual_vacuum_1_off c h =
      commands-IsSoundClient Codes.command_vacuum_off_1 Codes.command_vacuum_off_1 c h
  after_sg-IsSoundClient dual_vacuum_1_on c h =
      commands-IsSoundClient Codes.command_vacuum_on_1 Codes.command_vacuum_on_1 c h
  after_sg-IsSoundClient dual_vacuum_2_off c h =
      commands-IsSoundClient Codes.command_vacuum_off_2 Codes.command_vacuum_off_2 c h
  after_sg-IsSoundClient dual_vacuum_2_on c h =
      commands-IsSoundClient Codes.command_vacuum_on_2 Codes.command_vacuum_on_2 c h
  after_sg-IsSoundClient left_blow_1_off c h =
      commands-IsSoundClient Codes.command_blow_off_1 Codes.command_none c h
  after_sg-IsSoundClient left_blow_1_on c h =
      commands-IsSoundClient Codes.command_blow_on_1 Codes.command_none c h
  after_sg-IsSoundClient left_blow_2_off c h =
      commands-IsSoundClient Codes.command_blow_off_2 Codes.command_none c h
  after_sg-IsSoundClient left_blow_2_on c h =
      commands-IsSoundClient Codes.command_blow_on_2 Codes.command_none c h
  after_sg-IsSoundClient left_calibrate c h =
      commands-IsSoundClient Codes.command_calibrate Codes.command_none c h
  after_sg-IsSoundClient (left_get_settings p_data) c h =
      keeps net (Grippers.left_get_settings fl conversions net store parse_xml p_data) c h
        (λ b. (Keeps-get_settings net store parse_xml b fl conversions _ _))
  after_sg-IsSoundClient left_grip_in c h =
      commands-IsSoundClient Codes.command_grip_in Codes.command_none c h
  after_sg-IsSoundClient left_grip_out c h =
      commands-IsSoundClient Codes.command_grip_out Codes.command_none c h
  after_sg-IsSoundClient left_initialize c h =
      commands-IsSoundClient Codes.command_initialize Codes.command_none c h
  after_sg-IsSoundClient (left_move_to position) c h =
      keeps net (Grippers.left_move_to fl conversions net store parse_xml position) c h (λ b.
        (Keeps-and net store parse_xml b _ _
          (Keeps-set_command_input net store parse_xml b fl conversions _ _)
          (Keeps-and net store parse_xml b _ _
            (Keeps-set_command_input net store parse_xml b fl conversions _ _)
            (Keeps-and net store parse_xml b _ _
              (Keeps-set_target_position_input net store parse_xml b fl conversions _ _)
              (Keeps-signal net store parse_xml b fl conversions)))))
  after_sg-IsSoundClient (left_set_settings settings) c h =
      keeps net (Grippers.left_set_settings fl conversions net store parse_xml settings) c h
        (λ b. (Keeps-set_settings net store parse_xml b fl conversions _ _))
  after_sg-IsSoundClient left_vacuum_1_off c h =
      commands-IsSoundClient Codes.command_vacuum_off_1 Codes.command_none c h
  after_sg-IsSoundClient left_vacuum_1_on c h =
      commands-IsSoundClient Codes.command_vacuum_on_1 Codes.command_none c h
  after_sg-IsSoundClient left_vacuum_2_off c h =
      commands-IsSoundClient Codes.command_vacuum_off_2 Codes.command_none c h
  after_sg-IsSoundClient left_vacuum_2_on c h =
      commands-IsSoundClient Codes.command_vacuum_on_2 Codes.command_none c h
  after_sg-IsSoundClient right_blow_1_off c h =
      commands-IsSoundClient Codes.command_none Codes.command_blow_off_1 c h
  after_sg-IsSoundClient right_blow_1_on c h =
      commands-IsSoundClient Codes.command_none Codes.command_blow_on_1 c h
  after_sg-IsSoundClient right_blow_2_off c h =
      commands-IsSoundClient Codes.command_none Codes.command_blow_off_2 c h
  after_sg-IsSoundClient right_blow_2_on c h =
      commands-IsSoundClient Codes.command_none Codes.command_blow_on_2 c h
  after_sg-IsSoundClient right_calibrate c h =
      commands-IsSoundClient Codes.command_none Codes.command_calibrate c h
  after_sg-IsSoundClient (right_get_settings p_data) c h =
      keeps net (Grippers.right_get_settings fl conversions net store parse_xml p_data) c h
        (λ b. (Keeps-get_settings net store parse_xml b fl conversions _ _))
  after_sg-IsSoundClient right_grip_in c h =
      commands-IsSoundClient Codes.command_none Codes.command_grip_in c h
  after_sg-IsSoundClient right_grip_out c h =
      commands-IsSoundClient Codes.command_none Codes.command_grip_out c h
  after_sg-IsSoundClient right_initialize c h =
      commands-IsSoundClient Codes.command_none Codes.command_initialize c h
  after_sg-IsSoundClient (right_move_to position) c h =
      keeps net (Grippers.right_move_to fl conversions net store parse_xml position) c h (λ b.
        (Keeps-and net store parse_xml b _ _
          (Keeps-set_command_input net store parse_xml b fl conversions _ _)
          (Keeps-and net store parse_xml b _ _
            (Keeps-set_command_input net store parse_xml b fl conversions _ _)
            (Keeps-and net store parse_xml b _ _
              (Keeps-set_target_position_input net store parse_xml b fl conversions _ _)
              (Keeps-signal net store parse_xml b fl conversions)))))
  after_sg-IsSoundClient (right_set_settings settings) c h =
      keeps net (Grippers.right_set_settings fl conversions net store parse_xml settings) c h
        (λ b. (Keeps-set_settings net store parse_xml b fl conversions _ _))
  after_sg-IsSoundClient right_vacuum_1_off c h =
      commands-IsSoundClient Codes.command_none Codes.command_vacuum_off_1 c h
  after_sg-IsSoundClient right_vacuum_1_on c h =
      commands-IsSoundClient Codes.command_none Codes.command_vacuum_on_1 c h
  after_sg-IsSoundClient right_vacuum_2_off c h =
      commands-IsSoundClient Codes.command_none Codes.command_vacuum_off_2 c h
  after_sg-IsSoundClient right_vacuum_2_on c h =
      commands-IsSoundClient Codes.command_none Codes.command_vacuum_on_2 c h
  after_sg-IsSoundClient signal_run_sg_routine c h =
      keeps net (Grippers.signal_run_sg_routine fl conversions net store parse_xml) c h
        (λ b. (Keeps-signal net store parse_xml b fl conversions))
