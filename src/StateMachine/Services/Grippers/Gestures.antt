-- ===== src/StateMachine/Services/Grippers/Gestures.antt =====
-- Which command each service of the grippers gives to each arm.
use abb_librws.Base.{ℕ, ◌≡◌, ◌↔◌, refl, Bool, true, Text, Option}
use abb_librws.Xml.{Node}
use abb_librws.Rapid.Atoms.{Floats, construct_num}
use abb_librws.Rapid.Symbols.{num, construct}
use abb_librws.Rapid.Numbers.{Conversions}
use abb_librws.Poco.Types.{done}
use abb_librws.Poco.Work.{Net, CookieStore}
use abb_librws.Client.Types.{R, RwsClient}
use abb_librws.Client.Actions.{both_passed}
use abb_librws.Client.Commands.{set_rapid_symbol_data, set_rapid_symbol_text}
use abb_librws.Interface.{write_rapid_symbol_data}
use abb_librws.StateMachine.{toggle_io_signal}
use abb_librws.StateMachine.Identifiers.{
  in_task, task_rob_l, task_rob_r, run_sg_routine, sg_command_input,
}
use abb_librws.StateMachine.Codes
use abb_librws.StateMachine.Codes.{SgCommand, command_number}
use abb_librws.StateMachine.Services.{◌&&>◌}
use abb_librws.StateMachine.Services.Routines.Written.{IsPosted, written-IsPosted}
use abb_librws.StateMachine.Services.Grippers

pub data Arms : Type 0 where
  left_arm right_arm both_arms : Arms

-- What a gripper can be told to do, but to move, which takes a position
pub data Gesture : Type 0 where
  initializes calibrates grips_in grips_out has_blow_1_on has_blow_2_on has_blow_1_off
        has_blow_2_off has_vacuum_1_on has_vacuum_2_on has_vacuum_1_off has_vacuum_2_off :
      Gesture

-- The number that stands for it, as in the enumeration SGCommands of the RAPID program
abbrev pub gesture_number : Gesture → ℕ
gesture_number initializes = 1
gesture_number calibrates = 2
gesture_number grips_in = 4
gesture_number grips_out = 5
gesture_number has_blow_1_on = 6
gesture_number has_blow_2_on = 7
gesture_number has_blow_1_off = 8
gesture_number has_blow_2_off = 9
gesture_number has_vacuum_1_on = 10
gesture_number has_vacuum_2_on = 11
gesture_number has_vacuum_1_off = 12
gesture_number has_vacuum_2_off = 13

-- The numbers for the left and the right arm: that of the gesture for an arm that takes part, and 0 otherwise.
abbrev pub left_number : Arms → Gesture → ℕ
left_number left_arm gesture = gesture_number gesture
left_number right_arm gesture = 0
left_number both_arms gesture = gesture_number gesture

abbrev pub right_number : Arms → Gesture → ℕ
right_number left_arm gesture = 0
right_number right_arm gesture = gesture_number gesture
right_number both_arms gesture = gesture_number gesture

module _ {Jar Num Dnum : Type 0} (fl : Floats Num Dnum) (conversions : Conversions Num Dnum)
    (net : Net) (store : CookieStore Jar) (parse_xml : Text → Option Node) where
  -- The service for a gesture of some arms
  abbrev pub service : Arms → Gesture → R Jar Bool
  service left_arm initializes = Grippers.left_initialize fl conversions net store parse_xml
  service left_arm calibrates = Grippers.left_calibrate fl conversions net store parse_xml
  service left_arm grips_in = Grippers.left_grip_in fl conversions net store parse_xml
  service left_arm grips_out = Grippers.left_grip_out fl conversions net store parse_xml
  service left_arm has_blow_1_on = Grippers.left_blow_1_on fl conversions net store parse_xml
  service left_arm has_blow_2_on = Grippers.left_blow_2_on fl conversions net store parse_xml
  service left_arm has_blow_1_off = Grippers.left_blow_1_off fl conversions net store parse_xml
  service left_arm has_blow_2_off = Grippers.left_blow_2_off fl conversions net store parse_xml
  service left_arm has_vacuum_1_on = Grippers.left_vacuum_1_on fl conversions net store parse_xml
  service left_arm has_vacuum_2_on = Grippers.left_vacuum_2_on fl conversions net store parse_xml
  service left_arm has_vacuum_1_off = Grippers.left_vacuum_1_off fl conversions net store parse_xml
  service left_arm has_vacuum_2_off = Grippers.left_vacuum_2_off fl conversions net store parse_xml
  service right_arm initializes = Grippers.right_initialize fl conversions net store parse_xml
  service right_arm calibrates = Grippers.right_calibrate fl conversions net store parse_xml
  service right_arm grips_in = Grippers.right_grip_in fl conversions net store parse_xml
  service right_arm grips_out = Grippers.right_grip_out fl conversions net store parse_xml
  service right_arm has_blow_1_on = Grippers.right_blow_1_on fl conversions net store parse_xml
  service right_arm has_blow_2_on = Grippers.right_blow_2_on fl conversions net store parse_xml
  service right_arm has_blow_1_off = Grippers.right_blow_1_off fl conversions net store parse_xml
  service right_arm has_blow_2_off = Grippers.right_blow_2_off fl conversions net store parse_xml
  service right_arm has_vacuum_1_on = Grippers.right_vacuum_1_on fl conversions net store parse_xml
  service right_arm has_vacuum_2_on = Grippers.right_vacuum_2_on fl conversions net store parse_xml
  service right_arm has_vacuum_1_off =
      Grippers.right_vacuum_1_off fl conversions net store parse_xml
  service right_arm has_vacuum_2_off =
      Grippers.right_vacuum_2_off fl conversions net store parse_xml
  service both_arms initializes = Grippers.dual_initialize fl conversions net store parse_xml
  service both_arms calibrates = Grippers.dual_calibrate fl conversions net store parse_xml
  service both_arms grips_in = Grippers.dual_grip_in fl conversions net store parse_xml
  service both_arms grips_out = Grippers.dual_grip_out fl conversions net store parse_xml
  service both_arms has_blow_1_on = Grippers.dual_blow_1_on fl conversions net store parse_xml
  service both_arms has_blow_2_on = Grippers.dual_blow_2_on fl conversions net store parse_xml
  service both_arms has_blow_1_off = Grippers.dual_blow_1_off fl conversions net store parse_xml
  service both_arms has_blow_2_off = Grippers.dual_blow_2_off fl conversions net store parse_xml
  service both_arms has_vacuum_1_on = Grippers.dual_vacuum_1_on fl conversions net store parse_xml
  service both_arms has_vacuum_2_on = Grippers.dual_vacuum_2_on fl conversions net store parse_xml
  service both_arms has_vacuum_1_off = Grippers.dual_vacuum_1_off fl conversions net store parse_xml
  service both_arms has_vacuum_2_off = Grippers.dual_vacuum_2_off fl conversions net store parse_xml

  -- From one state to another, a number was posted as the value of the command of an arm's task, and accepted.
  abbrev pub IsCommanded : Text → ℕ → RwsClient Jar → RwsClient Jar → Type 0
  IsCommanded task n c d =
      IsPosted fl net store parse_xml (in_task task sg_command_input)
        (construct_num fl (conversions.of_nat n)) c d

  -- From one state to another, the numbers were given to the left and the right arm, and then the signal toggled.
  abbrev pub AreCommanded : ℕ → ℕ → RwsClient Jar → RwsClient Jar → Type 0
  AreCommanded left right c d =
      (c1 : RwsClient Jar) × (c2 : RwsClient Jar) × IsCommanded task_rob_l left c c1
      × IsCommanded task_rob_r right c1 c2
      × (toggle_io_signal net store parse_xml run_sg_routine c2 ≡ (done true, d))

  set_command_input-IsCommanded :
      (task : Text) (command : SgCommand) (c d : RwsClient Jar)
      → Grippers.set_command_input fl conversions net store parse_xml task command c
        ≡ (done true, d)
      → IsCommanded task (command_number command) c d
  unfolding Grippers.set_command_input construct
  set_command_input-IsCommanded task command c d e =
      written-IsPosted fl net store parse_xml (in_task task sg_command_input)
        (num (conversions.of_nat (command_number command))) c d e

  IsCommanded-set_command_input :
      (task : Text) (command : SgCommand) (c d : RwsClient Jar)
      → IsCommanded task (command_number command) c d
      → Grippers.set_command_input fl conversions net store parse_xml task command c
        ≡ (done true, d)
  unfolding Grippers.set_command_input write_rapid_symbol_data set_rapid_symbol_data
      set_rapid_symbol_text construct
  IsCommanded-set_command_input task command c d (r, e, good) = rw (e, good) refl

  commands_iff :
      (left right : SgCommand) (c d : RwsClient Jar)
      → ((Grippers.set_command_input fl conversions net store parse_xml task_rob_l left
              &&> Grippers.set_command_input fl conversions net store parse_xml task_rob_r right
              &&> Grippers.signal_run_sg_routine fl conversions net store parse_xml)
            c
          ≡ (done true, d))
        ↔ AreCommanded (command_number left) (command_number right) c d
  unfolding Grippers.signal_run_sg_routine
  commands_iff left right c d = (
    λ e.
        let set_left =
          Grippers.set_command_input fl conversions net store parse_xml task_rob_l left in
        let set_right =
          Grippers.set_command_input fl conversions net store parse_xml task_rob_r right in
        let signals = toggle_io_signal net store parse_xml run_sg_routine in
        let (c1, e1, rest) = both_passed set_left (set_right &&> signals) c d e in
        let (c2, e2, toggled) = both_passed set_right signals c1 d rest in
        (
          c1,
          c2,
          set_command_input-IsCommanded task_rob_l left c c1 e1,
          set_command_input-IsCommanded task_rob_r right c1 c2 e2,
          toggled,
        ),
    λ h.
        let (c1, c2, posted_left, posted_right, toggled) = h in
        rw
          (
            IsCommanded-set_command_input task_rob_l left c c1 posted_left,
            IsCommanded-set_command_input task_rob_r right c1 c2 posted_right,
          )
          toggled,
  )

  -- A service for a gesture of the left arm, the right arm or both gives true exactly if the texts of two
  -- numbers were posted and accepted as the values of the command, first of the left arm's task, then of the
  -- right arm's, that of the gesture for an arm that takes part and 0 for one that does not, and then a toggle of
  -- the signal gave true.
  pub service_iff :
      (arms : Arms) (gesture : Gesture) (c d : RwsClient Jar)
      → (service arms gesture c ≡ (done true, d))
        ↔ AreCommanded (left_number arms gesture) (right_number arms gesture) c d
  unfolding command_number Grippers.left_initialize Grippers.left_calibrate Grippers.left_grip_in
      Grippers.left_grip_out Grippers.left_blow_1_on Grippers.left_blow_2_on
      Grippers.left_blow_1_off Grippers.left_blow_2_off Grippers.left_vacuum_1_on
      Grippers.left_vacuum_2_on Grippers.left_vacuum_1_off Grippers.left_vacuum_2_off
      Grippers.right_initialize Grippers.right_calibrate Grippers.right_grip_in
      Grippers.right_grip_out Grippers.right_blow_1_on Grippers.right_blow_2_on
      Grippers.right_blow_1_off Grippers.right_blow_2_off Grippers.right_vacuum_1_on
      Grippers.right_vacuum_2_on Grippers.right_vacuum_1_off Grippers.right_vacuum_2_off
      Grippers.dual_initialize Grippers.dual_calibrate Grippers.dual_grip_in Grippers.dual_grip_out
      Grippers.dual_blow_1_on Grippers.dual_blow_2_on Grippers.dual_blow_1_off
      Grippers.dual_blow_2_off Grippers.dual_vacuum_1_on Grippers.dual_vacuum_2_on
      Grippers.dual_vacuum_1_off Grippers.dual_vacuum_2_off
  service_iff left_arm initializes c d =
      commands_iff Codes.command_initialize Codes.command_none c d
  service_iff left_arm calibrates c d = commands_iff Codes.command_calibrate Codes.command_none c d
  service_iff left_arm grips_in c d = commands_iff Codes.command_grip_in Codes.command_none c d
  service_iff left_arm grips_out c d = commands_iff Codes.command_grip_out Codes.command_none c d
  service_iff left_arm has_blow_1_on c d =
      commands_iff Codes.command_blow_on_1 Codes.command_none c d
  service_iff left_arm has_blow_2_on c d =
      commands_iff Codes.command_blow_on_2 Codes.command_none c d
  service_iff left_arm has_blow_1_off c d =
      commands_iff Codes.command_blow_off_1 Codes.command_none c d
  service_iff left_arm has_blow_2_off c d =
      commands_iff Codes.command_blow_off_2 Codes.command_none c d
  service_iff left_arm has_vacuum_1_on c d =
      commands_iff Codes.command_vacuum_on_1 Codes.command_none c d
  service_iff left_arm has_vacuum_2_on c d =
      commands_iff Codes.command_vacuum_on_2 Codes.command_none c d
  service_iff left_arm has_vacuum_1_off c d =
      commands_iff Codes.command_vacuum_off_1 Codes.command_none c d
  service_iff left_arm has_vacuum_2_off c d =
      commands_iff Codes.command_vacuum_off_2 Codes.command_none c d
  service_iff right_arm initializes c d =
      commands_iff Codes.command_none Codes.command_initialize c d
  service_iff right_arm calibrates c d = commands_iff Codes.command_none Codes.command_calibrate c d
  service_iff right_arm grips_in c d = commands_iff Codes.command_none Codes.command_grip_in c d
  service_iff right_arm grips_out c d = commands_iff Codes.command_none Codes.command_grip_out c d
  service_iff right_arm has_blow_1_on c d =
      commands_iff Codes.command_none Codes.command_blow_on_1 c d
  service_iff right_arm has_blow_2_on c d =
      commands_iff Codes.command_none Codes.command_blow_on_2 c d
  service_iff right_arm has_blow_1_off c d =
      commands_iff Codes.command_none Codes.command_blow_off_1 c d
  service_iff right_arm has_blow_2_off c d =
      commands_iff Codes.command_none Codes.command_blow_off_2 c d
  service_iff right_arm has_vacuum_1_on c d =
      commands_iff Codes.command_none Codes.command_vacuum_on_1 c d
  service_iff right_arm has_vacuum_2_on c d =
      commands_iff Codes.command_none Codes.command_vacuum_on_2 c d
  service_iff right_arm has_vacuum_1_off c d =
      commands_iff Codes.command_none Codes.command_vacuum_off_1 c d
  service_iff right_arm has_vacuum_2_off c d =
      commands_iff Codes.command_none Codes.command_vacuum_off_2 c d
  service_iff both_arms initializes c d =
      commands_iff Codes.command_initialize Codes.command_initialize c d
  service_iff both_arms calibrates c d =
      commands_iff Codes.command_calibrate Codes.command_calibrate c d
  service_iff both_arms grips_in c d = commands_iff Codes.command_grip_in Codes.command_grip_in c d
  service_iff both_arms grips_out c d =
      commands_iff Codes.command_grip_out Codes.command_grip_out c d
  service_iff both_arms has_blow_1_on c d =
      commands_iff Codes.command_blow_on_1 Codes.command_blow_on_1 c d
  service_iff both_arms has_blow_2_on c d =
      commands_iff Codes.command_blow_on_2 Codes.command_blow_on_2 c d
  service_iff both_arms has_blow_1_off c d =
      commands_iff Codes.command_blow_off_1 Codes.command_blow_off_1 c d
  service_iff both_arms has_blow_2_off c d =
      commands_iff Codes.command_blow_off_2 Codes.command_blow_off_2 c d
  service_iff both_arms has_vacuum_1_on c d =
      commands_iff Codes.command_vacuum_on_1 Codes.command_vacuum_on_1 c d
  service_iff both_arms has_vacuum_2_on c d =
      commands_iff Codes.command_vacuum_on_2 Codes.command_vacuum_on_2 c d
  service_iff both_arms has_vacuum_1_off c d =
      commands_iff Codes.command_vacuum_off_1 Codes.command_vacuum_off_1 c d
  service_iff both_arms has_vacuum_2_off c d =
      commands_iff Codes.command_vacuum_off_2 Codes.command_vacuum_off_2 c d
