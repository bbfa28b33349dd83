-- ===== src/StateMachine/Codes.antt =====
-- The enumerations of include/abb_librws/rws_state_machine_interface.h, and the numbers that stand for them
-- in RAPID.
use abb_librws.Base.{ℕ, if◌then◌else◌}
use abb_librws.Rapid.Numbers.{ℤ, is_nat}

-- States
pub data States : Type 0 where
  state_idle state_initialize state_run_rapid_routine state_run_egm_routine state_unknown : States

-- The switch of getCurrentState, on a number that was read
unfoldable pub state_of : ℤ → States
state_of n =
    if is_nat 0 n
    then state_idle
    else if is_nat 1 n
    then state_initialize
    else if is_nat 2 n
    then state_run_rapid_routine
    else if is_nat 3 n
    then state_run_egm_routine
    else state_unknown

-- EGMActions
pub data EgmActions : Type 0 where
  egm_action_stop egm_action_run_joint egm_action_run_pose egm_action_unknown : EgmActions

-- The switch of getCurrentAction, on a number that was read
unfoldable pub action_of : ℤ → EgmActions
action_of n =
    if is_nat 0 n
    then egm_action_stop
    else if is_nat 1 n
    then egm_action_run_joint
    else if is_nat 2 n
    then egm_action_run_pose
    else egm_action_unknown

-- SGCommands
pub data SgCommand : Type 0 where
  command_none command_initialize command_calibrate command_move_to command_grip_in command_grip_out
        command_blow_on_1 command_blow_on_2 command_blow_off_1 command_blow_off_2
        command_vacuum_on_1 command_vacuum_on_2 command_vacuum_off_1 command_vacuum_off_2 :
      SgCommand

-- The number of the enumerator
unfoldable pub command_number : SgCommand → ℕ
command_number command_none = 0
command_number command_initialize = 1
command_number command_calibrate = 2
command_number command_move_to = 3
command_number command_grip_in = 4
command_number command_grip_out = 5
command_number command_blow_on_1 = 6
command_number command_blow_on_2 = 7
command_number command_blow_off_1 = 8
command_number command_blow_off_2 = 9
command_number command_vacuum_on_1 = 10
command_number command_vacuum_on_2 = 11
command_number command_vacuum_off_1 = 12
command_number command_vacuum_off_2 = 13
