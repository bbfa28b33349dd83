-- ===== src/StateMachine/Services.antt =====
-- RWSStateMachineInterface::Services of src/rws_state_machine_interface.cpp.
pub mod Grippers
pub mod Egm
pub mod Main
pub mod Routines
pub mod Watchdog
use abb_librws.Base.{Bool, false, if◌then◌else◌}
use abb_librws.Client.Types.{R, ◌>>=◌, pure}

-- `&&` between calls: the second is made only if the first gives true.
infixr 4 ◌&&>◌
abbrev pub ◌&&>◌ : {Jar : Type 0} → R Jar Bool → R Jar Bool → R Jar Bool
m &&> k = m >>= λ b. if b then k else pure false
