-- ===== src/Tests/ServiceCalls.antt =====
-- Services of the StateMachine Add-In, with a controller that keeps the value of a signal.
use abb_librws.Base.{ℕ, codes, List, [], ◌∷◌}
use abb_librws.Client.Actions.Order.{IsSoundClient}
use abb_librws.StateMachine.Creation.{state_machine_interface_at_port_for_user}
use abb_librws.StateMachine.Calls.{
  ServiceCall, egm, main, sg, watchdog, signal_egm_start_joint, is_state_idle, dual_grip_in,
  signal_stop_request, after_services,
}
use abb_librws.StateMachine.Calls.Order.{services-IsSoundClient}
use abb_librws.Tests.Data.{digits}
use abb_librws.Tests.Network.{jar}
use abb_librws.Tests.Services.{whole}
use abb_librws.Tests.Toggle.{keeping, parser}

abbrev calls : List (ServiceCall ℕ ℕ)
calls =
    main (is_state_idle (codes "T_ROB_L"))
    ∷ egm signal_egm_start_joint
    ∷ sg dual_grip_in
    ∷ watchdog signal_stop_request
    ∷ []

services_sound : IsSoundClient keeping (
    after_services digits whole keeping jar parser calls
      (state_machine_interface_at_port_for_user jar
        (codes "10.0.0.1")
        80
        (codes "user")
        (codes "word")).1)
services_sound =
    services-IsSoundClient digits whole keeping jar parser (codes "10.0.0.1") (codes "user")
      (codes "word") 80 calls
