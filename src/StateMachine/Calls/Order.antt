-- ===== src/StateMachine/Calls/Order.antt =====
-- Any sequence of calls of the services keeps the client sound.
use abb_librws.Base.{ℕ, refl, Text, List, [], ◌∷◌, Option, arith}
use abb_librws.Xml.{Node}
use abb_librws.Rapid.Atoms.{Floats}
use abb_librws.Rapid.Numbers.{Conversions}
use abb_librws.Poco.Work.{Net, CookieStore}
use abb_librws.Poco.Session.{poco_client}
use abb_librws.Client.Types.{RwsClient}
use abb_librws.Client.Creation.{rws_client_at_port_for_user}
use abb_librws.Client.Actions.{Leads-keep}
use abb_librws.Client.Actions.Order.{IsSoundClient, Leads-pure}
use abb_librws.Client.Calls.Order.{keeps}
use abb_librws.Interface.Creation.{rws_interface_at_port_for_user}
use abb_librws.StateMachine.Creation.{state_machine_interface_at_port_for_user}
use abb_librws.StateMachine.Services.Egm
use abb_librws.StateMachine.Services.Main
use abb_librws.StateMachine.Services.Routines
use abb_librws.StateMachine.Services.Watchdog
use abb_librws.StateMachine.Calls.{
  EgmCall, MainCall, RapidCall, UtilityCall, WatchdogCall, ServiceCall, after_services,
  after_service, after_egm, after_main, after_rapid, after_utility, after_watchdog, egm, main,
  rapid, sg, utility, watchdog, get_current_action, get_egm_settings, set_egm_settings,
  signal_egm_start_joint, signal_egm_start_pose, signal_egm_start_stream, signal_egm_stop,
  signal_egm_stop_stream, get_current_state, is_state_idle, is_stationary, run_call_by_var_routine,
  run_module_load_routine, run_module_unload_routine, run_move_abs_j_routine, run_move_j_routine,
  run_move_to_calibration_position_routine, set_move_speed, set_routine_name,
  signal_run_rapid_routine, get_base_frame, get_calibration_target, is_active,
  is_checking_external_status, set_external_status_signal, signal_stop_request,
}
use abb_librws.StateMachine.Calls.GripperOrder.{after_sg-IsSoundClient}
use abb_librws.StateMachine.Calls.Rules.{
  Keeps-and, Keeps-get_io_signal, Keeps-read, Keeps-run_named, Keeps-set_io_signal, Keeps-toggle,
  Keeps-write,
}

module _ {Jar Num Dnum : Type 0} (fl : Floats Num Dnum) (conversions : Conversions Num Dnum)
    (net : Net) (store : CookieStore Jar) (parse_xml : Text → Option Node) where
  after_egm-IsSoundClient :
      (call : EgmCall Num Dnum) (c : RwsClient Jar)
      → IsSoundClient net c
      → IsSoundClient net (after_egm fl conversions net store parse_xml call c)
  unfolding after_egm Egm.get_current_action Egm.get_egm_settings Egm.set_egm_settings
      Egm.signal_egm_start_joint Egm.signal_egm_start_pose Egm.signal_egm_start_stream
      Egm.signal_egm_stop Egm.signal_egm_stop_stream
  after_egm-IsSoundClient (get_current_action task) c h =
      keeps net (Egm.get_current_action fl conversions net store parse_xml task) c h (λ b.
        Leads-keep _ _ (Keeps-read net store parse_xml b fl _ _)
          (λ answer. Leads-pure net parse_xml b _))
  after_egm-IsSoundClient (get_egm_settings task p_data) c h =
      keeps net (Egm.get_egm_settings fl conversions net store parse_xml task p_data) c h
        (λ b. (Keeps-read net store parse_xml b fl _ _))
  after_egm-IsSoundClient (set_egm_settings task settings) c h =
      keeps net (Egm.set_egm_settings fl conversions net store parse_xml task settings) c h
        (λ b. (Keeps-write net store parse_xml b fl _ _))
  after_egm-IsSoundClient signal_egm_start_joint c h =
      keeps net (Egm.signal_egm_start_joint fl conversions net store parse_xml) c h
        (λ b. (Keeps-toggle net store parse_xml b _))
  after_egm-IsSoundClient signal_egm_start_pose c h =
      keeps net (Egm.signal_egm_start_pose fl conversions net store parse_xml) c h
        (λ b. (Keeps-toggle net store parse_xml b _))
  after_egm-IsSoundClient signal_egm_start_stream c h =
      keeps net (Egm.signal_egm_start_stream fl conversions net store parse_xml) c h
        (λ b. (Keeps-toggle net store parse_xml b _))
  after_egm-IsSoundClient signal_egm_stop c h =
      keeps net (Egm.signal_egm_stop fl conversions net store parse_xml) c h
        (λ b. (Keeps-toggle net store parse_xml b _))
  after_egm-IsSoundClient signal_egm_stop_stream c h =
      keeps net (Egm.signal_egm_stop_stream fl conversions net store parse_xml) c h
        (λ b. (Keeps-toggle net store parse_xml b _))

  after_main-IsSoundClient :
      (call : MainCall Num Dnum) (c : RwsClient Jar)
      → IsSoundClient net c
      → IsSoundClient net (after_main fl conversions net store parse_xml call c)
  unfolding after_main Main.get_current_state Main.is_state_idle Main.is_stationary
  after_main-IsSoundClient (get_current_state task) c h =
      keeps net (Main.get_current_state fl conversions net store parse_xml task) c h (λ b.
        Leads-keep _ _ (Keeps-read net store parse_xml b fl _ _)
          (λ answer. Leads-pure net parse_xml b _))
  after_main-IsSoundClient (is_state_idle task) c h =
      keeps net (Main.is_state_idle fl conversions net store parse_xml task) c h (λ b.
        Leads-keep _ _
          (Leads-keep _ _ (Keeps-read net store parse_xml b fl _ _)
            (λ answer. Leads-pure net parse_xml b _))
          (λ state. Leads-pure net parse_xml b _))
  after_main-IsSoundClient (is_stationary task) c h =
      keeps net (Main.is_stationary net store parse_xml task) c h (λ b.
        Leads-keep _ _ (Keeps-get_io_signal net store parse_xml b _)
          (λ r. Leads-pure net parse_xml b _))

  after_rapid-IsSoundClient :
      (call : RapidCall Num Dnum) (c : RwsClient Jar)
      → IsSoundClient net c
      → IsSoundClient net (after_rapid fl conversions net store parse_xml call c)
  unfolding after_rapid Routines.run_call_by_var_routine Routines.run_module_load_routine
      Routines.run_module_unload_routine Routines.run_move_abs_j_routine Routines.run_move_j_routine
      Routines.run_move_to_calibration_position_routine Routines.set_move_speed
      Routines.set_routine_name Routines.signal_run_rapid_routine
  after_rapid-IsSoundClient (run_call_by_var_routine task name number) c h =
      keeps net
        (Routines.run_call_by_var_routine fl net store parse_xml conversions task name number) c h
        (λ b.
          (Keeps-and net store parse_xml b _ _ (Keeps-write net store parse_xml b fl _ _) (
            Keeps-and net store parse_xml b _ _ (Keeps-write net store parse_xml b fl _ _)
              (Keeps-run_named net store parse_xml b fl _ _))))
  after_rapid-IsSoundClient (run_module_load_routine task name) c h =
      keeps net (Routines.run_module_load_routine fl net store parse_xml task name) c h (λ b.
        (Keeps-and net store parse_xml b _ _ (Keeps-write net store parse_xml b fl _ _)
          (Keeps-run_named net store parse_xml b fl _ _)))
  after_rapid-IsSoundClient (run_module_unload_routine task name) c h =
      keeps net (Routines.run_module_unload_routine fl net store parse_xml task name) c h (λ b.
        (Keeps-and net store parse_xml b _ _ (Keeps-write net store parse_xml b fl _ _)
          (Keeps-run_named net store parse_xml b fl _ _)))
  after_rapid-IsSoundClient (run_move_abs_j_routine task target) c h =
      keeps net (Routines.run_move_abs_j_routine fl net store parse_xml task target) c h (λ b.
        (Keeps-and net store parse_xml b _ _ (Keeps-write net store parse_xml b fl _ _)
          (Keeps-run_named net store parse_xml b fl _ _)))
  after_rapid-IsSoundClient (run_move_j_routine task target) c h =
      keeps net (Routines.run_move_j_routine fl net store parse_xml task target) c h (λ b.
        (Keeps-and net store parse_xml b _ _ (Keeps-write net store parse_xml b fl _ _)
          (Keeps-run_named net store parse_xml b fl _ _)))
  after_rapid-IsSoundClient (run_move_to_calibration_position_routine task) c h =
      keeps net (Routines.run_move_to_calibration_position_routine fl net store parse_xml task) c h
        (λ b. (Keeps-run_named net store parse_xml b fl _ _))
  after_rapid-IsSoundClient (set_move_speed task speed) c h =
      keeps net (Routines.set_move_speed fl net store parse_xml task speed) c h
        (λ b. (Keeps-write net store parse_xml b fl _ _))
  after_rapid-IsSoundClient (set_routine_name task name) c h =
      keeps net (Routines.set_routine_name fl net store parse_xml task name) c h
        (λ b. (Keeps-write net store parse_xml b fl _ _))
  after_rapid-IsSoundClient signal_run_rapid_routine c h =
      keeps net (Routines.signal_run_rapid_routine fl net store parse_xml) c h
        (λ b. (Keeps-toggle net store parse_xml b _))

  after_utility-IsSoundClient :
      (call : UtilityCall Num Dnum) (c : RwsClient Jar)
      → IsSoundClient net c
      → IsSoundClient net (after_utility fl conversions net store parse_xml call c)
  unfolding after_utility Watchdog.get_base_frame Watchdog.get_calibration_target
  after_utility-IsSoundClient (get_base_frame task p_data) c h =
      keeps net (Watchdog.get_base_frame fl net store parse_xml task p_data) c h
        (λ b. (Keeps-read net store parse_xml b fl _ _))
  after_utility-IsSoundClient (get_calibration_target task p_data) c h =
      keeps net (Watchdog.get_calibration_target fl net store parse_xml task p_data) c h
        (λ b. (Keeps-read net store parse_xml b fl _ _))

  after_watchdog-IsSoundClient :
      (call : WatchdogCall Num Dnum) (c : RwsClient Jar)
      → IsSoundClient net c
      → IsSoundClient net (after_watchdog fl conversions net store parse_xml call c)
  unfolding after_watchdog Watchdog.is_active Watchdog.is_checking_external_status
      Watchdog.set_external_status_signal Watchdog.signal_stop_request Watchdog.read_flag
  after_watchdog-IsSoundClient (is_active task) c h =
      keeps net (Watchdog.is_active fl net store parse_xml task) c h (λ b.
        Leads-keep _ _ (Keeps-read net store parse_xml b fl _ _)
          (λ answer. Leads-pure net parse_xml b _))
  after_watchdog-IsSoundClient (is_checking_external_status task) c h =
      keeps net (Watchdog.is_checking_external_status fl net store parse_xml task) c h (λ b.
        Leads-keep _ _ (Keeps-read net store parse_xml b fl _ _)
          (λ answer. Leads-pure net parse_xml b _))
  after_watchdog-IsSoundClient set_external_status_signal c h =
      keeps net (Watchdog.set_external_status_signal net store parse_xml) c h
        (λ b. (Keeps-set_io_signal net store parse_xml b _ _))
  after_watchdog-IsSoundClient signal_stop_request c h =
      keeps net (Watchdog.signal_stop_request net store parse_xml) c h
        (λ b. (Keeps-toggle net store parse_xml b _))

  after_service-IsSoundClient :
      (call : ServiceCall Num Dnum) (c : RwsClient Jar)
      → IsSoundClient net c
      → IsSoundClient net (after_service fl conversions net store parse_xml call c)
  unfolding after_service
  after_service-IsSoundClient (egm call) c h = after_egm-IsSoundClient call c h
  after_service-IsSoundClient (main call) c h = after_main-IsSoundClient call c h
  after_service-IsSoundClient (rapid call) c h = after_rapid-IsSoundClient call c h
  after_service-IsSoundClient (sg call) c h =
      after_sg-IsSoundClient fl conversions net store parse_xml call c h
  after_service-IsSoundClient (utility call) c h = after_utility-IsSoundClient call c h
  after_service-IsSoundClient (watchdog call) c h = after_watchdog-IsSoundClient call c h

  after_services-IsSoundClient :
      (calls : List (ServiceCall Num Dnum)) (c : RwsClient Jar)
      → IsSoundClient net c
      → IsSoundClient net (after_services fl conversions net store parse_xml calls c)
  unfolding after_services
  after_services-IsSoundClient [] c h = h
  after_services-IsSoundClient (call ∷ calls) c h =
      after_services-IsSoundClient calls (after_service fl conversions net store parse_xml call c)
        (after_service-IsSoundClient call c h)

  -- After any sequence of calls of the services of an RWSStateMachineInterface made by the
  -- constructor with all arguments, each one step that returns or throws, its client's log has at
  -- most 20 results, its WebSocket was made only while none was open and used only while one was,
  -- and p_websocket_ is not null exactly while one is open.
  pub services-IsSoundClient :
      (ip_address username password : Text) (port : ℕ) (calls : List (ServiceCall Num Dnum))
      → IsSoundClient net (
          after_services fl conversions net store parse_xml calls
            (state_machine_interface_at_port_for_user store ip_address port username password).1)
  unfolding state_machine_interface_at_port_for_user rws_interface_at_port_for_user
      rws_client_at_port_for_user poco_client
  services-IsSoundClient ip_address username password port calls =
      after_services-IsSoundClient calls _ (omega arith, (refl, tt))
