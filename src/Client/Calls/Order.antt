-- ===== src/Client/Calls/Order.antt =====
-- What any sequence of calls keeps: the order in which the network is used, and the length of the log.
use abb_librws.Base.{ℕ, refl, Bool, Text, List, [], ◌∷◌, Option, arith}
use abb_librws.Xml.{Node}
use abb_librws.Rapid.Atoms.{Floats}
use abb_librws.Poco.Work.{Net, CookieStore}
use abb_librws.Poco.Work.Rules.{Leads}
use abb_librws.Client.Types.{RwsClient, R}
use abb_librws.Client.Constants.{logout_resource}
use abb_librws.Client.Actions.{Leads-keep}
use abb_librws.Client.Actions.Order.{
  IsSoundClient, IsSoundClientWith, Leads-get_document, Leads-post_and_accept, Leads-upload_file,
  Leads-delete_file, Leads-set_speed_ratio, Leads-get_file, Leads-get_rapid_symbol_data,
  Leads-start_subscription, Leads-wait_for_subscription_event, Leads-end_subscription,
  Leads-force_close_subscription,
}
use abb_librws.Client.Creation.{destroy, rws_client_at_port_for_user}
use abb_librws.Poco.Session.{poco_client}
use abb_librws.Client.Requests
use abb_librws.Client.Commands
use abb_librws.Client.Calls.{
  Call, get_contoller_service, get_configuration_instances, get_io_signals, get_io_signal,
  get_mechanical_unit_static_info, get_mechanical_unit_dynamic_info,
  get_mechanical_unit_joint_target, get_mechanical_unit_rob_target, get_rapid_execution,
  get_rapid_modules_info, get_rapid_tasks, get_robotware_system, get_speed_ratio,
  get_panel_controller_state, get_panel_operation_mode, get_rapid_symbol_resource,
  get_rapid_symbol_properties, get_rapid_symbol_data, get_file, logout, set_io_signal,
  set_rapid_symbol_text, set_rapid_symbol_data, start_rapid_execution, stop_rapid_execution,
  reset_rapid_program_pointer, set_motors_on, set_motors_off, set_speed_ratio, upload_file,
  delete_file, register_local_user, register_remote_user, start_subscription,
  wait_for_subscription_event, end_subscription, force_close_subscription, left_by, after_call,
  after_calls,
}

module _ {Jar : Type 0} (net : Net) where
  -- A method that leaves the WebSocket alone keeps the client sound.
  pub keeps :
      {A : Type 0} (m : R Jar A) (c : RwsClient Jar)
      → IsSoundClient net c
      → ((b : Bool) → Leads (IsSoundClientWith net b) (IsSoundClientWith net b) m)
      → IsSoundClient net (m c).1
  keeps m c h k = let kept = (k c.poco.websocket).at c (h.0, (refl, h.1)) in (kept.0, kept.1.1)

  module _ {Num Dnum : Type 0} (store : CookieStore Jar) (parse_xml : Text → Option Node)
      (fl : Floats Num Dnum) where
    keeps-get_document :
        (uri : Text) (c : RwsClient Jar)
        → IsSoundClient net c
        → IsSoundClient net (Requests.get_document net store parse_xml uri c).1
    keeps-get_document uri c h =
        keeps (Requests.get_document net store parse_xml uri) c h
          (λ b. Leads-get_document net store parse_xml b uri)

    keeps-post_and_accept :
        (uri content : Text) (outcomes : List ℕ) (c : RwsClient Jar)
        → IsSoundClient net c
        → IsSoundClient net (Commands.post_and_accept net store parse_xml uri content outcomes c).1
    keeps-post_and_accept uri content outcomes c h =
        keeps (Commands.post_and_accept net store parse_xml uri content outcomes) c h
          (λ b. Leads-post_and_accept net store parse_xml b uri content outcomes)

    after_call-IsSoundClient :
        (call : Call Num Dnum) (c : RwsClient Jar)
        → IsSoundClient net c
        → IsSoundClient net (after_call net store parse_xml fl call c)
    unfolding after_call Requests.get_contoller_service Requests.get_configuration_instances
        Requests.get_io_signals Requests.get_io_signal Requests.get_mechanical_unit_static_info
        Requests.get_mechanical_unit_dynamic_info Requests.get_mechanical_unit_joint_target
        Requests.get_mechanical_unit_rob_target Requests.get_rapid_execution
        Requests.get_rapid_modules_info Requests.get_rapid_tasks Requests.get_robotware_system
        Requests.get_speed_ratio Requests.get_panel_controller_state
        Requests.get_panel_operation_mode Requests.get_rapid_symbol_resource
        Requests.get_rapid_symbol_properties Requests.logout Commands.set_io_signal
        Commands.set_rapid_symbol_text Commands.set_rapid_symbol_data Commands.start_rapid_execution
        Commands.stop_rapid_execution Commands.reset_rapid_program_pointer Commands.set_motors_on
        Commands.set_motors_off Commands.register_local_user Commands.register_remote_user
    after_call-IsSoundClient get_contoller_service c h = keeps-get_document _ c h
    after_call-IsSoundClient (get_configuration_instances topic type) c h = keeps-get_document _ c h
    after_call-IsSoundClient get_io_signals c h = keeps-get_document _ c h
    after_call-IsSoundClient (get_io_signal iosignal) c h = keeps-get_document _ c h
    after_call-IsSoundClient (get_mechanical_unit_static_info mechunit) c h =
        keeps-get_document _ c h
    after_call-IsSoundClient (get_mechanical_unit_dynamic_info mechunit) c h =
        keeps-get_document _ c h
    after_call-IsSoundClient (get_mechanical_unit_joint_target mechunit) c h =
        keeps-get_document _ c h
    after_call-IsSoundClient
          (get_mechanical_unit_rob_target mechunit coordinate tool_name wobj_name) c h =
        keeps-get_document _ c h
    after_call-IsSoundClient get_rapid_execution c h = keeps-get_document _ c h
    after_call-IsSoundClient (get_rapid_modules_info task) c h = keeps-get_document _ c h
    after_call-IsSoundClient get_rapid_tasks c h = keeps-get_document _ c h
    after_call-IsSoundClient get_robotware_system c h = keeps-get_document _ c h
    after_call-IsSoundClient get_speed_ratio c h = keeps-get_document _ c h
    after_call-IsSoundClient get_panel_controller_state c h = keeps-get_document _ c h
    after_call-IsSoundClient get_panel_operation_mode c h = keeps-get_document _ c h
    after_call-IsSoundClient (get_rapid_symbol_resource resource) c h = keeps-get_document _ c h
    after_call-IsSoundClient (get_rapid_symbol_properties resource) c h = keeps-get_document _ c h
    after_call-IsSoundClient (get_rapid_symbol_data resource p_data) c h =
        keeps (Requests.get_rapid_symbol_data net store parse_xml fl resource p_data) c h
          (λ b. Leads-get_rapid_symbol_data net store parse_xml b fl resource p_data)
    after_call-IsSoundClient (get_file resource p_file_content) c h =
        keeps (Requests.get_file net store parse_xml resource p_file_content) c h
          (λ b. Leads-get_file net store parse_xml b resource p_file_content)
    after_call-IsSoundClient logout c h = keeps-get_document _ c h
    after_call-IsSoundClient (set_io_signal iosignal value) c h = keeps-post_and_accept _ _ _ c h
    after_call-IsSoundClient (set_rapid_symbol_text resource value) c h =
        keeps-post_and_accept _ _ _ c h
    after_call-IsSoundClient (set_rapid_symbol_data resource symbol) c h =
        keeps-post_and_accept _ _ _ c h
    after_call-IsSoundClient start_rapid_execution c h = keeps-post_and_accept _ _ _ c h
    after_call-IsSoundClient stop_rapid_execution c h = keeps-post_and_accept _ _ _ c h
    after_call-IsSoundClient reset_rapid_program_pointer c h = keeps-post_and_accept _ _ _ c h
    after_call-IsSoundClient set_motors_on c h = keeps-post_and_accept _ _ _ c h
    after_call-IsSoundClient set_motors_off c h = keeps-post_and_accept _ _ _ c h
    after_call-IsSoundClient (set_speed_ratio ratio) c h =
        keeps (Commands.set_speed_ratio net store parse_xml ratio) c h
          (λ b. Leads-set_speed_ratio net store parse_xml b ratio)
    after_call-IsSoundClient (upload_file resource file_content) c h =
        keeps (Commands.upload_file net store parse_xml resource file_content) c h
          (λ b. Leads-upload_file net store parse_xml b resource file_content)
    after_call-IsSoundClient (delete_file resource) c h =
        keeps (Commands.delete_file net store parse_xml resource) c h
          (λ b. Leads-delete_file net store parse_xml b resource)
    after_call-IsSoundClient (register_local_user username application location) c h =
        keeps-post_and_accept _ _ _ c h
    after_call-IsSoundClient (register_remote_user username application location) c h =
        keeps-post_and_accept _ _ _ c h
    after_call-IsSoundClient (start_subscription resources) c h =
        (Leads-start_subscription net store parse_xml resources).at c h
    after_call-IsSoundClient (wait_for_subscription_event fuel) c h =
        (Leads-wait_for_subscription_event net store parse_xml fuel).at c h
    after_call-IsSoundClient end_subscription c h =
        (Leads-end_subscription net store parse_xml).at c h
    after_call-IsSoundClient force_close_subscription c h =
        (Leads-force_close_subscription net store parse_xml).at c h

    pub after_calls-IsSoundClient :
        (calls : List (Call Num Dnum)) (c : RwsClient Jar)
        → IsSoundClient net c
        → IsSoundClient net (after_calls net store parse_xml fl calls c)
    unfolding after_calls
    after_calls-IsSoundClient [] c h = h
    after_calls-IsSoundClient (call ∷ calls) c h =
        after_calls-IsSoundClient calls (after_call net store parse_xml fl call c)
          (after_call-IsSoundClient call c h)

    -- A client made by the constructor with all arguments, after any sequence of calls of the methods
    -- of RWSClient, each one step that returns or throws, and also after its destructor then: the log
    -- has at most 20 results, a WebSocket was made only while none was open, frames were received,
    -- pings answered, time-outs set and shut-downs made only while one was open, and p_websocket_ is
    -- not null exactly while one is open.
    pub lifetime-IsSoundClient :
        (ip_address username password : Text) (port : ℕ) (calls : List (Call Num Dnum))
        → let c =
            after_calls net store parse_xml fl calls
              (rws_client_at_port_for_user store ip_address port username password).1 in
          IsSoundClient net c × IsSoundClient net (left_by (destroy net store parse_xml c))
    unfolding rws_client_at_port_for_user poco_client destroy Requests.logout
    lifetime-IsSoundClient ip_address username password port calls =
        let c : RwsClient Jar =
          after_calls net store parse_xml fl calls
            (rws_client_at_port_for_user store ip_address port username password).1 in
        let sound : IsSoundClient net c =
          after_calls-IsSoundClient calls _ (omega arith, (refl, tt)) in
        (
          sound,
          keeps (destroy net store parse_xml) c sound (λ b.
              Leads-keep _ _ (Leads-get_document net store parse_xml b logout_resource)
                (λ r. record { at = λ d h. h })),
        )
