-- ===== src/Client/Calls/Limits.antt =====
-- How many requests any sequence of calls sends.
use abb_librws.Base.{
  ℕ, ◌+◌, ◌≤◌, Text, codes, is_empty, not, ◌&&◌, if_branches, if◌then◌else◌, ◌++◌, List, [], ◌∷◌,
  Option, none, some, arith,
}
use abb_librws.Xml.{Node}
use abb_librws.Rapid.Atoms.{Floats}
use abb_librws.Poco.Types.{Outcome, PocoResult, http_ok}
use abb_librws.Poco.Work.{Net, CookieStore}
use abb_librws.Poco.Work.Rules.{sent_count}
use abb_librws.Poco.Http.{post, delete}
use abb_librws.Poco.Socket.{websocket_connect, websocket_receive_frame}
use abb_librws.Poco.Socket.Limits.{
  websocket_connect_bounded, websocket_receive_frame_silent, websocket_shutdown_silent,
}
use abb_librws.Poco.Session.{poco_client}
use abb_librws.Client.Types.{
  RwsClient, RwsResult, R, pure, ◌>>=◌, on_poco, SubscriptionResource, EvaluationConditions,
}
use abb_librws.Client.Evaluation.{evaluate}
use abb_librws.Client.Actions.Limits.{
  Asks, Asks-bind, Asks-if, Asks-pure, Asks-evaluate, Asks-post, Asks-delete, Asks-get_document,
  Asks-post_and_accept, Asks-upload_file, Asks-delete_file, Asks-set_speed_ratio, Asks-get_file,
  Asks-get_rapid_symbol_data,
}
use abb_librws.Client.Creation.{rws_client_at_port_for_user}
use abb_librws.Client.Constants.{services_subscription}
use abb_librws.Client.Subscription.{
  http_switching_protocols, poll, subscription_content, connect_to_group, set_group, evaluate_event,
}
use abb_librws.Client.Commands.{accepts, http_created}
use abb_librws.Poco.Cookies.{find_substring_content}
use abb_librws.Client.Requests
use abb_librws.Client.Commands
use abb_librws.Client.Subscription
use abb_librws.Client.Calls.{
  Call, after_call, after_calls, get_contoller_service, get_configuration_instances, get_io_signals,
  get_io_signal, get_mechanical_unit_static_info, get_mechanical_unit_dynamic_info,
  get_mechanical_unit_joint_target, get_mechanical_unit_rob_target, get_rapid_execution,
  get_rapid_modules_info, get_rapid_tasks, get_robotware_system, get_speed_ratio,
  get_panel_controller_state, get_panel_operation_mode, get_rapid_symbol_resource,
  get_rapid_symbol_properties, get_rapid_symbol_data, get_file, logout, set_io_signal,
  set_rapid_symbol_text, set_rapid_symbol_data, start_rapid_execution, stop_rapid_execution,
  reset_rapid_program_pointer, set_motors_on, set_motors_off, set_speed_ratio, upload_file,
  delete_file, register_local_user, register_remote_user, start_subscription,
  wait_for_subscription_event, end_subscription, force_close_subscription,
}

module _ {Jar : Type 0} (net : Net) (store : CookieStore Jar) (parse_xml : Text → Option Node) where
  Asks-evaluate_event :
      (o : Option PocoResult) → Asks {Jar = Jar} 0 (evaluate_event net store parse_xml o)
  Asks-evaluate_event none = Asks-pure none 0
  Asks-evaluate_event (some r) =
      Asks-bind {a = 0} {b = 0} _ _ (Asks-evaluate net store parse_xml r _)
        (λ result. Asks-pure (some result) 0)

  Asks-connected :
      (connected : PocoResult) (conditions : EvaluationConditions)
      → Asks {Jar = Jar} {A = RwsResult} 0 (
          evaluate parse_xml connected conditions >>= λ result.
          (if result.success then pure tt else set_group []) >>= λ x. pure result)
  Asks-connected connected conditions =
      Asks-bind {a = 0} {b = 0} (evaluate parse_xml connected conditions) _
        (Asks-evaluate net store parse_xml connected conditions)
        λ result.
          Asks-bind {a = 0} {b = 0} (if result.success then pure tt else set_group []) _
            (Asks-if result.success (pure tt) (set_group []) (Asks-pure tt 0)
              (record { at = λ c. omega arith }))
            (λ x. Asks-pure result 0)

  Asks-connect_to_group : (r : PocoResult) → Asks 1 (connect_to_group net store parse_xml r)
  unfolding connect_to_group
  Asks-connect_to_group r =
      let id : Text = find_substring_content r.response.header_info poll (codes "\n") in
      Asks-bind {a = 0} {b = 1} (set_group id) _ (record { at = λ c. omega arith })
        λ x.
          Asks-bind {a = 1} {b = 0}
            (on_poco (websocket_connect net store (poll ++ id) (codes "robapi2_subscription"))) _
            (record { at = λ c. omega (arith, websocket_connect_bounded net store _ _ c.poco) })
            λ connected. Asks-connected connected (accepts (http_switching_protocols ∷ []))

  Asks-subscribe :
      (resources : List SubscriptionResource)
      → Asks {Jar = Jar} {A = RwsResult} 4 (
          on_poco (post net store services_subscription (subscription_content 0 resources)) >>= λ r.
          evaluate parse_xml r (accepts (http_created ∷ [])) >>= λ result.
          if result.success then connect_to_group net store parse_xml r else pure result)
  Asks-subscribe resources =
      Asks-bind {a = 3} {b = 1}
        (on_poco (post net store services_subscription (subscription_content 0 resources))) _
        (Asks-post net store parse_xml _ _)
        λ r.
          Asks-bind {a = 0} {b = 1} (evaluate parse_xml r (accepts (http_created ∷ []))) _
            (Asks-evaluate net store parse_xml r _)
            λ result.
              Asks-if result.success (connect_to_group net store parse_xml r) (pure result)
                (Asks-connect_to_group r) (Asks-pure result 1)

  Asks-unsubscribe :
      (id : Text)
      → Asks {Jar = Jar} {A = RwsResult} 3 (
          on_poco (delete net store (services_subscription ++ codes "/" ++ id)) >>= λ r.
          evaluate parse_xml r (accepts (http_ok ∷ [])))
  Asks-unsubscribe id =
      Asks-bind {a = 3} {b = 0}
        (on_poco (delete net store (services_subscription ++ codes "/" ++ id))) _
        (Asks-delete net store parse_xml _) (λ r. Asks-evaluate net store parse_xml r _)

  Asks-start_subscription :
      (resources : List SubscriptionResource)
      → Asks 4 (Subscription.start_subscription net store parse_xml resources)
  unfolding Subscription.start_subscription
  Asks-start_subscription resources = record {
    at = λ c.
        if_branches
          (λ (p : Outcome RwsResult × RwsClient Jar).
            sent_count p.1.poco.history ≤ 4 + sent_count c.poco.history)
          c.poco.websocket _ _ (λ e. omega arith) (λ e. (Asks-subscribe resources).at c);
  }

  Asks-wait_for_subscription_event :
      (fuel : ℕ) → Asks 0 (Subscription.wait_for_subscription_event net store parse_xml fuel)
  unfolding Subscription.wait_for_subscription_event
  Asks-wait_for_subscription_event fuel =
      Asks-bind {a = 0} {b = 0} (on_poco (websocket_receive_frame net fuel)) _
        (record { at = λ c. omega (arith, websocket_receive_frame_silent net fuel c.poco) })
        Asks-evaluate_event

  Asks-end_subscription : Asks 3 (Subscription.end_subscription net store parse_xml)
  unfolding Subscription.end_subscription
  Asks-end_subscription = record {
    at = λ c.
        if_branches
          (λ (p : Outcome RwsResult × RwsClient Jar).
            sent_count p.1.poco.history ≤ 3 + sent_count c.poco.history)
          (c.poco.websocket && not (is_empty c.subscription_group_id)) _ _
          (λ e. (Asks-unsubscribe c.subscription_group_id).at c) (λ e. omega arith);
  }

  Asks-force_close_subscription : Asks 0 (Subscription.force_close_subscription net store parse_xml)
  unfolding Subscription.force_close_subscription
  Asks-force_close_subscription = record {
    at = λ c. omega (arith, websocket_shutdown_silent net c.poco);
  }

-- At most so many requests for a call
abbrev pub call_limit : {Num Dnum : Type 0} → Call Num Dnum → ℕ
call_limit (get_rapid_symbol_data resource p_data) = 6
call_limit (start_subscription resources) = 4
call_limit (wait_for_subscription_event fuel) = 0
call_limit force_close_subscription = 0
call_limit _ = 3

abbrev pub calls_limit : {Num Dnum : Type 0} → List (Call Num Dnum) → ℕ
calls_limit [] = 0
calls_limit (call ∷ calls) = call_limit call + calls_limit calls

module _ {Jar Num Dnum : Type 0} (net : Net) (store : CookieStore Jar)
    (parse_xml : Text → Option Node) (fl : Floats Num Dnum) where
  at_call :
      {A : Type 0} {n : ℕ} (m : R Jar A)
      → Asks n m
      → (c : RwsClient Jar) → sent_count (m c).1.poco.history ≤ n + sent_count c.poco.history
  at_call m h c = h.at c

  asks-get_document :
      (uri : Text) (c : RwsClient Jar)
      → sent_count (Requests.get_document net store parse_xml uri c).1.poco.history
        ≤ 3 + sent_count c.poco.history
  asks-get_document uri c = (Asks-get_document net store parse_xml uri).at c

  asks-post_and_accept :
      (uri content : Text) (outcomes : List ℕ) (c : RwsClient Jar)
      → sent_count
          (Commands.post_and_accept net store parse_xml uri content outcomes c).1.poco.history
        ≤ 3 + sent_count c.poco.history
  asks-post_and_accept uri content outcomes c =
      (Asks-post_and_accept net store parse_xml uri content outcomes).at c

  asks :
      (call : Call Num Dnum) (c : RwsClient Jar)
      → sent_count (after_call net store parse_xml fl call c).poco.history
        ≤ call_limit call + sent_count c.poco.history
  unfolding after_call Requests.get_contoller_service Requests.get_configuration_instances
      Requests.get_io_signals Requests.get_io_signal Requests.get_mechanical_unit_static_info
      Requests.get_mechanical_unit_dynamic_info Requests.get_mechanical_unit_joint_target
      Requests.get_mechanical_unit_rob_target Requests.get_rapid_execution
      Requests.get_rapid_modules_info Requests.get_rapid_tasks Requests.get_robotware_system
      Requests.get_speed_ratio Requests.get_panel_controller_state Requests.get_panel_operation_mode
      Requests.get_rapid_symbol_resource Requests.get_rapid_symbol_properties Requests.logout
      Commands.set_io_signal Commands.set_rapid_symbol_text Commands.set_rapid_symbol_data
      Commands.start_rapid_execution Commands.stop_rapid_execution
      Commands.reset_rapid_program_pointer Commands.set_motors_on Commands.set_motors_off
      Commands.register_local_user Commands.register_remote_user
  asks get_contoller_service c = asks-get_document _ c
  asks (get_configuration_instances topic type) c = asks-get_document _ c
  asks get_io_signals c = asks-get_document _ c
  asks (get_io_signal iosignal) c = asks-get_document _ c
  asks (get_mechanical_unit_static_info mechunit) c = asks-get_document _ c
  asks (get_mechanical_unit_dynamic_info mechunit) c = asks-get_document _ c
  asks (get_mechanical_unit_joint_target mechunit) c = asks-get_document _ c
  asks (get_mechanical_unit_rob_target mechunit coordinate tool_name wobj_name) c =
      asks-get_document _ c
  asks get_rapid_execution c = asks-get_document _ c
  asks (get_rapid_modules_info task) c = asks-get_document _ c
  asks get_rapid_tasks c = asks-get_document _ c
  asks get_robotware_system c = asks-get_document _ c
  asks get_speed_ratio c = asks-get_document _ c
  asks get_panel_controller_state c = asks-get_document _ c
  asks get_panel_operation_mode c = asks-get_document _ c
  asks (get_rapid_symbol_resource resource) c = asks-get_document _ c
  asks (get_rapid_symbol_properties resource) c = asks-get_document _ c
  asks (get_rapid_symbol_data resource p_data) c =
      at_call (Requests.get_rapid_symbol_data net store parse_xml fl resource p_data)
        (Asks-get_rapid_symbol_data net store parse_xml fl resource p_data) c
  asks (get_file resource p_file_content) c =
      at_call (Requests.get_file net store parse_xml resource p_file_content)
        (Asks-get_file net store parse_xml resource p_file_content) c
  asks logout c = asks-get_document _ c
  asks (set_io_signal iosignal value) c = asks-post_and_accept _ _ _ c
  asks (set_rapid_symbol_text resource value) c = asks-post_and_accept _ _ _ c
  asks (set_rapid_symbol_data resource symbol) c = asks-post_and_accept _ _ _ c
  asks start_rapid_execution c = asks-post_and_accept _ _ _ c
  asks stop_rapid_execution c = asks-post_and_accept _ _ _ c
  asks reset_rapid_program_pointer c = asks-post_and_accept _ _ _ c
  asks set_motors_on c = asks-post_and_accept _ _ _ c
  asks set_motors_off c = asks-post_and_accept _ _ _ c
  asks (set_speed_ratio ratio) c =
      at_call (Commands.set_speed_ratio net store parse_xml ratio)
        (Asks-set_speed_ratio net store parse_xml ratio) c
  asks (upload_file resource file_content) c =
      at_call (Commands.upload_file net store parse_xml resource file_content)
        (Asks-upload_file net store parse_xml resource file_content) c
  asks (delete_file resource) c =
      at_call (Commands.delete_file net store parse_xml resource)
        (Asks-delete_file net store parse_xml resource) c
  asks (register_local_user username application location) c = asks-post_and_accept _ _ _ c
  asks (register_remote_user username application location) c = asks-post_and_accept _ _ _ c
  asks (start_subscription resources) c =
      at_call (Subscription.start_subscription net store parse_xml resources)
        (Asks-start_subscription net store parse_xml resources) c
  asks (wait_for_subscription_event fuel) c =
      at_call (Subscription.wait_for_subscription_event net store parse_xml fuel)
        (Asks-wait_for_subscription_event net store parse_xml fuel) c
  asks end_subscription c =
      at_call (Subscription.end_subscription net store parse_xml)
        (Asks-end_subscription net store parse_xml) c
  asks force_close_subscription c =
      at_call (Subscription.force_close_subscription net store parse_xml)
        (Asks-force_close_subscription net store parse_xml) c

  after_calls_bounded :
      (calls : List (Call Num Dnum)) (c : RwsClient Jar)
      → sent_count (after_calls net store parse_xml fl calls c).poco.history
        ≤ calls_limit calls + sent_count c.poco.history
  unfolding after_calls
  after_calls_bounded [] c = omega arith
  after_calls_bounded (call ∷ calls) c =
      omega
        (arith, asks call c, after_calls_bounded calls (after_call net store parse_xml fl call c))

  -- A client made by the constructor with all arguments sends, in any sequence of calls of the
  -- methods of RWSClient, at most three HTTP requests for each call, but four for startSubscription,
  -- the one that upgrades the connection to a WebSocket counted as one, six for getRAPIDSymbolData
  -- and none for waitForSubscriptionEvent and forceCloseSubscription, whatever the controller answers.
  pub lifetime_bounded :
      (ip_address username password : Text) (port : ℕ) (calls : List (Call Num Dnum))
      → sent_count
          (after_calls net store parse_xml fl calls
            (rws_client_at_port_for_user store ip_address port username password).1).poco.history
        ≤ calls_limit calls
  unfolding rws_client_at_port_for_user poco_client
  lifetime_bounded ip_address username password port calls = omega (
    arith,
    after_calls_bounded calls
        (rws_client_at_port_for_user store ip_address port username password).1,
  )
