-- ===== src/Client/Actions/Order.antt =====
-- What each method of the client keeps: the order in which the network is used, and the length of the log.
use abb_librws.Base.{
  ℕ, ◌≤◌, refl, Bool, false, Text, codes, if_branches, is_empty, ◌&&◌, not, ltb, length, List, [],
  ◌∷◌, ◌++◌, Option, none, some, if◌then◌else◌, arith,
}
use abb_librws.Xml.{Node}
use abb_librws.Rapid.Atoms.{Floats, Parsed, returned, threw}
use abb_librws.Rapid.Symbols.{Symbol}
use abb_librws.Poco.Types.{PocoResult, Outcome, http_ok}
use abb_librws.Poco.Work.{Net, CookieStore}
use abb_librws.Poco.Work.Rules.{Leads, Leads-if}
use abb_librws.Poco.Http.{get, post, put, delete, http_get, http_post, http_put, http_delete}
use abb_librws.Poco.Socket.Order.{
  IsSound, IsSoundWith, make_http_request-IsSoundWith, websocket_connect-IsSound,
  websocket_receive_frame-IsSound, websocket_shutdown-IsSound,
}
use abb_librws.Poco.Socket.{websocket_connect}
use abb_librws.Poco.Cookies.{find_substring_content}
use abb_librws.Client.Types.{
  RwsResult, EvaluationConditions, RwsClient, ◌>>=◌, pure, throw, on_poco, RapidResource,
  FileResource, SubscriptionResource,
}
use abb_librws.Client.Constants.{services_subscription}
use abb_librws.Client.Evaluation.{log_size, push_log, evaluate}
use abb_librws.Client.Evaluation.Race.{length-drop_last}
use abb_librws.Client.Actions.{Leads-bind, Leads-keep}
use abb_librws.Client.Requests.{get_document, read_value, parse_into}
use abb_librws.Client.Commands.{accepts, http_created, post_and_accept, ratio_out_of_range}
use abb_librws.Client.Subscription.{
  http_switching_protocols, poll, subscription_content, connect_to_group, set_group, evaluate_event,
}
use abb_librws.Client.Requests
use abb_librws.Client.Commands
use abb_librws.Client.Subscription

length-push_log :
    (r : PocoResult) (log : List PocoResult)
    → length log ≤ log_size
    → length (push_log r log) ≤ log_size
unfolding push_log
length-push_log r log h = let shorter = length-drop_last log in ground arith

-- The log has at most 20 results, a WebSocket was made only while none was open and used only while one was,
-- and the pointer tells whether one is.
abbrev pub IsSoundClient : {Jar : Type 0} → Net → RwsClient Jar → Type 0
IsSoundClient net c = (length c.log ≤ log_size) × IsSound net c.poco

abbrev pub IsSoundClientWith : {Jar : Type 0} → Net → Bool → RwsClient Jar → Type 0
IsSoundClientWith net b c = (length c.log ≤ log_size) × IsSoundWith net b c.poco

module _ {Jar : Type 0} (net : Net) (parse_xml : Text → Option Node) where
  Leads-evaluate :
      (b : Bool) (r : PocoResult) (conditions : EvaluationConditions)
      → Leads
          (IsSoundClientWith {Jar = Jar} net b)
          (IsSoundClientWith net b)
          (evaluate parse_xml r conditions)
  unfolding evaluate
  Leads-evaluate b r conditions = record { at = λ c h. (length-push_log r c.log h.0, h.1) }

  Leads-evaluate_any :
      (r : PocoResult) (conditions : EvaluationConditions)
      → Leads (IsSoundClient {Jar = Jar} net) (IsSoundClient net) (evaluate parse_xml r conditions)
  unfolding evaluate
  Leads-evaluate_any r conditions = record { at = λ c h. (length-push_log r c.log h.0, h.1) }

  pub Leads-pure :
      {A : Type 0} (b : Bool) (a : A)
      → Leads (IsSoundClientWith {Jar = Jar} net b) (IsSoundClientWith net b) (pure a)
  Leads-pure b a = record { at = λ c h. h }

module _ {Jar : Type 0} (net : Net) (store : CookieStore Jar) (parse_xml : Text → Option Node) where
  module _ (b : Bool) where
    abbrev pub Kept : RwsClient Jar → Type 0
    Kept c = IsSoundClientWith net b c

    Leads-get : (uri : Text) → Leads Kept Kept (on_poco (get net store uri))
    unfolding get
    Leads-get uri = record {
      at = λ c h. (h.0, make_http_request-IsSoundWith net store http_get uri [] b c.poco h.1);
    }

    Leads-post : (uri content : Text) → Leads Kept Kept (on_poco (post net store uri content))
    unfolding post
    Leads-post uri content = record {
      at = λ c h. (h.0, make_http_request-IsSoundWith net store http_post uri content b c.poco h.1);
    }

    Leads-put : (uri content : Text) → Leads Kept Kept (on_poco (put net store uri content))
    unfolding put
    Leads-put uri content = record {
      at = λ c h. (h.0, make_http_request-IsSoundWith net store http_put uri content b c.poco h.1);
    }

    Leads-delete : (uri : Text) → Leads Kept Kept (on_poco (delete net store uri))
    unfolding delete
    Leads-delete uri = record {
      at = λ c h. (h.0, make_http_request-IsSoundWith net store http_delete uri [] b c.poco h.1);
    }

    pub Leads-get_document : (uri : Text) → Leads Kept Kept (get_document net store parse_xml uri)
    unfolding get_document
    Leads-get_document uri =
        Leads-keep _ _ (Leads-get uri) (λ r. Leads-evaluate net parse_xml b r _)

    pub Leads-post_and_accept :
        (uri content : Text) (outcomes : List ℕ)
        → Leads Kept Kept (post_and_accept net store parse_xml uri content outcomes)
    unfolding post_and_accept
    Leads-post_and_accept uri content outcomes =
        Leads-keep _ _ (Leads-post uri content) (λ r. Leads-evaluate net parse_xml b r _)

    pub Leads-upload_file :
        (resource : FileResource) (file_content : Text)
        → Leads Kept Kept (Commands.upload_file net store parse_xml resource file_content)
    unfolding Commands.upload_file
    Leads-upload_file resource file_content =
        Leads-keep _ _ (Leads-put _ file_content) (λ r. Leads-evaluate net parse_xml b r _)

    pub Leads-delete_file :
        (resource : FileResource)
        → Leads Kept Kept (Commands.delete_file net store parse_xml resource)
    unfolding Commands.delete_file
    Leads-delete_file resource =
        Leads-keep _ _ (Leads-delete _) (λ r. Leads-evaluate net parse_xml b r _)

    pub Leads-set_speed_ratio :
        (ratio : ℕ) → Leads Kept Kept (Commands.set_speed_ratio net store parse_xml ratio)
    unfolding Commands.set_speed_ratio
    Leads-set_speed_ratio ratio =
        Leads-if (ltb 100 ratio) (throw ratio_out_of_range) _ (record { at = λ c h. h })
          (Leads-post_and_accept _ _ _)

    pub Leads-get_file :
        (resource : FileResource) (p_file_content : Option Text)
        → Leads Kept Kept (Requests.get_file net store parse_xml resource p_file_content)
    unfolding Requests.get_file
    Leads-get_file resource none = Leads-pure net parse_xml b _
    Leads-get_file resource (some file_content) = Leads-keep _ _ (Leads-get _) λ r.
        Leads-keep _ _ (Leads-evaluate net parse_xml b r _) (λ result. Leads-pure net parse_xml b _)

    module _ {Num Dnum : Type 0} (fl : Floats Num Dnum) where
      Leads-parse_into :
          (result : RwsResult) (p : Parsed (Symbol Num Dnum))
          → Leads Kept Kept (parse_into result p)
      Leads-parse_into result (returned s) = record { at = λ c h. h }
      Leads-parse_into result (threw s) = record { at = λ c h. h }

      Leads-read_value :
          (symbol : Symbol Num Dnum) (result : RwsResult)
          → Leads Kept Kept (read_value fl symbol result)
      unfolding read_value
      Leads-read_value symbol result =
          Leads-if _ _ _ (Leads-if _ _ _ (Leads-pure net parse_xml b _) (Leads-parse_into result _))
            (Leads-pure net parse_xml b _)

      pub Leads-get_rapid_symbol_data :
          (resource : RapidResource) (p_data : Option (Symbol Num Dnum))
          → Leads Kept Kept (Requests.get_rapid_symbol_data net store parse_xml fl resource p_data)
      unfolding Requests.get_rapid_symbol_data Requests.get_rapid_symbol_properties
          Requests.get_rapid_symbol_resource
      Leads-get_rapid_symbol_data resource none = Leads-pure net parse_xml b _
      Leads-get_rapid_symbol_data resource (some symbol) =
          Leads-keep _ _ (Leads-get_document _) λ t.
            Leads-if _ _ _ (Leads-keep _ _ (Leads-get_document _) (Leads-read_value symbol))
              (Leads-pure net parse_xml b _)

  abbrev pub Sound : RwsClient Jar → Type 0
  Sound c = IsSoundClient net c

  Leads-unchanged : {A : Type 0} (a : A) → Leads Sound Sound (pure {Jar = Jar} a)
  Leads-unchanged a = record { at = λ c h. h }

  -- The group is kept in a part of the client that neither the log nor the network is.
  Leads-set_group : (id : Text) → Leads Sound Sound (set_group {Jar = Jar} id)
  Leads-set_group id = record { at = λ c h. h }

  Leads-connect :
      (uri protocol : Text)
      → Leads
          (λ c. IsSoundClientWith net false c)
          Sound
          (on_poco (websocket_connect net store uri protocol))
  Leads-connect uri protocol = record {
    at = λ c h. (h.0, websocket_connect-IsSound net store uri protocol c.poco h.1.0 h.1.1);
  }

  Leads-set_group_unconnected :
      (id : Text)
      → Leads
          (λ c. IsSoundClientWith net false c)
          (λ c. IsSoundClientWith net false c)
          (set_group {Jar = Jar} id)
  Leads-set_group_unconnected id = record { at = λ c h. h }

  Leads-evaluate_connected :
      (connected : PocoResult) (conditions : EvaluationConditions)
      → Leads {S = RwsClient Jar} {A = RwsResult} Sound Sound (
          evaluate parse_xml connected conditions >>= λ result.
          (if result.success then pure tt else set_group []) >>= λ x. pure result)
  Leads-evaluate_connected connected conditions =
      Leads-keep (evaluate parse_xml connected conditions) _
        (Leads-evaluate_any net parse_xml connected conditions)
        λ result.
          Leads-keep (if result.success then pure tt else set_group []) _
            (Leads-if result.success (pure tt) (set_group []) (Leads-unchanged tt)
              (Leads-set_group []))
            (λ x. Leads-unchanged result)

  Leads-connect_to_group :
      (poco_result : PocoResult)
      → Leads
          (λ c. IsSoundClientWith net false c)
          Sound
          (connect_to_group net store parse_xml poco_result)
  unfolding connect_to_group
  Leads-connect_to_group poco_result =
      let id : Text = find_substring_content poco_result.response.header_info poll (codes "\n") in
      Leads-bind (set_group id) _ (Leads-set_group_unconnected id)
        (λ x.
          Leads-bind
            (on_poco (websocket_connect net store (poll ++ id) (codes "robapi2_subscription"))) _
            (Leads-connect _ _)
            (λ connected.
              Leads-evaluate_connected connected (accepts (http_switching_protocols ∷ [])))
            (λ c h. h))
        (λ c h. (h.0, h.1.1))

  Leads-subscribe :
      (resources : List SubscriptionResource)
      → Leads {S = RwsClient Jar} {A = RwsResult}
          (λ c. IsSoundClientWith net false c)
          Sound
          (on_poco (post net store services_subscription (subscription_content 0 resources))
            >>= λ poco_result.
                evaluate parse_xml poco_result (accepts (http_created ∷ [])) >>= λ result.
                if result.success
                then connect_to_group net store parse_xml poco_result
                else pure result)
  Leads-subscribe resources =
      Leads-bind (on_poco (post net store services_subscription (subscription_content 0 resources)))
        _ (Leads-post false _ _)
        (λ poco_result.
          Leads-bind (evaluate parse_xml poco_result (accepts (http_created ∷ []))) _
            (Leads-evaluate net parse_xml false poco_result _)
            (λ result.
              Leads-if result.success (connect_to_group net store parse_xml poco_result)
                (pure result) (Leads-connect_to_group poco_result)
                (record { at = λ c h. (h.0, h.1.1) }))
            (λ c h. (h.0, h.1.1)))
        (λ c h. (h.0, h.1.1))

  Leads-unsubscribe :
      (b : Bool) (id : Text)
      → Leads {S = RwsClient Jar} {A = RwsResult}
          (λ c. IsSoundClientWith net b c)
          (λ c. IsSoundClientWith net b c)
          (on_poco (delete net store (services_subscription ++ codes "/" ++ id)) >>= λ poco_result.
            evaluate parse_xml poco_result (accepts (http_ok ∷ [])))
  Leads-unsubscribe b id =
      Leads-keep (on_poco (delete net store (services_subscription ++ codes "/" ++ id))) _
        (Leads-delete b _) (λ r. Leads-evaluate net parse_xml b r _)

  pub Leads-start_subscription :
      (resources : List SubscriptionResource)
      → Leads Sound Sound (Subscription.start_subscription net store parse_xml resources)
  unfolding Subscription.start_subscription
  Leads-start_subscription resources = record {
    at = λ c h.
        if_branches (λ (p : Outcome RwsResult × RwsClient Jar). Sound p.1) c.poco.websocket _ _
          (λ e. h) (λ e. (Leads-subscribe resources).at c (h.0, (e, h.1)));
  }

  Leads-evaluate_event :
      (o : Option PocoResult) → Leads Sound Sound (evaluate_event net store parse_xml o)
  Leads-evaluate_event none = Leads-unchanged none
  Leads-evaluate_event (some r) =
      Leads-keep _ _ (Leads-evaluate_any net parse_xml r _)
        (λ result. Leads-unchanged (some result))

  pub Leads-wait_for_subscription_event :
      (fuel : ℕ)
      → Leads Sound Sound (Subscription.wait_for_subscription_event net store parse_xml fuel)
  unfolding Subscription.wait_for_subscription_event
  Leads-wait_for_subscription_event fuel =
      Leads-keep _ _
        (record { at = λ c h. (h.0, websocket_receive_frame-IsSound net fuel c.poco h.1) })
        Leads-evaluate_event

  pub Leads-end_subscription : Leads Sound Sound (Subscription.end_subscription net store parse_xml)
  unfolding Subscription.end_subscription
  Leads-end_subscription = record {
    at = λ c h.
        if_branches (λ (p : Outcome RwsResult × RwsClient Jar). Sound p.1)
          (c.poco.websocket && not (is_empty c.subscription_group_id)) _ _
          (λ e.
            let kept =
              (Leads-unsubscribe c.poco.websocket c.subscription_group_id).at c
                (h.0, (refl, h.1)) in
            (kept.0, kept.1.1))
          (λ e. h);
  }

  pub Leads-force_close_subscription :
      Leads Sound Sound (Subscription.force_close_subscription net store parse_xml)
  unfolding Subscription.force_close_subscription
  Leads-force_close_subscription = record {
    at = λ c h. (h.0, websocket_shutdown-IsSound net c.poco h.1);
  }
