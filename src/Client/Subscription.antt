-- ===== src/Client/Subscription.antt =====
-- The subscription of RWSClient: startSubscription, waitForSubscriptionEvent, endSubscription and forceCloseSubscription.
use abb_librws.Base.{
  ℕ, zero, suc, ◌+◌, Bool, true, false, Text, codes, is_empty, ◌++◌, List, [], ◌∷◌, if◌then◌else◌,
  not, ◌&&◌, Option, none, some,
}
use abb_librws.Xml.{Node}
use abb_librws.Poco.Types.{PocoResult, http_ok}
use abb_librws.Poco.Work.{Net, CookieStore}
use abb_librws.Poco.Http.{post, delete}
use abb_librws.Poco.Cookies.{find_substring_content}
use abb_librws.Poco.Socket.{websocket_connect, websocket_receive_frame, websocket_shutdown}
use abb_librws.Client.Types.{
  RwsResult, no_success, RwsClient, SubscriptionResource, Priority, low, medium, high, R, ◌>>=◌,
  ◌>>◌, pure, on_poco, decimal,
}
use abb_librws.Client.Constants.{services_subscription}
use abb_librws.Client.Evaluation.{evaluate}
use abb_librws.Client.Commands.{http_created, accepts}
use abb_librws.Client.Requests.{document_wanted}
pub mod Group
pub mod Events
pub mod Resources
pub mod Form

-- `stream << priority`: the number of the enumerator
abbrev pub priority_number : Priority → ℕ
priority_number low = 0
priority_number medium = 1
priority_number high = 2

-- What one subscription adds to the content of the request
unfoldable pub subscription_entry : ℕ → SubscriptionResource → Text
subscription_entry i r =
    codes "resources="
    ++ decimal i
    ++ codes "&"
    ++ decimal i
    ++ codes "="
    ++ r.resource_uri
    ++ codes "&"
    ++ decimal i
    ++ codes "-p="
    ++ decimal (priority_number r.priority)

-- The loop of startSubscription, from the i-th resource on.
unfoldable pub subscription_content : ℕ → List SubscriptionResource → Text
subscription_content i [] = []
subscription_content i (r ∷ []) = subscription_entry i r
subscription_content i (r ∷ s ∷ rest) =
    subscription_entry i r ++ codes "&" ++ subscription_content (suc i) (s ∷ rest)

abbrev pub http_switching_protocols : ℕ
http_switching_protocols = 101

abbrev pub poll : Text
poll = codes "/poll/"

abbrev pub set_group : {Jar : Type 0} → Text → R Jar (Unit {0})
set_group id c = pure tt (record c { subscription_group_id = id })

module _ {Jar : Type 0} (net : Net) (store : CookieStore Jar) (parse_xml : Text → Option Node) where
  -- The rest of startSubscription, once the request was accepted.
  unfoldable pub connect_to_group : PocoResult → R Jar RwsResult
  connect_to_group poco_result = do
    let id = find_substring_content poco_result.response.header_info poll (codes "\n")
    set_group id
    connected ← on_poco (websocket_connect net store (poll ++ id) (codes "robapi2_subscription"))
    result ← evaluate parse_xml connected (accepts (http_switching_protocols ∷ []))
    (if result.success then pure tt else set_group [])
    pure result

  -- startSubscription
  unfoldable pub start_subscription : List SubscriptionResource → R Jar RwsResult
  start_subscription resources c =
      if c.poco.websocket
      then pure no_success c
      else (do
        poco_result ←
            on_poco (post net store services_subscription (subscription_content 0 resources))
        result ← evaluate parse_xml poco_result (accepts (http_created ∷ []))
        if result.success then connect_to_group poco_result else pure result)
          c

  -- The evaluation of what the wait gives, if it has ended
  abbrev pub evaluate_event : Option PocoResult → R Jar (Option RwsResult)
  evaluate_event none = pure none
  evaluate_event (some poco_result) = do
    result ← evaluate parse_xml poco_result document_wanted
    pure (some result)

  -- waitForSubscriptionEvent, with fuel for the frames; `none` is a wait that goes on.
  unfoldable pub wait_for_subscription_event : ℕ → R Jar (Option RwsResult)
  wait_for_subscription_event fuel = do
    received ← on_poco (websocket_receive_frame net fuel)
    evaluate_event received

  -- endSubscription
  unfoldable pub end_subscription : R Jar RwsResult
  end_subscription c =
      if c.poco.websocket && not (is_empty c.subscription_group_id)
      then (do
        poco_result ←
            on_poco
              (delete net store (services_subscription ++ codes "/" ++ c.subscription_group_id))
        evaluate parse_xml poco_result (accepts (http_ok ∷ [])))
          c
      else pure no_success c

  -- forceCloseSubscription
  unfoldable pub force_close_subscription : R Jar (Unit {0})
  force_close_subscription = on_poco (websocket_shutdown net)
