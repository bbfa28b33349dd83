-- ===== src/Tests/Calls.antt =====
-- A client that subscribes, waits for an event and ends the subscription, with a controller.
use abb_librws.Base.{ℕ, ◌≤◌, ◌≡◌, refl, Text, codes, List, [], ◌∷◌, Option}
use abb_librws.Poco.Work.Rules.{sent_count}
use abb_librws.Client.Types.{RwsClient, high}
use abb_librws.Client.Creation.{rws_client_at_port_for_user, destroy}
use abb_librws.Client.Calls.{
  Call, after_calls, left_by, start_subscription, wait_for_subscription_event, get_io_signals,
  end_subscription,
}
use abb_librws.Client.Calls.Order.{lifetime-IsSoundClient}
use abb_librws.Client.Calls.Limits.{calls_limit, lifetime_bounded}
use abb_librws.Client.Actions.Order.{IsSoundClient}
use abb_librws.Tests.Data.{digits}
use abb_librws.Tests.Network.{controller, jar}
use abb_librws.Tests.Toggle.{parser}

abbrev calls : List (Call ℕ ℕ)
calls =
    start_subscription (record { resource_uri = codes "/rw/panel/ctrlstate"; priority = high } ∷ [])
    ∷ wait_for_subscription_event 2
    ∷ get_io_signals
    ∷ end_subscription
    ∷ []

abbrev client : RwsClient (Option Text)
client =
    after_calls controller jar parser digits calls
      (rws_client_at_port_for_user jar (codes "10.0.0.1") 80 (codes "user") (codes "word")).1

lifetime-IsSoundClient_example :
    IsSoundClient controller client
    × IsSoundClient controller (left_by (destroy controller jar parser client))
lifetime-IsSoundClient_example =
    lifetime-IsSoundClient controller jar parser digits (codes "10.0.0.1") (codes "user")
      (codes "word") 80 calls

limit_of_calls : calls_limit calls ≡ 10
limit_of_calls = refl

lifetime_bounded_example : sent_count client.poco.history ≤ calls_limit calls
lifetime_bounded_example =
    lifetime_bounded controller jar parser digits (codes "10.0.0.1") (codes "user") (codes "word")
      80 calls
