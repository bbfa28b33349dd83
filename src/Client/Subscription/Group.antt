-- ===== src/Client/Subscription/Group.antt =====
-- What a client knows of its subscription group, and what the wait gives.
use abb_librws.Base.{
  Text, codes, Bool, true, false, List, [], ◌∷◌, ◌++◌, if◌then◌else◌, Option, some, ◌≡◌, ◌≢◌, ◌⊎◌,
  inl, inr, refl, ◌∙◌, arith,
}
use abb_librws.Xml.{Node}
use abb_librws.Poco.Types.{
  Outcome, done, raised, PocoResult, ok, ExceptionKind, invalid_argument, timeout,
  websocket_exception, net_exception, other_exception,
}
use abb_librws.Poco.Work.{Net, CookieStore, Client, Work}
use abb_librws.Poco.Http.{post}
use abb_librws.Poco.Cookies.{find_substring_content}
use abb_librws.Poco.Socket.{websocket_connect, open_socket, conclude_connect, caught_by_socket}
use abb_librws.Client.Types.{
  RwsResult, no_success, RwsClient, SubscriptionResource, R, and_run, pure, ◌>>=◌, ◌>>◌, on_poco,
}
use abb_librws.Client.Constants.{services_subscription}
use abb_librws.Client.Evaluation.{evaluate, verdict}
use abb_librws.Client.Evaluation.Verdict.{verdict_success_iff}
use abb_librws.Client.Commands.{accepts, http_created}
use abb_librws.Client.Actions.{and_run_returns, else_runs, on_poco_returns}
use abb_librws.Client.Subscription.{
  poll, set_group, subscription_content, connect_to_group, start_subscription,
  http_switching_protocols,
}

caught_by_socket-≢-ok : (k : ExceptionKind) → caught_by_socket k ≢ some ok
unfolding caught_by_socket
caught_by_socket-≢-ok invalid_argument e = cc
caught_by_socket-≢-ok timeout e = cc
caught_by_socket-≢-ok websocket_exception e = cc
caught_by_socket-≢-ok net_exception e = cc
caught_by_socket-≢-ok other_exception e = cc

module _ {Jar : Type 0} (net : Net) (store : CookieStore Jar) where
  open_socket-opens : (w v : Work Jar) → open_socket net store w ≡ (done tt, v) → v.websocket ≡ true
  unfolding open_socket
  open_socket-opens w v e = ground arith

  conclude_connect-opens :
      (p : Outcome (Unit {0}) × Work Jar) (r : PocoResult) (c : Client Jar)
      → ((v : Work Jar) → p ≡ (done tt, v) → v.websocket ≡ true)
      → conclude_connect p ≡ (done r, c)
      → r.status ≡ ok
      → c.websocket ≡ true
  unfolding conclude_connect
  conclude_connect-opens (done u, w) r c h e good =
      let opened : w.websocket ≡ true = h w refl in ground (arith, opened)
  conclude_connect-opens (raised x, w) r c h e good = ground (arith, caught_by_socket-≢-ok x.kind)

  websocket_connect-opens :
      (uri protocol : Text) (c d : Client Jar) (r : PocoResult)
      → websocket_connect net store uri protocol c ≡ (done r, d)
      → r.status ≡ ok
      → d.websocket ≡ true
  unfolding websocket_connect
  websocket_connect-opens uri protocol c d r e good =
      conclude_connect-opens (open_socket net store _) r d (open_socket-opens _) e good

module _ {Jar : Type 0} (net : Net) (store : CookieStore Jar) (parse_xml : Text → Option Node) where
  -- What the rest of startSubscription leaves.
  abbrev IsSettledGroup : Text → RwsResult → RwsClient Jar → Type 0
  IsSettledGroup id r d =
      (r.success ≡ true → (d.subscription_group_id ≡ id) × (d.poco.websocket ≡ true))
      × (r.success ≡ false → d.subscription_group_id ≡ [])

  group_kept :
      (success : Bool) (id : Text) (result : RwsResult) (c d : RwsClient Jar) (r : RwsResult)
      → result.success ≡ success
      → (success ≡ true → c.poco.websocket ≡ true)
      → c.subscription_group_id ≡ id
      → and_run ((if success then pure tt else set_group []) c) (λ _. pure result) ≡ (done r, d)
      → IsSettledGroup id r d
  group_kept true id result c d r s h k e = let opened = h refl in ground arith
  group_kept false id result c d r s h k e = ground arith

  -- What startSubscription does with the answer to the upgrade.
  abbrev conclusion : PocoResult → R Jar RwsResult
  conclusion connected =
      evaluate parse_xml connected (accepts (http_switching_protocols ∷ [])) >>= λ result.
      (if result.success then pure tt else set_group []) >> pure result

  conclusion_settles :
      (id : Text) (connected : PocoResult) (c d : RwsClient Jar) (r : RwsResult)
      → c.subscription_group_id ≡ id
      → (connected.status ≡ ok → c.poco.websocket ≡ true)
      → conclusion connected c ≡ (done r, d)
      → IsSettledGroup id r d
  unfolding evaluate
  conclusion_settles id connected c d r k h e =
      let result = verdict parse_xml connected (accepts (http_switching_protocols ∷ [])) in
      let accepted =
        (verdict_success_iff parse_xml connected (accepts (http_switching_protocols ∷ []))).0 in
      group_kept result.success id result _ d r refl (λ good. h ((accepted good).0.0)) k e

  connect_to_group_settles :
      (answer : PocoResult) (c d : RwsClient Jar) (r : RwsResult)
      → connect_to_group net store parse_xml answer c ≡ (done r, d)
      → IsSettledGroup (find_substring_content answer.response.header_info poll (codes "\n")) r d
  unfolding connect_to_group evaluate
  connect_to_group_settles answer c d r e =
      let id = find_substring_content answer.response.header_info poll (codes "\n") in
      let upgrade = websocket_connect net store (poll ++ id) (codes "robapi2_subscription") in
      let asked : RwsClient Jar = record c { subscription_group_id = id } in
      let (connected, c2, e2, rest) = and_run_returns (on_poco upgrade asked) conclusion r d e in
      let (called, same) = on_poco_returns upgrade connected asked c2 e2 in
      conclusion_settles id connected c2 d r same
        (websocket_connect-opens net store (poll ++ id) (codes "robapi2_subscription") c.poco
          c2.poco connected called)
        rest

  accepted_settles :
      (success : Bool) (result r : RwsResult) (answer : PocoResult) (c d : RwsClient Jar)
      → result.success ≡ success
      → (if success then connect_to_group net store parse_xml answer else pure result) c
        ≡ (done r, d)
      → (r.success ≡ true
          → (d.subscription_group_id
              ≡ find_substring_content answer.response.header_info poll (codes "\n"))
            × (d.poco.websocket ≡ true))
        × (r.success ≡ false
            → (d.subscription_group_id ≡ []) ⊎ (d.subscription_group_id ≡ c.subscription_group_id))
  accepted_settles true result r answer c d s e =
      let (good, bad) = connect_to_group_settles answer c d r e in (good, λ h. inl (bad h))
  accepted_settles false result r answer c d s e = (λ h. ground arith, λ h. inr (ground arith))

  -- startSubscription that returns on a client with no WebSocket: there was an answer to its request, and on
  -- success the group is the one that the answer's header names, and there is a WebSocket; otherwise the
  -- group is empty or as before.
  pub start_subscription_settles :
      (resources : List SubscriptionResource) (c d : RwsClient Jar) (r : RwsResult)
      → c.poco.websocket ≡ false
      → start_subscription net store parse_xml resources c ≡ (done r, d)
      → (answer : PocoResult) × (p : Client Jar) × (post net store services_subscription
            (subscription_content 0 resources)
            c.poco
          ≡ (done answer, p))
        × (r.success ≡ true
            → (d.subscription_group_id
                ≡ find_substring_content answer.response.header_info poll (codes "\n"))
              × (d.poco.websocket ≡ true))
        × (r.success ≡ false
            → (d.subscription_group_id ≡ []) ⊎ (d.subscription_group_id ≡ c.subscription_group_id))
  unfolding start_subscription evaluate
  start_subscription_settles resources c d r closed e =
      let request = post net store services_subscription (subscription_content 0 resources) in
      let decided : PocoResult → R Jar RwsResult = λ answer.
        evaluate parse_xml answer (accepts (http_created ∷ [])) >>= λ result.
        if result.success then connect_to_group net store parse_xml answer else pure result in
      let runs =
        else_runs c.poco.websocket (pure no_success c) ((on_poco request >>= decided) c) (done r, d)
          closed e in
      let (answer, c1, e1, rest) = and_run_returns (on_poco request c) decided r d runs in
      let (called, same) = on_poco_returns request answer c c1 e1 in
      let result = verdict parse_xml answer (accepts (http_created ∷ [])) in
      let (good, bad) = accepted_settles result.success result r answer _ d refl rest in
      (
        answer,
        c1.poco,
        called,
        good,
        λ h. elim (bad h) [ inl none_left ↦ inl none_left | inr kept ↦ inr (kept ∙ same) ],
      )
