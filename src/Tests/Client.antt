-- ===== src/Tests/Client.antt =====
-- Requests of an RWSClient, at controllers that answer them.
use abb_librws.Base.{
  ℕ, ◌≡◌, ◌≤◌, ◌<◌, ◌⊎◌, ◌↔◌, ◌++◌, refl, true, false, Text, codes, text_eq, find_first, [], ◌∷◌,
  List, Option, some, none, arith, All, length, ◌+◌,
}
use abb_librws.Xml.{
  Node, element, text, nil, cons, find_text_content, node_has_attribute, has_pair, find_text,
}
use abb_librws.Rapid.Symbols.{Symbol, num, parse, construct, get_type}
use abb_librws.Rapid.Atoms.{construct_num}
use abb_librws.Rapid.Symbols.Texts.{IsClean}
use abb_librws.Rapid.Symbols.RoundTrip.{IsExact}
use abb_librws.Poco.Types.{
  Outcome, done, raised, PocoResult, other_exception, no_result, ok, header_lines,
}
use abb_librws.Poco.Work.{Net, Client}
use abb_librws.Poco.Cookies.{
  find_substring_content, remove_quots, content_between, find, starts_with, find_any,
}
use abb_librws.Poco.Socket.{websocket_connect, conclude_connect, open_socket}
use abb_librws.Poco.Http.{
  get, post, make_http_request, attempt, conclude, send_and_receive, authenticate,
  retry_after_server_error, authenticate_if_unauthorized, keep_cookie_updates, clear_cookies,
  add_credentials, keep_received_cookies, mark_ok, new_request,
}
use abb_librws.Client.Types.{
  RwsResult, RwsClient, decimal, RapidResource, SubscriptionResource, low, high,
}
use abb_librws.Client.Constants.{class_value, class_dattyp, services_subscription}
use abb_librws.Client.Evaluation.{
  evaluate, verdict, check_accepted_outcomes, any_accepted, parse_message, message_of, push_log,
}
use abb_librws.Client.Evaluation.Log.{after_results, log-after_results}
use abb_librws.Client.Evaluation.Race.{LogSteps, log_outgrows}
use abb_librws.Client.Evaluation.Verdict.{IsAccepted, HasDocument, verdict_success_iff}
use abb_librws.Client.Requests.{
  document_wanted, get_rapid_symbol_data, get_rapid_symbol_properties, get_rapid_symbol_resource,
  get_document, read_value,
}
use abb_librws.Client.Paths.{rapid_data_path, rapid_properties_path}
use abb_librws.Client.Requests.SymbolData.{
  IsRead, get_rapid_symbol_data-IsRead, get_rapid_symbol_data_copies,
}
use abb_librws.Client.Commands.{
  ratio_out_of_range, post_and_accept, http_no_content, set_speed_ratio,
}
use abb_librws.Client.Commands.Sent.{IsNumeral, read_digits, set_speed_ratio_lem}
use abb_librws.Client.Subscription.{
  start_subscription, connect_to_group, subscription_content, subscription_entry, poll,
}
use abb_librws.Client.Subscription.Resources.{add, add_io_signal, add_rapid_persistant_variable}
use abb_librws.Client.Subscription.Form.{
  Without, form_fields, fields_from, form_fields-subscription_content,
}
use abb_librws.Client.Subscription.Group.{start_subscription_settles}
use abb_librws.Tests.Data.{digits}
use abb_librws.Tests.Network.{controller, jar, fresh}

abbrev new_client : RwsClient (Option Text)
new_client = record { poco = fresh; log = []; subscription_group_id = [] }

-- The document that the parser makes of every text: a number, 7.
abbrev number_document : Node
number_document = element [] (
    cons (element (class_dattyp ∷ []) (cons (text (codes "num")) nil))
      (cons (element (class_value ∷ []) (cons (text (codes "7")) nil)) nil))

abbrev parser : Text → Option Node
parser t = some number_document

abbrev answered : PocoResult
answered = record no_result {
  status = ok;
  response = record { status = 200; header_info = []; content = codes "x" };
}

verdict_success_iff_example : ((verdict parser answered document_wanted).success ≡ true) ↔ (
    IsAccepted answered document_wanted
    × HasDocument parser answered true (verdict parser answered document_wanted).document)
verdict_success_iff_example = verdict_success_iff parser answered document_wanted

log-after_results_example :
    (after_results parser
      ((no_result, document_wanted) ∷ (record no_result { status = ok }, document_wanted) ∷ [])
      new_client).log
    ≡ no_result ∷ record no_result { status = ok } ∷ []
log-after_results_example =
    log-after_results parser
      ((no_result, document_wanted) ∷ (record no_result { status = ok }, document_wanted) ∷ [])
      new_client refl

set_speed_ratio_lem_example :
    (100 < 50
      → set_speed_ratio controller jar parser 50 new_client ≡ (
        raised (record { kind = other_exception; display_text = ratio_out_of_range }),
        new_client,
      ))
    × (50 ≤ 100
        → (t : Text) × IsNumeral t
          × (read_digits 0 t ≡ 50)
          × (set_speed_ratio controller jar parser 50 new_client
              ≡ post_and_accept controller jar parser
                  (codes "/rw/panel/speedratio?action=setspeedratio")
                  (codes "speed-ratio=" ++ t)
                  (http_no_content ∷ [])
                  new_client))
set_speed_ratio_lem_example = set_speed_ratio_lem controller jar parser 50 new_client

abbrev symbol_resource : RapidResource
symbol_resource = record { task = codes "T_ROB1"; module_name = codes "M"; name = codes "x" }

abbrev read_number : Outcome (RwsResult × Option (Symbol ℕ ℕ)) × RwsClient (Option Text)
read_number =
    get_rapid_symbol_data controller jar parser digits symbol_resource (some (num 1)) new_client

abbrev found : RwsResult
found = record { success = true; document = some number_document; error_message = [] }

reads : read_number ≡ (done (found, some (num 7)), read_number.1)
unfolding get_rapid_symbol_data get_rapid_symbol_properties get_rapid_symbol_resource get_document
    read_value rapid_data_path rapid_properties_path evaluate verdict check_accepted_outcomes
    any_accepted parse_message message_of find_text_content find_text node_has_attribute has_pair
    text_eq get_type parse get make_http_request attempt conclude send_and_receive authenticate
    retry_after_server_error authenticate_if_unauthorized keep_cookie_updates clear_cookies
    add_credentials keep_received_cookies mark_ok new_request header_lines
reads = refl

get_rapid_symbol_data-IsRead_example : IsRead digits (num 1) found (num 7)
get_rapid_symbol_data-IsRead_example =
    get_rapid_symbol_data-IsRead digits (num 1) controller jar parser symbol_resource new_client
      read_number.1 found (num 7) reads

value_sent : find_text_content found.document class_value ≡ construct digits (num 7)
unfolding find_text_content find_text node_has_attribute has_pair text_eq construct construct_num
value_sent = refl

abbrev seven : Symbol ℕ ℕ
seven = num 7

seven-IsClean : IsClean digits seven
unfolding construct_num
seven-IsClean = ((λ e. cc), (refl, tt))

seven-IsExact : IsExact digits seven
unfolding construct_num
seven-IsExact = λ old. refl

get_rapid_symbol_data_copies_example : seven ≡ num 7
get_rapid_symbol_data_copies_example =
    get_rapid_symbol_data_copies digits (num 1) controller jar parser symbol_resource new_client
      read_number.1 found seven (num 7) reads refl value_sent tt seven-IsClean seven-IsExact
      (omega arith)

-- It creates a subscription, and upgrades to a WebSocket.
abbrev subscribing : Net
subscribing = record controller {
  respond = λ h r content. done (record {
    status = 201;
    headers = (codes "Location", codes "ws://c/poll/7") ∷ [];
    content = [];
  });
}

abbrev wanted : List SubscriptionResource
wanted = record { resource_uri = codes "/rw/panel/ctrlstate"; priority = high } ∷ []

abbrev started : Outcome RwsResult × RwsClient (Option Text)
started = start_subscription subscribing jar parser wanted new_client

abbrev subscribed_result : RwsResult
subscribed_result = record { success = true; document = none; error_message = [] }

starts : started ≡ (done subscribed_result, started.1)
unfolding start_subscription connect_to_group subscription_content subscription_entry post evaluate
    verdict check_accepted_outcomes any_accepted parse_message message_of decimal make_http_request
    attempt conclude send_and_receive authenticate retry_after_server_error
    authenticate_if_unauthorized keep_cookie_updates clear_cookies add_credentials
    keep_received_cookies mark_ok new_request header_lines websocket_connect conclude_connect
    open_socket
starts = refl

start_subscription_settles_example :
    (answer : PocoResult) × (p : Client (Option Text)) × (post subscribing jar services_subscription
        (subscription_content 0 wanted)
        fresh
      ≡ (done answer, p))
    × (true ≡ true
        → (started.1.subscription_group_id
            ≡ find_substring_content answer.response.header_info poll (codes "\n"))
          × (started.1.poco.websocket ≡ true))
    × (true ≡ false
        → (started.1.subscription_group_id ≡ []) ⊎ (started.1.subscription_group_id ≡ []))
start_subscription_settles_example =
    start_subscription_settles subscribing jar parser wanted new_client started.1 subscribed_result
      refl starts

group_is_seven : started.1.subscription_group_id ≡ codes "7"
unfolding start_subscription connect_to_group subscription_content subscription_entry post evaluate
    verdict check_accepted_outcomes any_accepted parse_message message_of decimal
    find_substring_content remove_quots content_between find starts_with find_any find_first
    make_http_request attempt conclude send_and_receive authenticate retry_after_server_error
    authenticate_if_unauthorized keep_cookie_updates clear_cookies add_credentials
    keep_received_cookies mark_ok new_request header_lines websocket_connect conclude_connect
    open_socket
group_is_seven = refl

abbrev subscribed : List SubscriptionResource
subscribed =
    add_rapid_persistant_variable
      (record { task = codes "T"; module_name = codes "M"; name = codes "n" }) low
      (add_io_signal (codes "s1") high [])

uris_hold_no_and : All (λ r. Without 38 r.resource_uri) subscribed
unfolding add add_io_signal add_rapid_persistant_variable
uris_hold_no_and = (
  (
    refl,
    (
      refl,
      (
        refl,
        (
          refl,
          (
            refl,
            (
              refl,
              (
                refl,
                (
                  refl,
                  (
                    refl,
                    (
                      refl,
                      (
                        refl,
                        (
                          refl,
                          (
                            refl,
                            (
                              refl,
                              (
                                refl,
                                (
                                  refl,
                                  (
                                    refl,
                                    (
                                      refl,
                                      (
                                        refl,
                                        (
                                          refl,
                                          (
                                            refl,
                                            (
                                              refl,
                                              (
                                                refl,
                                                (refl, (refl, (refl, (refl, (refl, (refl, tt)))))),
                                              ),
                                            ),
                                          ),
                                        ),
                                      ),
                                    ),
                                  ),
                                ),
                              ),
                            ),
                          ),
                        ),
                      ),
                    ),
                  ),
                ),
              ),
            ),
          ),
        ),
      ),
    ),
  ),
  (
    (
      refl,
      (
        refl,
        (
          refl,
          (
            refl,
            (
              refl,
              (
                refl,
                (
                  refl,
                  (
                    refl,
                    (
                      refl,
                      (
                        refl,
                        (
                          refl,
                          (
                            refl,
                            (
                              refl,
                              (
                                refl,
                                (
                                  refl,
                                  (
                                    refl,
                                    (
                                      refl,
                                      (
                                        refl,
                                        (
                                          refl,
                                          (
                                            refl,
                                            (
                                              refl,
                                              (
                                                refl,
                                                (
                                                  refl,
                                                  (
                                                    refl,
                                                    (
                                                      refl,
                                                      (
                                                        refl,
                                                        (
                                                          refl,
                                                          (
                                                            refl,
                                                            (
                                                            refl,
                                                            (
                                                            refl,
                                                            (
                                                            refl,
                                                            (
                                                            refl,
                                                            (
                                                            refl,
                                                            (
                                                            refl,
                                                            (
                                                            refl,
                                                            (refl, (refl, (refl, (refl, tt)))),
                                                            ),
                                                            ),
                                                            ),
                                                            ),
                                                            ),
                                                            ),
                                                            ),
                                                          ),
                                                        ),
                                                      ),
                                                    ),
                                                  ),
                                                ),
                                              ),
                                            ),
                                          ),
                                        ),
                                      ),
                                    ),
                                  ),
                                ),
                              ),
                            ),
                          ),
                        ),
                      ),
                    ),
                  ),
                ),
              ),
            ),
          ),
        ),
      ),
    ),
    tt,
  ),
)

form_fields-subscription_content_example :
    form_fields (subscription_content 0 subscribed) ≡ fields_from 0 subscribed
form_fields-subscription_content_example =
    form_fields-subscription_content 0 subscribed uris_hold_no_and

abbrev nineteen : List PocoResult
nineteen =
    no_result ∷ no_result ∷ no_result ∷ no_result ∷ no_result ∷ no_result ∷ no_result ∷ no_result
    ∷ no_result ∷ no_result ∷ no_result ∷ no_result ∷ no_result ∷ no_result ∷ no_result ∷ no_result
    ∷ no_result ∷ no_result ∷ no_result ∷ []

log_outgrows_example :
    (log' : List PocoResult) × LogSteps
      (record { log = nineteen; began = [] })
      (record { log = log'; began = [] })
    × (length log' ≡ 19 + length (no_result ∷ no_result ∷ []))
    × ((x : PocoResult) → length (push_log x log') ≡ length log')
log_outgrows_example = log_outgrows nineteen (no_result ∷ []) no_result refl
