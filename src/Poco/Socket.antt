-- ===== src/Poco/Socket.antt =====
-- The WebSocket of a POCOClient, src/rws_poco_client.cpp: webSocketConnect, webSocketReceiveFrame and
-- webSocketShutdown.
pub mod Frames
pub mod Order
pub mod Limits
use abb_librws.Base.{
  ℕ, zero, suc, Bool, true, false, Text, codes, ◌==◌, if◌then◌else◌, [], Option, none, some, ◌≡◌,
  refl,
}
use abb_librws.Poco.Types.{
  GeneralStatus, ok, websocket_not_allocated, exception_poco_invalid_argument,
  exception_poco_timeout, exception_poco_net, exception_poco_websocket, PocoResult, no_result,
  HttpRequest, HttpResponse, Frame, ExceptionKind, invalid_argument, timeout, websocket_exception,
  net_exception, other_exception, Exception, Outcome, done, raised, add_http_request_info,
  add_http_response_info, add_websocket_frame_info, opcode, op_close, op_ping,
}
use abb_librws.Poco.Work.{
  reset_session, Event, session_reset, upgraded, timeout_set, frame_received, pong_sent,
  socket_shutdown, Net, CookieStore, Client, Work, M, and_run, ◌>>=◌, ◌>>◌, pure, modify, note,
  call, when,
}
use abb_librws.Poco.Http.{http_get, no_response, set_status}

-- The catch clauses of webSocketConnect and webSocketReceiveFrame, in their order.
unfoldable pub caught_by_socket : ExceptionKind → Option GeneralStatus
caught_by_socket invalid_argument = some exception_poco_invalid_argument
caught_by_socket timeout = some exception_poco_timeout
caught_by_socket websocket_exception = some exception_poco_websocket
caught_by_socket net_exception = some exception_poco_net
caught_by_socket other_exception = none

abbrev pub is_ok : GeneralStatus → Bool
is_ok ok = true
is_ok _ = false

module _ {Jar : Type 0} where
  abbrev pub set_websocket : Bool → Work Jar → Work Jar
  set_websocket b w = record w { client = record (w.client) { websocket = b } }

  -- The last lines of both methods: the session is reset if the status is not OK.
  abbrev pub reset_unless_ok : PocoResult → Client Jar → Client Jar
  reset_unless_ok r c = if is_ok r.status then c else reset_session c

  -- The catch clauses and the last lines of webSocketConnect.
  unfoldable pub conclude_connect : Outcome (Unit {0}) × Work Jar → Outcome PocoResult × Client Jar
  conclude_connect (done _, w) = (done w.result, reset_unless_ok w.result w.client)
  conclude_connect (raised e, w) = elim (caught_by_socket e.kind) [
    | none ↦ (raised e, w.client)
    | some status ↦ (
      done (record (w.result) { status = status; exception_message = e.display_text }),
      reset_session w.client,
    )
  ]

  -- The same of webSocketReceiveFrame; `none` is a wait that the fuel did not reach the end of.
  unfoldable pub conclude_receive :
      Outcome (Option (Unit {0})) × Work Jar → Outcome (Option PocoResult) × Client Jar
  conclude_receive (done none, w) = (done none, w.client)
  conclude_receive (done (some _), w) = (done (some w.result), reset_unless_ok w.result w.client)
  conclude_receive (raised e, w) = elim (caught_by_socket e.kind) [
    | none ↦ (raised e, w.client)
    | some status ↦ (
      done (some (record (w.result) { status = status; exception_message = e.display_text })),
      reset_session w.client,
    )
  ]

module _ {Jar : Type 0} (net : Net) (store : CookieStore Jar) where
  -- The body of the try block of webSocketConnect. The pointer is set once the socket is made.
  unfoldable pub open_socket : M Jar (Unit {0})
  open_socket = do
    modify (λ w. record w { result = add_http_request_info w.result w.request [] })
    response ← call (λ w. net.upgrade w.history w.request) (λ w. upgraded w.request)
    modify (λ w. set_websocket true (record w { response = response }))
    call (λ w. net.set_timeout w.history) (λ w. timeout_set)
    modify
        (λ w. record w { result = set_status ok (add_http_response_info w.result w.response []) })

  abbrev pub upgrade_request : Text → Text → Jar → HttpRequest
  upgrade_request uri protocol jar = record {
    method = http_get;
    uri = uri;
    cookie = some (store.header jar);
    content_length = 0;
    content_type = none;
    protocol = some protocol;
    authorization = none;
  }

  -- webSocketConnect
  unfoldable pub websocket_connect : Text → Text → Client Jar → Outcome PocoResult × Client Jar
  websocket_connect uri protocol c = conclude_connect (
      open_socket (record {
        client = c;
        result = no_result;
        request = upgrade_request uri protocol c.cookies;
        response = no_response;
      }))

module _ {Jar : Type 0} (net : Net) where
  -- The do-while loop that waits for a frame that is no ping, and replies to pings, with fuel.
  unfoldable pub receive_loop : ℕ → M Jar (Option Frame)
  receive_loop zero = pure none
  receive_loop (suc fuel) = do
    frame ← call (λ w. net.receive w.history) (λ w. frame_received)
    let rest = receive_loop fuel
    if opcode frame.flags == op_ping
        then (do call (λ w. net.pong w.history frame.content) (λ w. pong_sent frame.content); rest)
        else pure (some frame)

  -- After the loop: a closing frame's content is dropped, and the socket is shut down and forgotten.
  unfoldable pub accept_frame : Frame → M Jar (Unit {0})
  accept_frame frame =
      if opcode frame.flags == op_close
      then (do
        call (λ w. net.shutdown w.history) (λ w. socket_shutdown)
        modify (set_websocket false)
        modify (λ w. record w {
          result = set_status ok (add_websocket_frame_info w.result frame.flags []);
        }))
      else modify (λ w. record w {
        result = set_status ok (add_websocket_frame_info w.result frame.flags frame.content);
      })

  unfoldable pub accept_received : Option Frame → M Jar (Option (Unit {0}))
  accept_received none = pure none
  accept_received (some frame) = do accept_frame frame; pure (some tt)

  -- The body of the try block of webSocketReceiveFrame.
  unfoldable pub receive_body : ℕ → M Jar (Option (Unit {0}))
  receive_body fuel w =
      if w.websocket
      then (do received ← receive_loop fuel; accept_received received) w
      else (done (some tt), record w { result = set_status websocket_not_allocated w.result })

  -- The local variables of webSocketReceiveFrame, which has no request.
  abbrev pub waiting : Client Jar → Work Jar
  waiting c = record {
    client = c;
    result = no_result;
    request = record {
      method = [];
      uri = [];
      cookie = none;
      content_length = 0;
      content_type = none;
      protocol = none;
      authorization = none;
    };
    response = no_response;
  }

  -- webSocketReceiveFrame
  unfoldable pub websocket_receive_frame : ℕ → Client Jar → Outcome (Option PocoResult) × Client Jar
  websocket_receive_frame fuel c = conclude_receive (receive_body fuel (waiting c))

  -- webSocketShutdown
  unfoldable pub websocket_shutdown : Client Jar → Outcome (Unit {0}) × Client Jar
  websocket_shutdown c =
      if c.websocket
      then elim (net.shutdown c.history) [
        | done _ ↦ (done tt, record (note socket_shutdown c) { websocket = false })
        | raised e ↦ (raised e, note socket_shutdown c)
      ]
      else (done tt, c)
