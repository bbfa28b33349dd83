-- ===== src/Poco/Socket/Order.antt =====
-- In which order the network is used, over a WebSocket that is open or not.
use abb_librws.Base.{
  ℕ, zero, suc, ◌≡◌, sym, Bool, if_branches, ◌∙◌, true, false, ◌||◌, if◌then◌else◌, Text, [], ◌∷◌,
  Option, none, some, leb, ◌==◌, arith,
}
use abb_librws.Poco.Types.{Outcome, done, raised, Frame, opcode, op_ping}
use abb_librws.Poco.Work.{
  sent, session_reset, upgraded, timeout_set, frame_received, pong_sent, socket_shutdown, History,
  Net, CookieStore, Client, Work, M, modify, call, reset_session,
}
use abb_librws.Poco.Work.Rules.{Leads, Leads-bind, Leads-keep, Leads-when}
use abb_librws.Poco.Http.{
  http_internal_server_error, http_unauthorized, clear_cookies, add_credentials,
  keep_received_cookies, keep_cookie_updates, mark_ok, send_and_receive, authenticate,
  retry_after_server_error, authenticate_if_unauthorized, attempt, conclude, make_http_request,
  caught_by_http,
}
use abb_librws.Poco.Socket.{
  caught_by_socket, conclude_connect, conclude_receive, open_socket, websocket_connect,
  receive_loop, accept_frame, accept_received, receive_body, websocket_receive_frame,
  websocket_shutdown, waiting,
}

abbrev pub is_done {ℓ} : {A : Type ℓ} → Outcome A → Bool
is_done (done a) = true
is_done (raised e) = false

module _ (net : Net) where
  -- Whether a WebSocket is open after this history: one was made, and not shut down since.
  abbrev pub is_open : History → Bool
  is_open [] = false
  is_open (upgraded request ∷ h) = is_done (net.upgrade h request) || is_open h
  is_open (socket_shutdown ∷ h) = if is_done (net.shutdown h) then false else is_open h
  is_open (_ ∷ h) = is_open h

  -- A WebSocket is made only while none is open, and used only while one is.
  abbrev pub IsOrderly : History → Type 0
  IsOrderly [] = Unit
  IsOrderly (upgraded request ∷ h) = (is_open h ≡ false) × IsOrderly h
  IsOrderly (timeout_set ∷ h) = (is_open h ≡ true) × IsOrderly h
  IsOrderly (frame_received ∷ h) = (is_open h ≡ true) × IsOrderly h
  IsOrderly (pong_sent t ∷ h) = (is_open h ≡ true) × IsOrderly h
  IsOrderly (socket_shutdown ∷ h) = (is_open h ≡ true) × IsOrderly h
  IsOrderly (sent request t ∷ h) = IsOrderly h
  IsOrderly (session_reset ∷ h) = IsOrderly h

  -- The history is orderly, and the client's pointer tells whether a WebSocket is open.
  abbrev pub IsSound : {Jar : Type 0} → Client Jar → Type 0
  IsSound c = (c.websocket ≡ is_open c.history) × IsOrderly c.history

  -- With the pointer as it is
  abbrev pub IsSoundWith : {Jar : Type 0} → Bool → Client Jar → Type 0
  IsSoundWith b c = (c.websocket ≡ b) × IsSound c

module _ {Jar : Type 0} (net : Net) (store : CookieStore Jar) (content : Text) (b : Bool) where
  abbrev Kept : Work Jar → Type 0
  Kept w = IsSoundWith net b w.client

  Leads-send_and_receive : Leads Kept Kept (send_and_receive net store content)
  unfolding send_and_receive
  Leads-send_and_receive = record { at = λ w h. ground arith }

  Leads-clear_cookies : Leads Kept Kept (clear_cookies net store)
  unfolding clear_cookies
  Leads-clear_cookies = record { at = λ w h. h }

  Leads-add_credentials : Leads Kept Kept (add_credentials net store)
  unfolding add_credentials
  Leads-add_credentials = record { at = λ w h. ground arith }

  Leads-keep_received_cookies : Leads Kept Kept (keep_received_cookies net store)
  unfolding keep_received_cookies
  Leads-keep_received_cookies = record { at = λ w h. ground arith }

  Leads-keep_cookie_updates : Leads Kept Kept (keep_cookie_updates net store)
  unfolding keep_cookie_updates
  Leads-keep_cookie_updates = record { at = λ w h. ground arith }

  Leads-mark_ok : Leads Kept Kept (mark_ok net store)
  unfolding mark_ok
  Leads-mark_ok = record { at = λ w h. h }

  Leads-authenticate : Leads Kept Kept (authenticate net store content)
  unfolding authenticate
  Leads-authenticate = Leads-keep _ _ Leads-clear_cookies λ _.
      Leads-keep _ _ Leads-add_credentials
        λ _. Leads-keep _ _ Leads-send_and_receive λ _. Leads-keep_received_cookies

  Leads-fresh_session : Leads Kept Kept (
      modify (λ v. record v {
        client = reset_session v.client;
        request = record (v.request) { cookie = none };
      }))
  Leads-fresh_session = record { at = λ w h. h }

  Leads-retry : Leads Kept Kept (retry_after_server_error net store content)
  unfolding retry_after_server_error
  Leads-retry = record {
    at = λ w h.
        (Leads-when (leb http_internal_server_error w.response.status) _
            (Leads-keep _ _ Leads-fresh_session (λ _. Leads-send_and_receive))).at
          w h;
  }

  Leads-authenticate_if : Leads Kept Kept (authenticate_if_unauthorized net store content)
  unfolding authenticate_if_unauthorized
  Leads-authenticate_if = record {
    at = λ w h. (Leads-when (w.response.status == http_unauthorized) _ Leads-authenticate).at w h;
  }

  Leads-attempt : Leads Kept Kept (attempt net store content)
  unfolding attempt
  Leads-attempt = Leads-keep _ _ Leads-send_and_receive λ _.
      Leads-keep _ _ Leads-keep_cookie_updates
        λ _. Leads-keep _ _ Leads-retry λ _. Leads-keep _ _ Leads-authenticate_if λ _. Leads-mark_ok

  conclude-IsSoundWith :
      (p : Outcome (Unit {0}) × Work Jar)
      → IsSoundWith net b p.1.client
      → IsSoundWith net b (conclude net store p).1
  unfolding conclude caught_by_http
  conclude-IsSoundWith (done x, w) h = h
  conclude-IsSoundWith (raised e, w) h = ground arith

-- A call of makeHTTPRequest leaves the WebSocket alone.
pub make_http_request-IsSoundWith :
    {Jar : Type 0} (net : Net) (store : CookieStore Jar) (method uri content : Text) (b : Bool)
    (c : Client Jar)
    → IsSoundWith net b c
    → IsSoundWith net b (make_http_request net store method uri content c).1
unfolding make_http_request
make_http_request-IsSoundWith net store method uri content b c h =
    conclude-IsSoundWith net store content b _ ((Leads-attempt net store content b).at _ h)

module _ {Jar : Type 0} (net : Net) where
  abbrev IsSoundWork : Work Jar → Type 0
  IsSoundWork w = IsSound net w.client

  abbrev IsOpenWork : Work Jar → Type 0
  IsOpenWork w = IsSoundWith net true w.client

  Leads-open_socket :
      (store : CookieStore Jar)
      → Leads (λ w. IsSoundWith net false w.client) IsSoundWork (open_socket net store)
  unfolding open_socket
  Leads-open_socket store = record { at = λ w h. ground arith }

  conclude_connect-IsSound :
      (p : Outcome (Unit {0}) × Work Jar) → IsSoundWork p.1 → IsSound net (conclude_connect p).1
  unfolding conclude_connect caught_by_socket
  conclude_connect-IsSound (done x, w) h = ground arith
  conclude_connect-IsSound (raised e, w) h = ground arith

  conclude_receive-IsSound :
      (p : Outcome (Option (Unit {0})) × Work Jar)
      → IsSoundWork p.1
      → IsSound net (conclude_receive p).1
  unfolding conclude_receive caught_by_socket
  conclude_receive-IsSound (done none, w) h = h
  conclude_receive-IsSound (done (some x), w) h = ground arith
  conclude_receive-IsSound (raised e, w) h = ground arith

  Leads-receive_frame :
      Leads IsOpenWork IsOpenWork (call (λ w. net.receive w.history) (λ w. frame_received))
  Leads-receive_frame = record { at = λ w h. (h.0, (h.1.0, (sym h.1.0 ∙ h.0, h.1.1))) }

  Leads-pong :
      (frame : Frame)
      → Leads IsOpenWork IsOpenWork
          (call (λ w. net.pong w.history frame.content) (λ w. pong_sent frame.content))
  Leads-pong frame = record { at = λ w h. (h.0, (h.1.0, (sym h.1.0 ∙ h.0, h.1.1))) }

  Leads-receive_loop : (fuel : ℕ) → Leads IsOpenWork IsOpenWork (receive_loop net fuel)
  unfolding receive_loop
  Leads-receive_loop zero = record { at = λ w h. h }
  Leads-receive_loop (suc fuel) =
      let rest = Leads-receive_loop fuel in
      Leads-keep _ _ Leads-receive_frame λ frame.
        if_branches (λ (m : M Jar (Option Frame)). Leads IsOpenWork IsOpenWork m)
          (opcode frame.flags == op_ping) _ _ (λ e. Leads-keep _ _ (Leads-pong frame) (λ x. rest))
          (λ e. record { at = λ w h. h })

  Leads-accept_frame : (frame : Frame) → Leads IsOpenWork IsSoundWork (accept_frame net frame)
  unfolding accept_frame
  Leads-accept_frame frame = record { at = λ w h. ground arith }

  Leads-accept_received : (o : Option Frame) → Leads IsOpenWork IsSoundWork (accept_received net o)
  unfolding accept_received
  Leads-accept_received none = record { at = λ w h. h.1 }
  Leads-accept_received (some frame) =
      Leads-bind _ _ (Leads-accept_frame frame) (λ x. record { at = λ w h. h }) (λ w h. h)

  Leads-receive_body : (fuel : ℕ) → Leads IsSoundWork IsSoundWork (receive_body net fuel)
  unfolding receive_body
  Leads-receive_body fuel = record {
    at = λ w h.
        if_branches (λ (p : Outcome (Option (Unit {0})) × Work Jar). IsSoundWork p.1) w.websocket _
          _
          (λ e.
            (Leads-bind _ _ (Leads-receive_loop fuel) Leads-accept_received (λ v k. k.1)).at w
              (e, h))
          (λ e. h);
  }

  pub websocket_connect-IsSound :
      (store : CookieStore Jar) (uri protocol : Text) (c : Client Jar)
      → c.websocket ≡ false
      → IsSound net c
      → IsSound net (websocket_connect net store uri protocol c).1
  unfolding websocket_connect
  websocket_connect-IsSound store uri protocol c shut h =
      conclude_connect-IsSound _ ((Leads-open_socket store).at _ (shut, h))

  pub websocket_receive_frame-IsSound :
      (fuel : ℕ) (c : Client Jar)
      → IsSound net c
      → IsSound net (websocket_receive_frame net fuel c).1
  unfolding websocket_receive_frame
  websocket_receive_frame-IsSound fuel c h =
      conclude_receive-IsSound _ ((Leads-receive_body fuel).at (waiting net c) h)

  pub websocket_shutdown-IsSound :
      (c : Client Jar) → IsSound net c → IsSound net (websocket_shutdown net c).1
  unfolding websocket_shutdown
  websocket_shutdown-IsSound c h = ground arith
