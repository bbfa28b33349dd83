-- ===== src/Poco/Socket/Limits.antt =====
-- How many HTTP requests the methods of the WebSocket send.
use abb_librws.Base.{
  ℕ, zero, suc, ◌+◌, ◌≤◌, ◌≡◌, refl, Text, if_branches, ◌==◌, Option, none, some, arith,
}
use abb_librws.Poco.Types.{Outcome, done, raised, Frame, opcode, op_ping}
use abb_librws.Poco.Work.{Net, CookieStore, Client, Work, M, call, frame_received, pong_sent}
use abb_librws.Poco.Work.Rules.{sent_count, Sends, Sends-bind}
use abb_librws.Poco.Socket.{
  caught_by_socket, conclude_connect, conclude_receive, open_socket, websocket_connect,
  receive_loop, accept_frame, accept_received, receive_body, websocket_receive_frame,
  websocket_shutdown, waiting,
}

module _ {Jar : Type 0} (net : Net) where
  Sends-open_socket : (store : CookieStore Jar) → Sends 1 (open_socket net store)
  unfolding open_socket
  Sends-open_socket store = record { at = λ w. ground arith }

  sent_count-conclude_connect :
      (p : Outcome (Unit {0}) × Work Jar)
      → sent_count (conclude_connect p).1.history ≡ sent_count p.1.history
  unfolding conclude_connect caught_by_socket
  sent_count-conclude_connect (done x, w) = ground arith
  sent_count-conclude_connect (raised e, w) = ground arith

  sent_count-conclude_receive :
      (p : Outcome (Option (Unit {0})) × Work Jar)
      → sent_count (conclude_receive p).1.history ≡ sent_count p.1.history
  unfolding conclude_receive caught_by_socket
  sent_count-conclude_receive (done none, w) = refl
  sent_count-conclude_receive (done (some x), w) = ground arith
  sent_count-conclude_receive (raised e, w) = ground arith

  Sends-receive_loop : (fuel : ℕ) → Sends {Jar = Jar} 0 (receive_loop net fuel)
  unfolding receive_loop
  Sends-receive_loop zero = record { at = λ w. omega arith }
  Sends-receive_loop (suc fuel) =
      let rest = Sends-receive_loop fuel in
      Sends-bind {a = 0} {b = 0} (call (λ w. net.receive w.history) (λ w. frame_received)) _
        (record { at = λ w. omega arith })
        λ frame.
          if_branches (λ (m : M Jar (Option Frame)). Sends 0 m) (opcode frame.flags == op_ping) _ _
            (λ e.
              Sends-bind {a = 0} {b = 0}
                (call (λ w. net.pong w.history frame.content) (λ w. pong_sent frame.content)) _
                (record { at = λ w. omega arith }) (λ x. rest))
            (λ e. record { at = λ w. omega arith })

  Sends-accept_received : (o : Option Frame) → Sends {Jar = Jar} 0 (accept_received net o)
  unfolding accept_received accept_frame
  Sends-accept_received none = record { at = λ w. omega arith }
  Sends-accept_received (some frame) = record { at = λ w. ground arith }

  receive_body_silent :
      (fuel : ℕ) (w : Work Jar)
      → sent_count (receive_body net fuel w).1.history ≤ 0 + 0 + sent_count w.history
  unfolding receive_body
  receive_body_silent fuel w =
      if_branches
        (λ (p : Outcome (Option (Unit {0})) × Work Jar).
          sent_count p.1.history ≤ 0 + 0 + sent_count w.history)
        w.websocket _ _
        (λ e. (Sends-bind {a = 0} {b = 0} _ _ (Sends-receive_loop fuel) Sends-accept_received).at w)
        (λ e. omega arith)

  pub websocket_connect_bounded :
      (store : CookieStore Jar) (uri protocol : Text) (c : Client Jar)
      → sent_count (websocket_connect net store uri protocol c).1.history ≤ 1 + sent_count c.history
  unfolding websocket_connect
  websocket_connect_bounded store uri protocol c =
      omega (
        arith,
        sent_count-conclude_connect (open_socket net store _),
        (Sends-open_socket store).at _,
      )

  pub websocket_receive_frame_silent :
      (fuel : ℕ) (c : Client Jar)
      → sent_count (websocket_receive_frame net fuel c).1.history ≤ sent_count c.history
  unfolding websocket_receive_frame
  websocket_receive_frame_silent fuel c = omega (
    arith,
    sent_count-conclude_receive (receive_body net fuel (waiting net c)),
    receive_body_silent fuel (waiting net c),
  )

  pub websocket_shutdown_silent :
      (c : Client Jar) → sent_count (websocket_shutdown net c).1.history ≤ sent_count c.history
  unfolding websocket_shutdown
  websocket_shutdown_silent c = ground arith
