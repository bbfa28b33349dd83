-- ===== src/Poco/Socket/Frames.antt =====
-- What webSocketReceiveFrame gives for the frames that arrive.
use abb_librws.Base.{ℕ, zero, suc, ◌<◌, ◌≡◌, true, false, Text, ◌==◌, [], ◌∷◌, some, arith}
use abb_librws.Poco.Types.{
  PocoResult, Frame, done, opcode, op_close, op_ping, ok, no_result, add_websocket_frame_info,
}
use abb_librws.Poco.Work.{History, frame_received, pong_sent, socket_shutdown, Net, Client, Work}
use abb_librws.Poco.Socket.{
  receive_loop, accept_frame, accept_received, receive_body, waiting, conclude_receive,
  websocket_receive_frame,
}

-- After so many pings, each answered, a frame arrives that is no ping.
pub data Arrives (net : Net) (f : Frame) (last : History) : History → ℕ → Type 0 where
  now :
      {h : History}
      → net.receive h ≡ done f
      → (opcode f.flags == op_ping) ≡ false
      → last ≡ frame_received ∷ h
      → Arrives net f last h 0
  ping :
      {h : History} {k : ℕ} (p : Frame)
      → net.receive h ≡ done p
      → (opcode p.flags == op_ping) ≡ true
      → net.pong (frame_received ∷ h) p.content ≡ done tt
      → Arrives net f last (pong_sent p.content ∷ frame_received ∷ h) k
      → Arrives net f last h (suc k)

abbrev with_history : {Jar : Type 0} → History → Work Jar → Work Jar
with_history h w = record w { client = record (w.client) { history = h } }

receive_loop-Arrives :
    {Jar : Type 0} {net : Net} {f : Frame} {last h : History} {k : ℕ} (fuel : ℕ) (w : Work Jar)
    → Arrives net f last h k
    → k < fuel
    → receive_loop net fuel (with_history h w) ≡ (done (some f), with_history last w)
unfolding receive_loop
receive_loop-Arrives zero w a lt = elim lt [ ]
receive_loop-Arrives (suc fuel) w (now e n l) lt = ground arith
receive_loop-Arrives (suc fuel) w (ping p e n q rest) lt =
    ground (arith, receive_loop-Arrives fuel w rest (omega arith))

-- The result that webSocketReceiveFrame gives for a frame.
abbrev pub frame_result : ℕ → Text → PocoResult
frame_result flags content = record no_result {
  status = ok;
  websocket = record { flags = flags; frame_content = content };
}

module _ {Jar : Type 0} (net : Net) (fuel : ℕ) (c : Client Jar) {f : Frame} {last : History} {k : ℕ}
    (connected : c.websocket ≡ true) (a : Arrives net f last c.history k) (enough : k < fuel) where
  -- With a WebSocket and fuel for more than k frames, after k pings, each of which is answered, a frame that
  -- is no closing frame is passed on.
  pub receives_frame :
      (opcode f.flags == op_close) ≡ false
      → websocket_receive_frame net fuel c
        ≡ (done (some (frame_result f.flags f.content)), record c { history = last })
  unfolding websocket_receive_frame receive_body conclude_receive accept_received accept_frame
      add_websocket_frame_info
  receives_frame n = ground (arith, receive_loop-Arrives fuel (waiting net c) a enough)

  -- With a WebSocket and fuel for more than k frames, after k pings, each of which is answered, a closing
  -- frame is passed on without its content, if the shut-down returns, and the socket is shut down and
  -- forgotten.
  pub receives_close :
      (opcode f.flags == op_close) ≡ true
      → net.shutdown last ≡ done tt
      → websocket_receive_frame net fuel c ≡ (
        done (some (frame_result f.flags [])),
        record c { websocket = false; history = socket_shutdown ∷ last },
      )
  unfolding websocket_receive_frame receive_body conclude_receive accept_received accept_frame
      add_websocket_frame_info
  receives_close n s = ground (arith, receive_loop-Arrives fuel (waiting net c) a enough)
