-- ===== src/Tests/Events.antt =====
-- A WebSocket on which a ping comes first, and then an event or the end.
use abb_librws.Base.{◌≡◌, refl, true, false, arith, Text, codes, [], ◌∷◌, Option, some, none}
use abb_librws.Xml.{Node, text}
use abb_librws.Poco.Types.{Frame, Outcome, done}
use abb_librws.Poco.Work.{History, pong_sent, frame_received, socket_shutdown, Net, Client}
use abb_librws.Poco.Socket.{websocket_receive_frame}
use abb_librws.Poco.Socket.Frames.{Arrives, now, ping, frame_result, receives_frame, receives_close}
use abb_librws.Client.Types.{RwsClient}
use abb_librws.Client.Evaluation.{push_log}
use abb_librws.Client.Subscription.{wait_for_subscription_event}
use abb_librws.Client.Subscription.Events.{
  event_result, closed_result, wait_receives_event, wait_ends,
}
use abb_librws.Tests.Network.{controller, jar}

abbrev ping_frame : Frame
ping_frame = record { flags = 137; content = codes "?" }

abbrev then_frame : Frame → History → Outcome Frame
then_frame f [] = done ping_frame
then_frame f (_ ∷ _) = done f

-- After the ping, this frame comes.
abbrev pinging : Frame → Net
pinging f = record controller { receive = then_frame f }

abbrev event_frame : Frame
event_frame = record { flags = 129; content = codes "event" }

abbrev closing_frame : Frame
closing_frame = record { flags = 136; content = codes "bye" }

abbrev history_after : History
history_after = frame_received ∷ pong_sent (codes "?") ∷ frame_received ∷ []

event-Arrives : Arrives (pinging event_frame) event_frame history_after [] 1
event-Arrives = ping ping_frame refl refl refl (now refl refl refl)

closing-Arrives : Arrives (pinging closing_frame) closing_frame history_after [] 1
closing-Arrives = ping ping_frame refl refl refl (now refl refl refl)

abbrev listening : Client (Option Text)
listening = record { cookies = none; websocket = true; history = [] }

frame_passed_on :
    websocket_receive_frame (pinging event_frame) 2 listening
    ≡ (done (some (frame_result 129 (codes "event"))), record listening { history = history_after })
frame_passed_on =
    receives_frame (pinging event_frame) 2 listening refl event-Arrives (omega arith) refl

close_passed_on : websocket_receive_frame (pinging closing_frame) 2 listening ≡ (
  done (some (frame_result 136 [])),
  record listening { websocket = false; history = socket_shutdown ∷ history_after },
)
close_passed_on =
    receives_close (pinging closing_frame) 2 listening refl closing-Arrives (omega arith) refl refl

-- Every text is a document that holds it.
abbrev parser : Text → Option Node
parser t = some (text t)

abbrev subscribed : RwsClient (Option Text)
subscribed = record { poco = listening; log = []; subscription_group_id = codes "7" }

wait_receives_event_example :
    wait_for_subscription_event (pinging event_frame) jar parser 2 subscribed ≡ (
      done (some (event_result (text (codes "event")))),
      record subscribed {
        poco = record listening { history = history_after };
        log = push_log (frame_result 129 (codes "event")) [];
      },
    )
wait_receives_event_example =
    wait_receives_event (pinging event_frame) jar parser 2 subscribed refl event-Arrives
      (omega arith) (text (codes "event")) refl (λ e. cc) refl

wait_ends_example : wait_for_subscription_event (pinging closing_frame) jar parser 2 subscribed ≡ (
  done (some closed_result),
  record subscribed {
    poco = record listening { websocket = false; history = socket_shutdown ∷ history_after };
    log = push_log (frame_result 136 []) [];
  },
)
wait_ends_example =
    wait_ends (pinging closing_frame) jar parser 2 subscribed refl closing-Arrives (omega arith)
      refl refl
