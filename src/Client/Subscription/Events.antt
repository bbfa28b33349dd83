-- ===== src/Client/Subscription/Events.antt =====
-- What waitForSubscriptionEvent gives for the frames that arrive.
use abb_librws.Base.{ℕ, ◌<◌, Text, true, false, [], ◌∷◌, Option, none, some, ◌==◌, ◌≡◌, ◌≢◌, refl}
use abb_librws.Xml.{Node}
use abb_librws.Poco.Types.{Frame, done, opcode, op_close}
use abb_librws.Poco.Work.{History, socket_shutdown, Net, CookieStore}
use abb_librws.Poco.Socket.Frames.{Arrives, frame_result, receives_frame, receives_close}
use abb_librws.Client.Types.{RwsResult, RwsClient}
use abb_librws.Client.Evaluation.{
  evaluate, verdict, check_accepted_outcomes, any_accepted, parse_message, message_of, push_log,
  was_empty,
}
use abb_librws.Client.Requests.{document_wanted}
use abb_librws.Client.Subscription.{wait_for_subscription_event}

-- The result for an event with a document, and the one for an event with none.
abbrev pub event_result : Node → RwsResult
event_result document = record { success = true; document = some document; error_message = [] }

abbrev pub closed_result : RwsResult
closed_result = record { success = false; document = none; error_message = was_empty }

verdict-frame_result :
    (parse_xml : Text → Option Node) (flags : ℕ) (content : Text) (document : Node)
    → content ≢ []
    → parse_xml content ≡ some document
    → verdict parse_xml (frame_result flags content) document_wanted ≡ event_result document
unfolding verdict check_accepted_outcomes any_accepted parse_message message_of
verdict-frame_result parse_xml flags [] document h e = absurd (h refl)
verdict-frame_result parse_xml flags (x ∷ t) document h e = rw e refl

module _ {Jar : Type 0} (net : Net) (store : CookieStore Jar) (parse_xml : Text → Option Node)
    (fuel : ℕ) (c : RwsClient Jar) {f : Frame} {last : History} {k : ℕ}
    (connected : c.poco.websocket ≡ true) (a : Arrives net f last c.poco.history k)
    (enough : k < fuel) where
  -- With a WebSocket and fuel for more frames than the k pings, each answered, that come first, a frame that
  -- is no closing frame and whose content the parser accepts is a success with its document, and is logged.
  pub wait_receives_event :
      (document : Node)
      → (opcode f.flags == op_close) ≡ false
      → f.content ≢ []
      → parse_xml f.content ≡ some document
      → wait_for_subscription_event net store parse_xml fuel c ≡ (
        done (some (event_result document)),
        record c {
          poco = record (c.poco) { history = last };
          log = push_log (frame_result f.flags f.content) c.log;
        },
      )
  unfolding wait_for_subscription_event evaluate
  wait_receives_event document n full parsed =
      rw
        (
          receives_frame net fuel c.poco connected a enough n,
          verdict-frame_result parse_xml f.flags f.content document full parsed,
        )
        refl

  -- With a WebSocket and fuel for more frames than the k pings, each answered, that come first, a closing
  -- frame makes the wait no success, if the shut-down returns: it has no document, the message is that of an
  -- empty response, and the client has no WebSocket any more, while its group stays.
  pub wait_ends :
      (opcode f.flags == op_close) ≡ true
      → net.shutdown last ≡ done tt
      → wait_for_subscription_event net store parse_xml fuel c ≡ (
        done (some closed_result),
        record c {
          poco = record (c.poco) { websocket = false; history = socket_shutdown ∷ last };
          log = push_log (frame_result f.flags []) c.log;
        },
      )
  unfolding wait_for_subscription_event evaluate verdict check_accepted_outcomes any_accepted
      parse_message message_of
  wait_ends n s = rw (receives_close net fuel c.poco connected a enough n s) refl
