-- ===== src/Tests/Toggle.antt =====
-- A controller that keeps the value of a signal, in the mode AUTO.
use abb_librws.Base.{
  ℕ, ◌+◌, ◌≤◌, ◌≡◌, ◌↔◌, refl, true, Bool, Text, codes, text_eq, drop, [], ◌∷◌, Option, some,
  if◌then◌else◌,
}
use abb_librws.Xml.{
  Node, element, text, nil, cons, find_text_content, node_has_attribute, has_pair, find_text,
}
use abb_librws.Poco.Types.{Outcome, done, header_lines}
use abb_librws.Poco.Work.{Net, History, sent}
use abb_librws.Poco.Work.Rules.{sent_count}
use abb_librws.Poco.Http.{
  get, post, http_get, make_http_request, attempt, conclude, send_and_receive, authenticate,
  retry_after_server_error, authenticate_if_unauthorized, keep_cookie_updates, clear_cookies,
  add_credentials, keep_received_cookies, mark_ok, new_request,
}
use abb_librws.Client.Types.{RwsClient}
use abb_librws.Client.Constants.{class_opmode, class_lvalue}
use abb_librws.Client.Evaluation.{
  evaluate, verdict, check_accepted_outcomes, any_accepted, parse_message, message_of,
}
use abb_librws.Client.Requests.{get_document, get_panel_operation_mode}
use abb_librws.Client.Requests
use abb_librws.Client.Commands.{post_and_accept}
use abb_librws.Client.Commands
use abb_librws.Client.Paths.{io_signal_path}
use abb_librws.Interface.{
  true_value, is_auto_mode, is_true, tri_of, compare_single_content, get_io_signal, set_io_signal,
}
use abb_librws.StateMachine.{
  low, high, max_number_of_attempts, set_and_check, attempts, toggle_io_signal,
}
use abb_librws.StateMachine.Signals.{IsJustRead, toggle_io_signal_toggles}
use abb_librws.StateMachine.Attempts.{Succeeds, toggle_io_signal_iff}
use abb_librws.StateMachine.Bounds.{toggle_io_signal_bounded}
use abb_librws.Tests.Network.{controller, jar, fresh}

-- What was posted last: the text after `lvalue=`.
abbrev signal_value : History → Text
signal_value [] = []
signal_value (sent r [] ∷ h) = signal_value h
signal_value (sent r (c ∷ t) ∷ h) = drop 6 t
signal_value (_ ∷ h) = signal_value h

abbrev pub keeping : Net
keeping = record controller {
  respond = λ h r content. done (record {
    status = if text_eq r.method http_get then 200 else 204;
    headers = [];
    content = b'=' ∷ signal_value h;
  });
}

abbrev status_document : Text → Node
status_document value = element [] (
    cons (element (class_opmode ∷ []) (cons (text (codes "AUTO")) nil))
      (cons (element (class_lvalue ∷ []) (cons (text value) nil)) nil))

abbrev pub parser : Text → Option Node
parser t = some (status_document (drop 1 t))

abbrev pub idle : RwsClient (Option Text)
idle = record { poco = fresh; log = []; subscription_group_id = [] }

abbrev signal_name : Text
signal_name = codes "RUN"

abbrev toggled : Outcome Bool × RwsClient (Option Text)
toggled = toggle_io_signal keeping jar parser signal_name idle

toggles : toggled ≡ (done true, toggled.1)
unfolding toggle_io_signal attempts set_and_check is_auto_mode is_true tri_of compare_single_content
    get_io_signal set_io_signal get_panel_operation_mode get_document post_and_accept
    Requests.get_io_signal Commands.set_io_signal io_signal_path evaluate verdict
    check_accepted_outcomes any_accepted parse_message message_of find_text_content find_text
    node_has_attribute has_pair text_eq get post make_http_request attempt conclude send_and_receive
    authenticate retry_after_server_error authenticate_if_unauthorized keep_cookie_updates
    clear_cookies add_credentials keep_received_cookies mark_ok new_request header_lines
toggles = refl

toggle_io_signal_toggles_example :
    (c1 : RwsClient (Option Text)) × (c2 : RwsClient (Option Text)) × (is_auto_mode keeping jar
        parser idle
      ≡ (done true_value, c1))
    × (attempts keeping jar parser max_number_of_attempts signal_name low c1 ≡ (done true, c2))
    × IsJustRead keeping jar parser signal_name low c2
    × (attempts keeping jar parser max_number_of_attempts signal_name high c2
        ≡ (done true, toggled.1))
    × IsJustRead keeping jar parser signal_name high toggled.1
toggle_io_signal_toggles_example =
    toggle_io_signal_toggles keeping jar parser signal_name idle toggled.1 toggles

bounds_toggle : sent_count toggled.1.poco.history ≤ 63 + sent_count idle.poco.history
bounds_toggle = toggle_io_signal_bounded keeping jar parser signal_name idle

toggle_io_signal_iff_example : (toggled ≡ (done true, toggled.1)) ↔ (
    (c1 : RwsClient (Option Text)) × (c2 : RwsClient (Option Text)) × (j : ℕ) × (k : ℕ)
    × (is_auto_mode keeping jar parser idle ≡ (done true_value, c1))
    × (j ≤ 5)
    × Succeeds keeping jar parser signal_name low j c1 c2
    × (k ≤ 5)
    × Succeeds keeping jar parser signal_name high k c2 toggled.1)
toggle_io_signal_iff_example = toggle_io_signal_iff keeping jar parser signal_name idle toggled.1
