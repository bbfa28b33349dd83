-- ===== src/Tests/Services.antt =====
-- The services of the state machine, at a controller that keeps a signal.
use abb_librws.Base.{
  ◌↔◌, none, ◌≢◌, ℕ, ◌*◌, ◌+◌, ◌≤◌, ◌≡◌, refl, true, Bool, Text, codes, text_eq, [], ◌∷◌, Option,
  some,
}
use abb_librws.Xml.{
  Node, element, text, nil, cons, find_text_content, node_has_attribute, has_pair, find_text,
}
use abb_librws.Poco.Types.{Outcome, done, header_lines}
use abb_librws.Poco.Work.Rules.{sent_count}
use abb_librws.Poco.Http.{
  get, post, make_http_request, attempt, conclude, send_and_receive, authenticate,
  retry_after_server_error, authenticate_if_unauthorized, keep_cookie_updates, clear_cookies,
  add_credentials, keep_received_cookies, mark_ok, new_request,
}
use abb_librws.Client.Types.{RwsClient}
use abb_librws.Client.Evaluation.{
  evaluate, verdict, check_accepted_outcomes, any_accepted, parse_message, message_of,
}
use abb_librws.Client.Requests.{get_document, get_panel_operation_mode}
use abb_librws.Client.Requests
use abb_librws.Client.Commands.{post_and_accept}
use abb_librws.Client.Commands
use abb_librws.Client.Paths.{io_signal_path}
use abb_librws.Interface.{
  is_auto_mode, is_true, tri_of, compare_single_content, get_io_signal, set_io_signal,
}
use abb_librws.StateMachine.{set_and_check, attempts, toggle_io_signal}
use abb_librws.Rapid.Atoms.{returned, construct_num, construct_string}
use abb_librws.Rapid.Symbols.{Symbol, num, construct, parse, get_type}
use abb_librws.Rapid.Symbols.Texts.{IsClean}
use abb_librws.Rapid.Symbols.RoundTrip.{SameShape, IsExact}
use abb_librws.Rapid.Symbols.Shapes.{object_of, parse-SameShape}
use abb_librws.Rapid.Records.{JointTarget, joint_target_symbol, RobTarget, rob_target_symbol}
use abb_librws.Rapid.Numbers.{pos, Conversions}
use abb_librws.Client.Types.{RwsResult}
use abb_librws.Client.Constants.{class_value, class_dattyp}
use abb_librws.Client.Paths.{rapid_data_path, rapid_properties_path}
use abb_librws.Client.Commands.{set_rapid_symbol_data, set_rapid_symbol_text}
use abb_librws.Client.Requests.{
  get_rapid_symbol_data, get_rapid_symbol_properties, get_rapid_symbol_resource, read_value,
}
use abb_librws.Interface.{write_rapid_symbol_data, read_rapid_symbol_data}
use abb_librws.StateMachine.Identifiers.{
  in_task, task_rob_l, task_rob_r, run_sg_routine, main_current_state,
  rapid_move_joint_target_input, rapid_move_rob_target_input, run_move_abs_j, run_move_j,
}
use abb_librws.StateMachine.Codes.{
  command_number, command_grip_in, command_none, States, state_initialize, state_of,
}
use abb_librws.StateMachine.Services.Grippers.{set_command_input, signal_run_sg_routine}
use abb_librws.StateMachine.Services.Grippers.Bounds.{commands_bounded}
use abb_librws.StateMachine.Services.Grippers.Gestures.{
  left_arm, grips_in, service, IsCommanded, service_iff,
}
use abb_librws.StateMachine.Services.Grippers
use abb_librws.StateMachine.Services.Routines.{
  run_move_abs_j_routine, run_move_j_routine, run_named, set_routine_name, signal_run_rapid_routine,
}
use abb_librws.StateMachine.Services.Routines.Written.{
  IsPosted, IsRun, run_move_abs_j_writes, run_move_j_writes,
}
use abb_librws.StateMachine.Services.Main.{get_current_state}
use abb_librws.StateMachine.Services.Main.Sources.{get_current_state_lem}
use abb_librws.Tests.Data.{digits}
use abb_librws.Tests.Network.{controller, jar}
use abb_librws.Tests.Toggle.{keeping, parser, idle}

abbrev pub whole : Conversions ℕ ℕ
whole = record {
  of_nat = λ n. n;
  to_int = pos;
  times_1000 = λ n. 1000 * n;
  input_num = λ t. none;
  input_dnum = λ t. none;
  input_int = λ t. none;
  input_unsigned = λ t. none;
}

abbrev gripped : Outcome Bool × RwsClient (Option Text)
gripped = service digits whole keeping jar parser left_arm grips_in idle

grips : gripped ≡ (done true, gripped.1)
unfolding Grippers.left_grip_in set_command_input signal_run_sg_routine write_rapid_symbol_data
    set_rapid_symbol_data set_rapid_symbol_text rapid_data_path command_number construct
    construct_num toggle_io_signal attempts set_and_check is_auto_mode is_true tri_of
    compare_single_content get_io_signal set_io_signal get_panel_operation_mode get_document
    post_and_accept Requests.get_io_signal Commands.set_io_signal io_signal_path evaluate verdict
    check_accepted_outcomes any_accepted parse_message message_of find_text_content find_text
    node_has_attribute has_pair text_eq get post make_http_request attempt conclude send_and_receive
    authenticate retry_after_server_error authenticate_if_unauthorized keep_cookie_updates
    clear_cookies add_credentials keep_received_cookies mark_ok new_request header_lines
grips = refl

service_iff_example : (gripped ≡ (done true, gripped.1)) ↔ (
    (c1 : RwsClient (Option Text)) × (c2 : RwsClient (Option Text)) × IsCommanded digits whole
      keeping jar parser task_rob_l 4 idle c1
    × IsCommanded digits whole keeping jar parser task_rob_r 0 c1 c2
    × (toggle_io_signal keeping jar parser run_sg_routine c2 ≡ (done true, gripped.1)))
service_iff_example = service_iff digits whole keeping jar parser left_arm grips_in idle gripped.1

bounds_commands : sent_count gripped.1.poco.history ≤ 69 + sent_count idle.poco.history
unfolding Grippers.left_grip_in
bounds_commands = commands_bounded digits whole keeping jar parser command_grip_in command_none idle

abbrev target : JointTarget ℕ
target = record {
  robax = record { rax_1 = 1; rax_2 = 2; rax_3 = 3; rax_4 = 4; rax_5 = 5; rax_6 = 6 };
  extax = record { eax_a = 1; eax_b = 2; eax_c = 3; eax_d = 4; eax_e = 5; eax_f = 6 };
}

abbrev target_symbol : Symbol ℕ ℕ
target_symbol = joint_target_symbol target

target_symbol-IsClean : IsClean digits target_symbol
unfolding construct_num
target_symbol-IsClean = (
  (
    ((λ e. cc), (refl, tt)),
    (
      ((λ e. cc), (refl, tt)),
      (
        ((λ e. cc), (refl, tt)),
        (((λ e. cc), (refl, tt)), (((λ e. cc), (refl, tt)), (((λ e. cc), (refl, tt)), tt))),
      ),
    ),
  ),
  (
    (
      ((λ e. cc), (refl, tt)),
      (
        ((λ e. cc), (refl, tt)),
        (
          ((λ e. cc), (refl, tt)),
          (((λ e. cc), (refl, tt)), (((λ e. cc), (refl, tt)), (((λ e. cc), (refl, tt)), tt))),
        ),
      ),
    ),
    tt,
  ),
)

target_symbol-IsExact : IsExact digits target_symbol
unfolding construct_num
target_symbol-IsExact = (
  (
    (λ old. refl),
    ((λ old. refl), ((λ old. refl), ((λ old. refl), ((λ old. refl), ((λ old. refl), tt))))),
  ),
  (
    (
      (λ old. refl),
      ((λ old. refl), ((λ old. refl), ((λ old. refl), ((λ old. refl), ((λ old. refl), tt))))),
    ),
    tt,
  ),
)

abbrev moved : Outcome Bool × RwsClient (Option Text)
moved = run_move_abs_j_routine digits keeping jar parser (codes "T_ROB1") target idle

moves : moved ≡ (done true, moved.1)
unfolding run_move_abs_j_routine run_named set_routine_name signal_run_rapid_routine
    write_rapid_symbol_data set_rapid_symbol_data set_rapid_symbol_text rapid_data_path construct
    construct_num construct_string toggle_io_signal attempts set_and_check is_auto_mode is_true
    tri_of compare_single_content get_io_signal set_io_signal get_panel_operation_mode get_document
    post_and_accept Requests.get_io_signal Commands.set_io_signal io_signal_path evaluate verdict
    check_accepted_outcomes any_accepted parse_message message_of find_text_content find_text
    node_has_attribute has_pair text_eq get post make_http_request attempt conclude send_and_receive
    authenticate retry_after_server_error authenticate_if_unauthorized keep_cookie_updates
    clear_cookies add_credentials keep_received_cookies mark_ok new_request header_lines
moves = refl

run_move_abs_j_writes_example :
    (value : Text) × (c1 : RwsClient (Option Text)) × IsPosted digits keeping jar parser
      (in_task (codes "T_ROB1") rapid_move_joint_target_input)
      value
      idle
      c1
    × ((old : JointTarget ℕ)
        → parse digits (joint_target_symbol old) value ≡ returned target_symbol)
    × IsRun digits keeping jar parser (codes "T_ROB1") run_move_abs_j c1 moved.1
run_move_abs_j_writes_example =
    run_move_abs_j_writes digits keeping jar parser (codes "T_ROB1") target idle moved.1
      target_symbol-IsClean target_symbol-IsExact moves

keeps_shape : SameShape target_symbol (object_of (parse digits target_symbol (codes "[[7],]")))
keeps_shape = parse-SameShape digits target_symbol (codes "[[7],]")

abbrev rob_target : RobTarget ℕ
rob_target = record {
  pos = record { x = 1; y = 2; z = 3 };
  orient = record { q1 = 1; q2 = 0; q3 = 0; q4 = 0 };
  robconf = record { cf1 = 0; cf4 = 0; cf6 = 0; cfx = 0 };
  extax = record { eax_a = 1; eax_b = 2; eax_c = 3; eax_d = 4; eax_e = 5; eax_f = 6 };
}

abbrev rob_symbol : Symbol ℕ ℕ
rob_symbol = rob_target_symbol rob_target

rob_symbol-IsClean : IsClean digits rob_symbol
unfolding construct_num
rob_symbol-IsClean = (
  (((λ e. cc), (refl, tt)), (((λ e. cc), (refl, tt)), (((λ e. cc), (refl, tt)), tt))),
  (
    (
      ((λ e. cc), (refl, tt)),
      (((λ e. cc), (refl, tt)), (((λ e. cc), (refl, tt)), (((λ e. cc), (refl, tt)), tt))),
    ),
    (
      (
        ((λ e. cc), (refl, tt)),
        (((λ e. cc), (refl, tt)), (((λ e. cc), (refl, tt)), (((λ e. cc), (refl, tt)), tt))),
      ),
      (
        (
          ((λ e. cc), (refl, tt)),
          (
            ((λ e. cc), (refl, tt)),
            (
              ((λ e. cc), (refl, tt)),
              (((λ e. cc), (refl, tt)), (((λ e. cc), (refl, tt)), (((λ e. cc), (refl, tt)), tt))),
            ),
          ),
        ),
        tt,
      ),
    ),
  ),
)

rob_symbol-IsExact : IsExact digits rob_symbol
unfolding construct_num
rob_symbol-IsExact = (
  ((λ old. refl), ((λ old. refl), ((λ old. refl), tt))),
  (
    ((λ old. refl), ((λ old. refl), ((λ old. refl), ((λ old. refl), tt)))),
    (
      ((λ old. refl), ((λ old. refl), ((λ old. refl), ((λ old. refl), tt)))),
      (
        (
          (λ old. refl),
          ((λ old. refl), ((λ old. refl), ((λ old. refl), ((λ old. refl), ((λ old. refl), tt))))),
        ),
        tt,
      ),
    ),
  ),
)

abbrev moved_j : Outcome Bool × RwsClient (Option Text)
moved_j = run_move_j_routine digits keeping jar parser (codes "T_ROB1") rob_target idle

moves_j : moved_j ≡ (done true, moved_j.1)
unfolding run_move_j_routine run_named set_routine_name signal_run_rapid_routine
    write_rapid_symbol_data set_rapid_symbol_data set_rapid_symbol_text rapid_data_path construct
    construct_num construct_string toggle_io_signal attempts set_and_check is_auto_mode is_true
    tri_of compare_single_content get_io_signal set_io_signal get_panel_operation_mode get_document
    post_and_accept Requests.get_io_signal Commands.set_io_signal io_signal_path evaluate verdict
    check_accepted_outcomes any_accepted parse_message message_of find_text_content find_text
    node_has_attribute has_pair text_eq get post make_http_request attempt conclude send_and_receive
    authenticate retry_after_server_error authenticate_if_unauthorized keep_cookie_updates
    clear_cookies add_credentials keep_received_cookies mark_ok new_request header_lines
moves_j = refl

writes_rob_target :
    (value : Text) × (c1 : RwsClient (Option Text)) × IsPosted digits keeping jar parser
      (in_task (codes "T_ROB1") rapid_move_rob_target_input)
      value
      idle
      c1
    × ((old : RobTarget ℕ) → parse digits (rob_target_symbol old) value ≡ returned rob_symbol)
    × IsRun digits keeping jar parser (codes "T_ROB1") run_move_j c1 moved_j.1
writes_rob_target =
    run_move_j_writes digits keeping jar parser (codes "T_ROB1") rob_target idle moved_j.1
      rob_symbol-IsClean rob_symbol-IsExact moves_j

-- A parser that makes the number 1 of every text
abbrev one_document : Node
one_document = element [] (
    cons (element (class_dattyp ∷ []) (cons (text (codes "num")) nil))
      (cons (element (class_value ∷ []) (cons (text (codes "1")) nil)) nil))

abbrev one_parser : Text → Option Node
one_parser t = some one_document

abbrev state_read : Outcome States × RwsClient (Option Text)
state_read = get_current_state digits whole controller jar one_parser (codes "T_ROB1") idle

reads_state : state_read ≡ (done state_initialize, state_read.1)
unfolding get_current_state read_rapid_symbol_data state_of get_rapid_symbol_data
    get_rapid_symbol_properties get_rapid_symbol_resource get_document read_value rapid_data_path
    rapid_properties_path evaluate verdict check_accepted_outcomes any_accepted parse_message
    message_of find_text_content find_text node_has_attribute has_pair text_eq get_type parse get
    make_http_request attempt conclude send_and_receive authenticate retry_after_server_error
    authenticate_if_unauthorized keep_cookie_updates clear_cookies add_credentials
    keep_received_cookies mark_ok new_request header_lines
reads_state = refl

get_current_state_lem_example :
    (r : RwsResult) × (x : ℕ) × (get_rapid_symbol_data controller jar one_parser digits
        (in_task (codes "T_ROB1") main_current_state)
        (some (num 0))
        idle
      ≡ (done (r, some (num x)), state_read.1))
    × (r.success ≡ true)
    × (find_text_content r.document class_value ≢ [])
    × (digits.read_num (find_text_content r.document class_value) 0 ≡ x)
    × (state_initialize ≡ state_of (pos x))
get_current_state_lem_example =
    get_current_state_lem digits whole controller jar one_parser (codes "T_ROB1") idle state_read.1
      state_initialize reads_state (λ e. cc)
