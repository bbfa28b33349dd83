-- ===== src/Tests/Reading.antt =====
-- The methods that read the configuration, a mechanical unit and the runtime information.
use abb_librws.Base.{
  ℕ, ◌+◌, ◌≡◌, ◌↔◌, refl, sym, ◌∙◌, arith, true, false, Bool, Text, codes, text_eq, text_eq_sound,
  ◌||◌, skip_space, length, List, [], ◌∷◌, ◌++◌, Option, some, All,
}
use abb_librws.Xml.{
  Node, Nodes, element, text, nil, cons, find_text_content, find_nodes, keep_nodes, elements,
  node_has_attribute, has_pair, find_text,
}
use abb_librws.Rapid.Atoms.{Floats}
use abb_librws.Rapid.Numbers.{pos, Conversions}
use abb_librws.Rapid.Records.{JointTarget, joint_target_symbol, RobTarget, rob_target_symbol}
use abb_librws.Rapid.Symbols.Texts.{IsWord}
use abb_librws.Poco.Types.{Outcome, done, header_lines}
use abb_librws.Poco.Http.{
  get, make_http_request, attempt, conclude, send_and_receive, authenticate,
  retry_after_server_error, authenticate_if_unauthorized, keep_cookie_updates, clear_cookies,
  add_credentials, keep_received_cookies, mark_ok, new_request,
}
use abb_librws.Client.Types.{RwsClient, RwsResult, tool}
use abb_librws.Client.Constants.{class_attribute, class_value}
use abb_librws.Client.Evaluation.{
  evaluate, verdict, check_accepted_outcomes, any_accepted, parse_message, message_of,
}
use abb_librws.Client.Requests.{
  get_document, get_configuration_instances, get_mechanical_unit_joint_target,
  get_mechanical_unit_rob_target, get_panel_operation_mode, get_panel_controller_state,
  get_rapid_execution,
}
use abb_librws.Interface.{
  true_value, false_value, is_auto_mode, is_motors_on, is_rapid_running, tri_of,
  compare_single_content,
}
use abb_librws.TriBools.{tri_eq, tri_ne}
use abb_librws.Interface.Calls.{collect_runtime_info}
use abb_librws.Interface.Calls.Connected.{collect_runtime_info_connected_iff}
use abb_librws.Interface.Configuration.{is_titled}
use abb_librws.Interface.Configuration.Motion.{Joint, get_cfg_joints}
use abb_librws.Interface.Configuration.Read.{HasOneTitle, Matches}
use abb_librws.Interface.Configuration.Read.Joints.{
  instances_of, attributes_of, IsJointAttribute, IsJointOf, get_cfg_joints_reads,
}
use abb_librws.Interface.Mechanical.{
  read_mechanical_unit_joint_target, read_mechanical_unit_rob_target,
}
use abb_librws.Interface.Mechanical.Documents.{
  HasWords, rax_classes, eax_classes, pos_classes, orient_classes, conf_classes, read_joint_target,
  read_rob_target, read_joint_target_lem, read_rob_target_lem,
}
use abb_librws.Tests.Data.{first_digit}
use abb_librws.Tests.Network.{controller, jar}
use abb_librws.Tests.Toggle.{keeping, parser, idle}

-- Numbers of one digit, before which a stream skips white space
abbrev skipping : Floats ℕ ℕ
skipping = record {
  print_num = λ n. (48 + n) ∷ [];
  read_num = λ t old. first_digit (skip_space t) old;
  is_unlimited_num = λ n. false;
  print_dnum = λ n. (48 + n) ∷ [];
  read_dnum = λ t old. first_digit (skip_space t) old;
  is_unlimited_dnum = λ n. false;
}

skips : (t : Text) (old : ℕ) → skipping.read_num (32 ∷ t) old ≡ skipping.read_num t old
unfolding skip_space
skips t old = refl

-- A document in which each of these classes has the text "7"
abbrev sevens : List Text → Nodes
sevens [] = nil
sevens (c ∷ cs) = cons (element (class_attribute c ∷ []) (cons (text (codes "7")) nil)) (sevens cs)

abbrev target_document : Node
target_document =
    element []
      (sevens (rax_classes ++ eax_classes ++ pos_classes ++ orient_classes ++ conf_classes))

abbrev answer : Node → RwsResult
answer document = record { success = true; document = some document; error_message = [] }

abbrev answers : Node → Text → Option Node
answers document t = some document

abbrev ones : JointTarget ℕ
ones = record {
  robax = record { rax_1 = 1; rax_2 = 1; rax_3 = 1; rax_4 = 1; rax_5 = 1; rax_6 = 1 };
  extax = record { eax_a = 1; eax_b = 1; eax_c = 1; eax_d = 1; eax_e = 1; eax_f = 1 };
}

abbrev asked : Outcome RwsResult × RwsClient (Option Text)
asked =
    get_mechanical_unit_joint_target controller jar (answers target_document) (codes "ROB_1") idle

asked_joints : asked ≡ (done (answer target_document), asked.1)
unfolding get_mechanical_unit_joint_target get_document evaluate verdict check_accepted_outcomes
    any_accepted parse_message message_of text_eq get make_http_request attempt conclude
    send_and_receive authenticate retry_after_server_error authenticate_if_unauthorized
    keep_cookie_updates clear_cookies add_credentials keep_received_cookies mark_ok new_request
    header_lines
asked_joints = refl

seven : IsWord (codes "7")
seven = ((λ e. cc), (refl, tt))

joint_words : HasWords (some target_document) (rax_classes ++ eax_classes)
unfolding find_text_content find_text node_has_attribute has_pair text_eq
joint_words = (
  seven,
  (
    seven,
    (seven, (seven, (seven, (seven, (seven, (seven, (seven, (seven, (seven, (seven, tt)))))))))),
  ),
)

reads_joint_target :
    read_mechanical_unit_joint_target controller jar
      (answers target_document)
      skipping
      (codes "ROB_1")
      (some (joint_target_symbol ones))
      idle
    ≡ (
      done (
        true,
        some (joint_target_symbol (read_joint_target skipping (some target_document) ones)),
      ),
      asked.1,
    )
reads_joint_target =
    read_joint_target_lem controller jar (answers target_document) skipping skips (codes "ROB_1")
      ones (answer target_document) idle asked.1 asked_joints refl joint_words

connected : collect_runtime_info keeping jar parser idle ≡ (
  done (record {
    auto_mode = true_value;
    motors_on = false_value;
    rapid_running = false_value;
    rws_connected = true;
  }),
  (collect_runtime_info keeping jar parser idle).1,
)
unfolding collect_runtime_info tri_eq tri_ne is_auto_mode is_motors_on is_rapid_running
    get_panel_operation_mode get_panel_controller_state get_rapid_execution tri_of
    compare_single_content get_document evaluate verdict check_accepted_outcomes any_accepted
    parse_message message_of find_text_content find_text node_has_attribute has_pair text_eq get
    make_http_request attempt conclude send_and_receive authenticate retry_after_server_error
    authenticate_if_unauthorized keep_cookie_updates clear_cookies add_credentials
    keep_received_cookies mark_ok new_request header_lines
connected = refl

collect_runtime_info_connected_iff_example :
    (r1 : RwsResult) × (r2 : RwsResult) × (r3 : RwsResult) × (c1 : RwsClient (Option Text))
    × (c2 : RwsClient (Option Text)) × (get_panel_operation_mode keeping jar parser idle
        ≡ (done r1, c1))
    × (get_panel_controller_state keeping jar parser c1 ≡ (done r2, c2))
    × (get_rapid_execution keeping jar parser c2
        ≡ (done r3, (collect_runtime_info keeping jar parser idle).1))
    × ((true ≡ true) ↔ ((r1.success ≡ true) × (r2.success ≡ true) × (r3.success ≡ true)))
collect_runtime_info_connected_iff_example =
    collect_runtime_info_connected_iff keeping jar parser
      (record {
        auto_mode = true_value;
        motors_on = false_value;
        rapid_running = false_value;
        rws_connected = true;
      })
      idle (collect_runtime_info keeping jar parser idle).1 connected

abbrev one_pose : RobTarget ℕ
one_pose = record {
  pos = record { x = 1; y = 1; z = 1 };
  orient = record { q1 = 1; q2 = 0; q3 = 0; q4 = 0 };
  robconf = record { cf1 = 0; cf4 = 0; cf6 = 0; cfx = 0 };
  extax = record { eax_a = 1; eax_b = 1; eax_c = 1; eax_d = 1; eax_e = 1; eax_f = 1 };
}

abbrev asked_pose : Outcome RwsResult × RwsClient (Option Text)
asked_pose =
    get_mechanical_unit_rob_target controller jar (answers target_document) (codes "ROB_1") tool
      (codes "tool0") (codes "wobj0") idle

asked_rob_target : asked_pose ≡ (done (answer target_document), asked_pose.1)
unfolding get_mechanical_unit_rob_target get_document evaluate verdict check_accepted_outcomes
    any_accepted parse_message message_of text_eq get make_http_request attempt conclude
    send_and_receive authenticate retry_after_server_error authenticate_if_unauthorized
    keep_cookie_updates clear_cookies add_credentials keep_received_cookies mark_ok new_request
    header_lines
asked_rob_target = refl

pose_words :
    HasWords (some target_document) (pos_classes ++ orient_classes ++ conf_classes ++ eax_classes)
unfolding find_text_content find_text node_has_attribute has_pair text_eq
pose_words = (
  seven,
  (
    seven,
    (
      seven,
      (
        seven,
        (
          seven,
          (
            seven,
            (
              seven,
              (
                seven,
                (seven, (seven, (seven, (seven, (seven, (seven, (seven, (seven, (seven, tt))))))))),
              ),
            ),
          ),
        ),
      ),
    ),
  ),
)

read_rob_target_lem_example :
    read_mechanical_unit_rob_target controller jar
      (answers target_document)
      skipping
      (codes "ROB_1")
      (some (rob_target_symbol one_pose))
      tool
      (codes "tool0")
      (codes "wobj0")
      idle
    ≡ (
      done (
        true,
        some (rob_target_symbol (read_rob_target skipping (some target_document) one_pose)),
      ),
      asked_pose.1,
    )
read_rob_target_lem_example =
    read_rob_target_lem controller jar (answers target_document) skipping skips (codes "ROB_1")
      one_pose tool (codes "tool0") (codes "wobj0") (answer target_document) idle asked_pose.1
      asked_rob_target refl pose_words

-- An instance of the configuration with these attributes
abbrev titled : Text → Text → Node
titled title value =
    element
      (class_attribute (codes "cfg-ia-t-li") ∷ record { name = codes "title"; value = title } ∷ [])
      (cons (element (class_value ∷ []) (cons (text value) nil)) nil)

abbrev joint_document : Node
joint_document = element [] (
    cons
      (element (class_attribute (codes "cfg-dt-instance-li") ∷ []) (
        cons (titled (codes "name") (codes "rob1_1"))
          (cons (titled (codes "logical_axis") (codes "1")) nil)))
      nil)

abbrev counting : Conversions ℕ ℕ
counting = record {
  of_nat = λ n. n;
  to_int = pos;
  times_1000 = λ n. n;
  input_num = λ t. some (length t);
  input_dnum = λ t. some (length t);
  input_int = λ t. some (pos (length t));
  input_unsigned = λ t. some (length t);
}

or_false : (b : Bool) → (b || false) ≡ true → b ≡ true
or_false b h = ground arith

titled_eq : (title value t : Text) → is_titled t (titled title value) ≡ true → title ≡ t
unfolding node_has_attribute has_pair text_eq
titled_eq title value t h = text_eq_sound title t (or_false (text_eq title t) h)

titled-HasOneTitle : (title value : Text) → HasOneTitle (titled title value)
titled-HasOneTitle title value t u h k = sym (titled_eq title value t h) ∙ titled_eq title value u k

abbrev asked_cfg : Outcome RwsResult × RwsClient (Option Text)
asked_cfg =
    get_configuration_instances controller jar (answers joint_document) (codes "MOC")
      (codes "JOINT") idle

asked_cfg_joints : asked_cfg ≡ (done (answer joint_document), asked_cfg.1)
unfolding get_configuration_instances get_document evaluate verdict check_accepted_outcomes
    any_accepted parse_message message_of text_eq get make_http_request attempt conclude
    send_and_receive authenticate retry_after_server_error authenticate_if_unauthorized
    keep_cookie_updates clear_cookies add_credentials keep_received_cookies mark_ok new_request
    header_lines
asked_cfg_joints = refl

joint_attributes :
    All
      (λ instance'. All (IsJointAttribute counting) (attributes_of instance'))
      (instances_of (some joint_document))
unfolding find_nodes keep_nodes elements find_text_content find_text node_has_attribute has_pair
    text_eq
joint_attributes = (
  (
    (
      titled-HasOneTitle (codes "name") (codes "rob1_1"),
      (λ t e. cc),
      (λ t. (pos 6, refl)),
      (λ t. (pos 6, refl)),
      (λ t e. cc),
      (λ t e. cc),
    ),
    (
      (
        titled-HasOneTitle (codes "logical_axis") (codes "1"),
        (λ t e. cc),
        (λ t. (pos 1, refl)),
        (λ t. (pos 1, refl)),
        (λ t e. cc),
        (λ t e. cc),
      ),
      tt,
    ),
  ),
  tt,
)

get_cfg_joints_reads_example :
    (joints : List Joint) × (get_cfg_joints counting controller jar (answers joint_document) idle
      ≡ (done joints, asked_cfg.1))
    × Matches (IsJointOf counting) (instances_of (some joint_document)) joints
get_cfg_joints_reads_example =
    get_cfg_joints_reads counting controller jar (answers joint_document) (answer joint_document)
      idle asked_cfg.1 asked_cfg_joints refl joint_attributes
