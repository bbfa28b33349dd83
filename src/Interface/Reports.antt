-- ===== src/Interface/Reports.antt =====
-- getRAPIDTasks, getPresentRobotWareOptions and getSystemInfo of src/rws_interface.cpp: lists that are made
-- of the nodes of a document.
pub mod Options
use abb_librws.Base.{
  ℕ, zero, suc, ◌+◌, ◌≡◌, refl, ap, arith, Bool, Text, codes, text_eq, length, List, [], ◌∷◌,
  if◌then◌else◌, Option, none, some,
}
use Prim.Native.Nat.{◌/◌}
use mathlib.Core.List.{map}
use abb_librws.Xml.{Node, XmlAttribute, find_nodes, find_text_content}
use abb_librws.Poco.Work.{Net, CookieStore}
use abb_librws.Client.Types.{RwsResult, R, ◌>>=◌, pure}
use abb_librws.Client.Constants.{class_attribute, class_value}
use abb_librws.Client.Requests

-- RAPIDTaskExecutionState
pub data RapidTaskExecutionState : Type 0 where
  unknown ready stopped started uninitialized : RapidTaskExecutionState

-- RAPIDTaskInfo
pub record RapidTaskInfo : Type 0 where
  pub name : Text
  pub is_motion_task : Bool
  pub is_active : Bool
  pub execution_state : RapidTaskExecutionState

-- RobotWareOptionInfo
pub record RobotWareOptionInfo : Type 0 where
  pub name : Text
  pub description : Text

-- SystemInfo
pub record SystemInfo : Type 0 where
  pub robot_ware_version : Text
  pub system_name : Text
  pub system_type : Text
  pub system_options : List Text

-- The text of the class in a node
abbrev pub text_of : Text → Node → Text
text_of value node = find_text_content (some node) (class_attribute value)

-- The chain of tests on the text of the state
unfoldable pub execution_state_of : Text → RapidTaskExecutionState
execution_state_of temp =
    if text_eq temp (codes "read")
    then ready
    else if text_eq temp (codes "stop")
    then stopped
    else if text_eq temp (codes "star")
    then started
    else if text_eq temp (codes "unin")
    then uninitialized
    else unknown

-- One round of the loop of getRAPIDTasks
unfoldable pub task_info : Node → RapidTaskInfo
task_info node = record {
  name = text_of (codes "name") node;
  is_motion_task = text_eq (text_of (codes "motiontask") node) (codes "TRUE");
  is_active = text_eq (text_of (codes "active") node) (codes "On");
  execution_state = execution_state_of (text_of (codes "excstate") node);
}

-- The loop of getPresentRobotWareOptions, which takes two nodes at a time and drops a last one.
unfoldable pub pair_options : List Node → List RobotWareOptionInfo
pair_options [] = []
pair_options (node ∷ []) = []
pair_options (node ∷ next ∷ rest) =
    record { name = text_of (codes "value") node; description = text_of (codes "value") next }
    ∷ pair_options rest

-- The loop of getSystemInfo over the nodes of the system: the last one counts.
unfoldable pub last_system : SystemInfo → List Node → SystemInfo
last_system info [] = info
last_system info (node ∷ rest) =
    last_system
      (record info {
        system_name = text_of (codes "name") node;
        robot_ware_version = text_of (codes "rwversionname") node;
      })
      rest

module _ {Jar : Type 0} (net : Net) (store : CookieStore Jar) (parse_xml : Text → Option Node) where
  -- getRAPIDTasks
  unfoldable pub get_rapid_tasks : R Jar (List RapidTaskInfo)
  get_rapid_tasks = do
    rws_result ← Requests.get_rapid_tasks net store parse_xml
    pure (map task_info (find_nodes rws_result.document (class_attribute (codes "rap-task-li"))))

  -- getPresentRobotWareOptions
  unfoldable pub get_present_robot_ware_options : R Jar (List RobotWareOptionInfo)
  get_present_robot_ware_options = do
    rws_result ←
        Requests.get_configuration_instances net store parse_xml (codes "sys")
          (codes "present_options")
    pure (pair_options (find_nodes rws_result.document (class_attribute (codes "cfg-ia-t-li"))))

  -- getSystemInfo
  unfoldable pub get_system_info : R Jar SystemInfo
  get_system_info = do
    rws_result ← Requests.get_robotware_system net store parse_xml
    let systems = find_nodes rws_result.document (class_attribute (codes "sys-system-li"))
    let options = find_nodes rws_result.document (class_attribute (codes "sys-option-li"))
    service ← Requests.get_contoller_service net store parse_xml
    pure
        (record (last_system
          (record {
            robot_ware_version = [];
            system_name = [];
            system_type = [];
            system_options = [];
          })
          systems) {
            system_options = map (text_of (codes "option")) options;
            system_type = find_text_content service.document (class_attribute (codes "ctrl-type"));
          })
